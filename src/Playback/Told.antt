-- ===== src/Playback/Told.antt =====
-- src/playback_supervisor.rs: the flag `tts_playback_buffered` and the messages that tell of it, over
-- any sequence of commands, events of the player and audio ticks.
use Prim.Native.String.{String}
use mathlib.Core.Path.{fun_ext}
use clankvox.Base.{
  ℕ, ◌≡◌, refl, sym, ap, ◌∙◌, Bool, true, false, not, ◌&&◌, Option, none, some, List, [], ◌∷◌, ◌++◌,
  append-nil, append_assoc, arith, if◌then◌else◌, is_some,
}
use clankvox.Music
use clankvox.Playback.State.{
  Playback, Effect, TtsStatus, buffered, idle, player_state, music_idle, music_error,
  music_gain_reached, playback_armed, tts_playback_state, buffer_depth, start_player, stop_player,
  stops, stopping, tell_idle, tell_idle_if, tell_buffered_if, emit_playback_armed, report_gain,
}

pub and-not : (a b : Bool) → (a && not b) ≡ true → b ≡ false
and-not a b h = ground arith

pub and_right : (a b : Bool) → (a && b) ≡ true → b ≡ true
and_right a b h = ground arith

-- The listener's view after one more message; `none` if the message repeats what it knew.
abbrev heard_status : TtsStatus → Bool → Option Bool
heard_status buffered true = none
heard_status buffered false = some true
heard_status idle true = some false
heard_status idle false = none

abbrev hear : {F : Type 0} → Effect F → Bool → Option Bool
hear (tts_playback_state status) b = heard_status status b
hear (player_state s) b = some b
hear music_idle b = some b
hear (music_error s) b = some b
hear (music_gain_reached g) b = some b
hear (playback_armed s) b = some b
hear (buffer_depth t m) b = some b
hear (start_player h u d) b = some b
hear (stop_player h) b = some b

abbrev and_then : Option Bool → (Bool → Option Bool) → Option Bool
and_then none f = none
and_then (some b) f = f b

-- Whether the listener takes speech to be buffered, after the messages; `none` if one repeats the
-- one before it.
unfoldable pub track : {F : Type 0} → List (Effect F) → Bool → Option Bool
track [] b = some b
track (e ∷ es) b = and_then (hear e b) (track es)

and_then_assoc :
    (o : Option Bool) (f g : Bool → Option Bool)
    → and_then (and_then o f) g ≡ and_then o (λ b. and_then (f b) g)
and_then_assoc none f g = refl
and_then_assoc (some b) f g = refl

track-append :
    {F : Type 0} (xs ys : List (Effect F)) (b : Bool)
    → track (xs ++ ys) b ≡ and_then (track xs b) (track ys)
unfolding track
track-append [] ys b = refl
track-append (x ∷ xs) ys b =
    ap (and_then (hear x b)) (fun_ext (track-append xs ys))
    ∙ sym (and_then_assoc (hear x b) (track xs) (track ys))

track-stops : (F : Type 0) (o : Option ℕ) (b : Bool) → track {F = F} (stops o) b ≡ some b
unfolding track
track-stops F none b = refl
track-stops F (some h) b = refl

module _ {F E : Type 0} where
  -- The listener's view is the flag, and no message was repeated.
  unfoldable pub Agrees : Playback F E → Type 0
  Agrees p = track p.out false ≡ some p.tts_playback_buffered

  -- What a step sends takes the listener from the flag before it to the flag after it.
  pub Speaks : Playback F E → Playback F E → Type 0
  Speaks p p' =
      (es : List (Effect F)) × (p'.out ≡ p.out ++ es)
      × (track es p.tts_playback_buffered ≡ some p'.tts_playback_buffered)

  pub Speaks-Agrees : (p p' : Playback F E) → Speaks p p' → Agrees p → Agrees p'
  unfolding Speaks Agrees
  Speaks-Agrees p p' (es, out, t) h =
      ap (λ (l : List (Effect F)). track l false) out
      ∙ track-append p.out es false
      ∙ ap (λ (o : Option Bool). and_then o (track es)) h
      ∙ t

  pub Speaks-trans : (p q r : Playback F E) → Speaks p q → Speaks q r → Speaks p r
  unfolding Speaks
  Speaks-trans p q r (es, out, t) (fs, out', t') = (
    es ++ fs,
    out' ∙ ap (λ (l : List (Effect F)). l ++ fs) out ∙ append_assoc p.out es fs,
    track-append es fs p.tts_playback_buffered
        ∙ ap (λ (o : Option Bool). and_then o (track fs)) t
        ∙ t',
  )

  pub keeps :
      (p p' : Playback F E)
      → p'.out ≡ p.out
      → p'.tts_playback_buffered ≡ p.tts_playback_buffered
      → Speaks p p'
  unfolding Speaks track
  keeps p p' out flag = ([], out ∙ sym (append-nil p.out), ap some (sym flag))

  -- Messages that do not speak of the flag.
  pub emits :
      (p p' : Playback F E) (es : List (Effect F))
      → p'.out ≡ p.out ++ es
      → p'.tts_playback_buffered ≡ p.tts_playback_buffered
      → track es p.tts_playback_buffered ≡ some p.tts_playback_buffered
      → Speaks p p'
  unfolding Speaks
  emits p p' es out flag t = (es, out, t ∙ ap some (sym flag))

  pub stopping-Speaks :
      (method : Music.MusicState → Option ℕ × Music.MusicState) (p : Playback F E)
      → Speaks p (stopping method p)
  stopping-Speaks method p =
      emits p (stopping method p) (stops (method p.music).0) refl refl
        (track-stops F (method p.music).0 p.tts_playback_buffered)

  pub armed-Speaks : (reason : String) (p : Playback F E) → Speaks p (emit_playback_armed reason p)
  unfolding emit_playback_armed track
  armed-Speaks reason p =
      emits p (emit_playback_armed reason p)
        (if is_some p.audio then playback_armed reason ∷ [] else []) refl refl
        (armed_track (is_some p.audio) p.tts_playback_buffered)
    where
      armed_track :
          (present b : Bool)
          → track {F = F} (if present then playback_armed reason ∷ [] else []) b ≡ some b
      armed_track true b = refl
      armed_track false b = refl

  pub tell_idle_if-Speaks :
      (b : Bool) (p : Playback F E)
      → (b ≡ true → p.tts_playback_buffered ≡ true)
      → Speaks p (tell_idle_if b p)
  unfolding Speaks track
  tell_idle_if-Speaks true p h = (tts_playback_state idle ∷ [], refl, rw (h refl) refl)
  tell_idle_if-Speaks false p h = keeps p p refl refl

  pub tell_buffered_if-Speaks :
      (b : Bool) (p : Playback F E)
      → (b ≡ true → p.tts_playback_buffered ≡ false)
      → Speaks p (tell_buffered_if b p)
  unfolding Speaks track
  tell_buffered_if-Speaks true p h = (tts_playback_state buffered ∷ [], refl, rw (h refl) refl)
  tell_buffered_if-Speaks false p h = keeps p p refl refl

  pub tell_idle-Speaks : (p : Playback F E) → Speaks p (tell_idle p)
  tell_idle-Speaks p = tell_idle_if-Speaks p.tts_playback_buffered p (λ e. e)

  pub report_gain-Speaks : (gain : Option F) (p : Playback F E) → Speaks p (report_gain gain p)
  unfolding track
  report_gain-Speaks none p = keeps p p refl refl
  report_gain-Speaks (some g) p =
      emits p (report_gain (some g) p) (music_gain_reached g ∷ []) refl refl refl
