-- ===== src/Playback/Play.antt =====
-- src/playback_supervisor.rs: the command `MusicPlay`.
use Prim.Native.String.{String}
use clankvox.Base.{
  ℕ, ◌≡◌, ◌⊎◌, inl, inr, refl, Bool, true, false, some, [], ◌∷◌, Bool-cases, if◌then◌else◌, arith,
}
use clankvox.Music
use clankvox.Playback.Trim.{trim, trim_end, trim_start, is_whitespace, is_empty_text, IsBlank}
use clankvox.Playback.State.{
  Playback, emit, music_error, start_music_pipeline, clear_music_send_buffer, drain_music_pcm_queue,
}
use clankvox.Playback.Command.{handle_music_play}

trim_end-blank : (s : String) → IsBlank s → is_empty_text (trim_end s) ≡ true
unfolding trim_end
trim_end-blank String.[] h = refl
trim_end-blank (String.◌∷◌ c s) (w, h) = rw (w, trim_end-blank s h) refl

trim_start-blank : (s : String) → IsBlank s → is_empty_text (trim_start s) ≡ true
unfolding trim_start
trim_start-blank String.[] h = refl
trim_start-blank (String.◌∷◌ c s) (w, h) = rw w (trim_start-blank s h)

IsBlank-trim_end : (s : String) → is_empty_text (trim_end s) ≡ true → IsBlank s
unfolding trim_end
IsBlank-trim_end String.[] h = tt
IsBlank-trim_end (String.◌∷◌ c s) h = elim (Bool-cases (is_whitespace c)) [
  | inl w ↦ (w, IsBlank-trim_end s (ground arith))
  | inr solid ↦ cc
]

IsBlank-if :
    (b : Bool) (s t : String) → IsBlank (if b then s else t) → ((b ≡ true) × IsBlank s) ⊎ IsBlank t
IsBlank-if true s t h = inl (refl, h)
IsBlank-if false s t h = inr h

IsBlank-trim_start : (s : String) → IsBlank (trim_start s) → IsBlank s
unfolding trim_start
IsBlank-trim_start String.[] h = tt
IsBlank-trim_start (String.◌∷◌ c s) h =
    elim (IsBlank-if (is_whitespace c) (trim_start s) (String.◌∷◌ c s) h) [
      | inl (w, blank) ↦ (w, IsBlank-trim_start s blank)
      | inr blank ↦ blank
    ]

IsBlank-trim : (s : String) → is_empty_text (trim s) ≡ true → IsBlank s
unfolding trim
IsBlank-trim s h = IsBlank-trim_start s (IsBlank-trim_end (trim_start s) h)

trim_end-of_nil : (s : String) → is_empty_text s ≡ true → is_empty_text (trim_end s) ≡ true
unfolding trim_end
trim_end-of_nil String.[] h = refl
trim_end-of_nil (String.◌∷◌ c s) h = absurd (cc)

false_of : {b : Bool} → b ≡ true → b ≡ false → ⊥
false_of p q = cc

trim-blank : (s : String) → IsBlank s → is_empty_text (trim s) ≡ true
unfolding trim
trim-blank s h = trim_end-of_nil (trim_start s) (trim_start-blank s h)

module _ {F E : Type 0} where
  -- The start of the URL is pending, with a new player behind it, and the music before it is stopped.
  pub IsPending : ℕ → String → Bool → Playback F E → Playback F E → Type 0
  IsPending now url direct p p' =
      (p'.music.pending_url ≡ some url)
      × (p'.music.pending_received_at ≡ some now)
      × (p'.music.pending_resolved_direct_url ≡ direct)
      × (p'.music.active ≡ false)
      × (p'.music.player ≡ some p.next_player)
      × (p'.music_pcm ≡ [])

  pending_url_lem :
      (now : ℕ) (url : String) (direct : Bool) (p : Playback F E)
      → is_empty_text (trim url) ≡ false
      → IsPending now (trim url) direct p (handle_music_play now url direct p)
  unfolding handle_music_play IsPending start_music_pipeline Music.queue_pending_start
      Music.stop_player drain_music_pcm_queue clear_music_send_buffer
  pending_url_lem now url direct p h = rw h (refl, refl, refl, refl, refl, refl)

  -- `MusicPlay` with a URL of white space only answers with an error and changes nothing else; after
  -- any other URL, the trimmed URL is the pending start, received now, with a new player and an empty
  -- queue of music, and no music is active.
  pub handle_music_play_lem :
      (now : ℕ) (url : String) (direct : Bool) (p : Playback F E)
      → (IsBlank url
          × (handle_music_play now url direct p
              ≡ emit (music_error "music_play missing url" ∷ []) p))
        ⊎ (¬ IsBlank url × IsPending now (trim url) direct p (handle_music_play now url direct p))
  handle_music_play_lem now url direct p = elim (Bool-cases (is_empty_text (trim url))) [
    | inl e ↦ inl (IsBlank-trim url e, unfold handle_music_play in rw e refl)
    | inr e ↦ inr (λ blank. false_of (trim-blank url blank) e, pending_url_lem now url direct p e)
  ]
