-- ===== src/Playback/Stopped.antt =====
-- src/playback_supervisor.rs: the audio ticks after `StopPlayback`.
use Prim.Native.String.{String}
use mathlib.Core.Option
use clankvox.Base.{
  ℕ, ◌+◌, ◌≤◌, ◌≡◌, refl, sym, ap, subst, ◌∙◌, Bool, true, false, not, ◌&&◌, ◌||◌, Option, none,
  some, List, [], ◌∷◌, length, ltb, arith, All, if◌then◌else◌,
}
use clankvox.Base.Int.{ℤ}
use clankvox.Music
use clankvox.Audio.Floats.{Floats}
use clankvox.Audio.State.{AudioSendState, maybe_take_music_gain_reached, clear}
use clankvox.Audio.Frame.{next_opus_frame, has_music, idle, count_partial}
use clankvox.Audio.Idle.{next_opus_frame-idle}
use clankvox.Playback.State.{
  Playback, tell_idle, tell_idle_if, tell_buffered_if, report_gain, music_samples, stopping,
  emit_playback_armed, clear_audio_send_buffer, drain_music_pcm_queue,
}
use clankvox.Playback.Command.{handle_stop_playback, stop_playback_now}
use clankvox.Playback.Tick.{
  tick_pending_music_start, pending_start, tick_prefetch, fade_done, tick_finishing, tick_gain,
  take_gain, tick_pending_stop, tick_buffer_depth_report, report_depth, tick_frame, play_frame,
  on_audio_tick, tts_samples,
}

unless : {P : Type 0} (b c : Bool) (q p : P) → b ≡ false → (if b && c then q else p) ≡ p
unless true c q p e = absurd (cc)
unless false c q p e = refl

module _ {F E : Type 0} where
  abbrev trailing : Option (AudioSendState F E) → ℕ
  trailing none = 5
  trailing (some state) = state.trailing_silence_frames

  -- Nothing plays, nothing is pending, and nothing is buffered.
  pub IsStopped : Playback F E → Type 0
  IsStopped p =
      (p.music.pending_url ≡ none)
      × (p.music.active ≡ false)
      × (p.music.finishing ≡ false)
      × (p.music.pending_stop ≡ false)
      × (tts_samples p.audio ≡ 0)
      × (music_samples p.audio ≡ 0)
      × (5 ≤ trailing p.audio)

  -- A state with the same music and the same sound.
  Same : Playback F E → Playback F E → Type 0
  Same p q = (q.music ≡ p.music) × (q.audio ≡ p.audio)

  Same-IsStopped : (p q : Playback F E) → Same p q → IsStopped p → IsStopped q
  unfolding Same IsStopped
  Same-IsStopped p q (m, a) (url, active, finishing, stop, tts, music, silence) = (
    ap (λ (s : Music.MusicState). s.pending_url) m ∙ url,
    ap (λ (s : Music.MusicState). s.active) m ∙ active,
    ap (λ (s : Music.MusicState). s.finishing) m ∙ finishing,
    ap (λ (s : Music.MusicState). s.pending_stop) m ∙ stop,
    ap (λ (o : Option (AudioSendState F E)). tts_samples o) a ∙ tts,
    ap (λ (o : Option (AudioSendState F E)). music_samples o) a ∙ music,
    subst (λ (o : Option (AudioSendState F E)). 5 ≤ trailing o) (sym a) silence,
  )

  tell_idle-Same : (b : Bool) (p : Playback F E) → Same p (tell_idle_if b p)
  unfolding Same
  tell_idle-Same true p = (refl, refl)
  tell_idle-Same false p = (refl, refl)

  tell_buffered-Same : (b : Bool) (p : Playback F E) → Same p (tell_buffered_if b p)
  unfolding Same
  tell_buffered-Same true p = (refl, refl)
  tell_buffered-Same false p = (refl, refl)

  if-Same : (b : Bool) (p q r : Playback F E) → Same p q → Same p r → Same p (if b then q else r)
  if-Same true p q r hq hr = hq
  if-Same false p q r hq hr = hr

  self-Same : (p : Playback F E) → Same p p
  unfolding Same
  self-Same p = (refl, refl)

  report_depth-Same :
      (o : Option (AudioSendState F E)) (p : Playback F E) → Same p (report_depth o p)
  unfolding Same
  report_depth-Same none p =
      if-Same p.buffer_depth_was_nonempty p _ p (tell_idle-Same p.tts_playback_buffered _)
        (self-Same p)
  report_depth-Same (some state) p =
      let tts = length state.pcm_buffer in
      if-Same (ltb 0 tts || ltb 0 (length state.music_buffer)) p _ _
        (tell_buffered-Same (ltb 0 tts && not p.tts_playback_buffered) _)
        (if-Same p.buffer_depth_was_nonempty p _ p (tell_idle-Same p.tts_playback_buffered _)
          (self-Same p))

  tick_buffer_depth_report-Same : (p : Playback F E) → Same p (tick_buffer_depth_report p)
  unfolding tick_buffer_depth_report Same
  tick_buffer_depth_report-Same p =
      if-Same (ltb (p.buffer_depth_tick_counter + 1) 25) p _ _ (refl, refl)
        (report_depth-Same p.audio (record p { buffer_depth_tick_counter = 0 }))

  Silent : Option (AudioSendState F E) → Type 0
  Silent o = (tts_samples o ≡ 0) × (music_samples o ≡ 0) × (5 ≤ trailing o)

  silent : (p : Playback F E) → IsStopped p → Silent p.audio
  unfolding IsStopped Silent
  silent p (url, active, finishing, stop, tts, music, silence) = (tts, music, silence)

  -- Another silent sound, and the same music.
  replaced : (p q : Playback F E) → Silent q.audio → q.music ≡ p.music → IsStopped p → IsStopped q
  unfolding IsStopped Silent
  replaced p q (tts, music, silence) m (url, active, finishing, stop, t, n, l) = (
    ap (λ (s : Music.MusicState). s.pending_url) m ∙ url,
    ap (λ (s : Music.MusicState). s.active) m ∙ active,
    ap (λ (s : Music.MusicState). s.finishing) m ∙ finishing,
    ap (λ (s : Music.MusicState). s.pending_stop) m ∙ stop,
    tts,
    music,
    silence,
  )

  no_prefetch : (p : Playback F E) → IsStopped p → tick_prefetch p ≡ p
  unfolding IsStopped tick_prefetch
  no_prefetch p h = unless p.music.active _ _ p h.1

  no_finish : (p : Playback F E) → IsStopped p → tick_finishing p ≡ p
  unfolding IsStopped tick_finishing
  no_finish p h = unless p.music.finishing _ _ p h.2

  cleared-tts : (o : Option (AudioSendState F E)) → tts_samples (Option.map clear o) ≡ 0
  unfolding clear
  cleared-tts none = refl
  cleared-tts (some state) = refl

  cleared-music : (o : Option (AudioSendState F E)) → music_samples (Option.map clear o) ≡ 0
  unfolding clear
  cleared-music none = refl
  cleared-music (some state) = refl

  cleared-trailing : (o : Option (AudioSendState F E)) → 5 ≤ trailing (Option.map clear o)
  unfolding clear
  cleared-trailing none = omega arith
  cleared-trailing (some state) = omega arith

  stop_playback_now-IsStopped : (p : Playback F E) → IsStopped (stop_playback_now p)
  unfolding stop_playback_now clear_audio_send_buffer drain_music_pcm_queue IsStopped Music.reset
      Music.clear_pending_start Music.stop_player
  stop_playback_now-IsStopped p =
      let q = clear_audio_send_buffer (drain_music_pcm_queue (stopping Music.reset p)) in
      Same-IsStopped q (tell_idle q) (tell_idle-Same q.tts_playback_buffered q) (
        refl,
        refl,
        refl,
        refl,
        cleared-tts p.audio,
        cleared-music p.audio,
        cleared-trailing p.audio,
      )

  pub handle_stop_playback-IsStopped : (p : Playback F E) → IsStopped (handle_stop_playback p)
  unfolding handle_stop_playback emit_playback_armed Same
  handle_stop_playback-IsStopped p =
      Same-IsStopped (stop_playback_now p) _ (refl, refl) (stop_playback_now-IsStopped p)

  no_music : (state : AudioSendState F E) → length state.music_buffer ≡ 0 → has_music state ≡ false
  unfolding has_music
  no_music state h = ground arith

  idle_stopped :
      (state : AudioSendState F E)
      → 5 ≤ state.trailing_silence_frames
      → ((idle (count_partial state)).0 ≡ none)
        × ((idle (count_partial state)).1.pcm_buffer ≡ state.pcm_buffer)
        × ((idle (count_partial state)).1.music_buffer ≡ state.music_buffer)
        × (5 ≤ (idle (count_partial state)).1.trailing_silence_frames)
  unfolding idle count_partial
  idle_stopped state h = ground arith

module _ {F D E : Type 0} (fl : Floats F D) (encode : E → List ℤ → Option (List ℕ) × E) where
  no_start : (now : ℕ) (p : Playback F E) → IsStopped p → tick_pending_music_start fl now p ≡ p
  unfolding IsStopped tick_pending_music_start
  no_start now p h = ap (λ (o : Option String). pending_start fl o now p) h.0

  no_stop : (p : Playback F E) → IsStopped p → tick_pending_stop fl p ≡ p
  unfolding IsStopped tick_pending_stop
  no_stop p h = unless p.music.pending_stop (fade_done fl p.audio) _ p h.3

  maybe_take-Silent :
      (state : AudioSendState F E)
      → Silent (some state)
      → Silent (some (maybe_take_music_gain_reached fl state).1)
  unfolding Silent maybe_take_music_gain_reached
  maybe_take-Silent state h = ground arith

  report_gain-replaced :
      (gain : Option F) (state : AudioSendState F E) (p : Playback F E)
      → Silent (some state)
      → IsStopped p
      → IsStopped (report_gain gain (record p { audio = some state }))
  report_gain-replaced none state p quiet h = replaced p _ quiet refl h
  report_gain-replaced (some gain) state p quiet h = replaced p _ quiet refl h

  take_gain-IsStopped :
      (o : Option (AudioSendState F E)) (p : Playback F E)
      → Silent o
      → IsStopped p
      → IsStopped (take_gain fl o p)
  take_gain-IsStopped none p quiet h = h
  take_gain-IsStopped (some state) p quiet h =
      report_gain-replaced (maybe_take_music_gain_reached fl state).0
        (maybe_take_music_gain_reached fl state).1 p (maybe_take-Silent state quiet) h

  play_frame-IsStopped :
      (o : Option (AudioSendState F E)) (p : Playback F E)
      → Silent o
      → IsStopped p
      → ((play_frame fl encode o p).0 ≡ none) × IsStopped (play_frame fl encode o p).1
  unfolding Silent
  play_frame-IsStopped none p quiet h = (refl, h)
  play_frame-IsStopped (some state) p (tts, music, silence) h =
      let (frame, pcm, rest, silence') = idle_stopped state silence in
      let e = next_opus_frame-idle fl encode state tts (no_music state music) in
      let state' = (next_opus_frame fl encode state).1 in
      let quiet : Silent (some state') =
        subst (λ (r : Option (List ℕ) × AudioSendState F E). Silent (some r.1)) (sym e)
          (
            ap (λ (l : List ℤ). length l) pcm ∙ tts,
            ap (λ (l : List ℤ). length l) rest ∙ music,
            silence',
          ) in
      let q = record p { audio = some state' } in
      (
        ap (λ (r : Option (List ℕ) × AudioSendState F E). r.0) e ∙ frame,
        Same-IsStopped q _ (tell_idle-Same _ q) (replaced p q quiet refl h),
      )

  on_audio_tick-IsStopped :
      (now : ℕ) (p : Playback F E)
      → IsStopped p
      → ((on_audio_tick fl encode now p).0 ≡ none) × IsStopped (on_audio_tick fl encode now p).1
  unfolding on_audio_tick tick_gain tick_frame
  on_audio_tick-IsStopped now p h =
      let p1 = tick_gain fl p in
      let p2 = tick_buffer_depth_report p1 in
      let h1 = take_gain-IsStopped p.audio p (silent p h) h in
      let h2 = Same-IsStopped p1 p2 (tick_buffer_depth_report-Same p1) h1 in
      rw (no_start now p h, no_prefetch p h, no_finish p h, no_stop p1 h1)
        (play_frame-IsStopped p2.audio p2 (silent p2 h2) h2)

  -- The frames of successive audio ticks.
  pub frames : Playback F E → List ℕ → List (Option (List ℕ))
  frames p [] = []
  frames p (now ∷ times) =
      let (frame, p') = on_audio_tick fl encode now p in frame ∷ frames p' times

  frames-IsStopped :
      (times : List ℕ) (p : Playback F E)
      → IsStopped p
      → All (λ frame. frame ≡ none) (frames p times)
  unfolding frames
  frames-IsStopped [] p h = tt
  frames-IsStopped (now ∷ times) p h =
      let (none_sent, h') = on_audio_tick-IsStopped now p h in
      (none_sent, frames-IsStopped times (on_audio_tick fl encode now p).1 h')

  -- After `StopPlayback`, whatever played before, the audio ticks send no frame, neither sound nor
  -- trailing silence, until another command or event comes.
  pub frames_after_stop :
      (p : Playback F E) (times : List ℕ)
      → All (λ frame. frame ≡ none) (frames (handle_stop_playback p) times)
  frames_after_stop p times =
      frames-IsStopped times (handle_stop_playback p) (handle_stop_playback-IsStopped p)
