-- ===== src/Playback/Speaks.antt =====
-- src/playback_supervisor.rs: the commands that start and stop playback, against the messages about
-- speech.
use Prim.Native.String.{String}
use clankvox.Base.{
  ℕ, ◌≡◌, refl, Bool, true, false, not, ◌&&◌, Option, none, some, List, [], ◌++◌, ◌∷◌,
  if◌then◌else◌, is_some, ltb, length,
}
use clankvox.Base.Int.{ℤ}
use clankvox.Music
use clankvox.Audio.State.{AudioSendState, push_pcm}
use clankvox.Playback.Trim.{trim, is_empty_text}
use clankvox.Playback.State.{
  Playback, Effect, player_state, music_idle, music_error, emit, stopping, emit_playback_armed,
  drain_music_pcm_queue, clear_audio_send_buffer, clear_tts_send_buffer, clear_music_send_buffer,
  start_music_pipeline,
}
use clankvox.Playback.Command.{
  note_announcement, enqueue, stop_playback_now, handle_stop_playback, handle_stop_tts_playback,
  handle_music_play, finish_stop,
}
use clankvox.Playback.Told.{
  Speaks, Speaks-trans, keeps, emits, stopping-Speaks, armed-Speaks, tell_idle-Speaks,
  tell_buffered_if-Speaks, track, and-not,
}

module _ {F E : Type 0} where
  -- A choice between two states that both speak truly.
  pub if-Speaks :
      (b : Bool) (p q r : Playback F E) → Speaks p q → Speaks p r → Speaks p (if b then q else r)
  if-Speaks true p q r hq hr = hq
  if-Speaks false p q r hq hr = hr

  pub self-Speaks : (p : Playback F E) → Speaks p p
  self-Speaks p = keeps p p refl refl

  -- A message that does not speak of the flag, and a change of what is not spoken of, at the end.
  pub then_emit :
      (p q r : Playback F E) (es : List (Effect F))
      → Speaks p q
      → r.out ≡ q.out ++ es
      → r.tts_playback_buffered ≡ q.tts_playback_buffered
      → ((b : Bool) → track es b ≡ some b)
      → Speaks p r
  then_emit p q r es h out flag t =
      Speaks-trans p q r h (emits q r es out flag (t q.tts_playback_buffered))

  pub note_announcement-Speaks : (now : ℕ) (p : Playback F E) → Speaks p (note_announcement now p)
  unfolding note_announcement
  note_announcement-Speaks now p =
      if-Speaks (is_some p.music.pending_url) p _ p (keeps p _ refl refl) (self-Speaks p)

  pub enqueue-Speaks :
      (samples : List ℤ) (audio : Option (AudioSendState F E)) (p : Playback F E)
      → Speaks p (enqueue samples audio p)
  unfolding enqueue
  enqueue-Speaks samples none p = self-Speaks p
  enqueue-Speaks samples (some state) p =
      let q = record p { audio = some (push_pcm state samples) } in
      let some_speech = ltb 0 (length (push_pcm state samples).pcm_buffer) in
      Speaks-trans p q _ (keeps p q refl refl) (
        tell_buffered_if-Speaks (some_speech && not p.tts_playback_buffered) q
          (and-not some_speech p.tts_playback_buffered))

  pub start_music_pipeline-Speaks :
      (url : String) (direct clear_buffers : Bool) (p : Playback F E)
      → Speaks p (start_music_pipeline url direct clear_buffers p)
  unfolding start_music_pipeline drain_music_pcm_queue clear_audio_send_buffer
  start_music_pipeline-Speaks url direct true p =
      then_emit p (stopping Music.stop_player p) _ _ (stopping-Speaks Music.stop_player p) refl refl
        (λ b. unfold track in refl)
  start_music_pipeline-Speaks url direct false p =
      then_emit p (stopping Music.stop_player p) _ _ (stopping-Speaks Music.stop_player p) refl refl
        (λ b. unfold track in refl)

  stop_playback_now-Speaks : (p : Playback F E) → Speaks p (stop_playback_now p)
  unfolding stop_playback_now drain_music_pcm_queue clear_audio_send_buffer
  stop_playback_now-Speaks p =
      let q = stopping Music.reset p in
      let r = clear_audio_send_buffer (drain_music_pcm_queue q) in
      Speaks-trans p q _ (stopping-Speaks Music.reset p)
        (Speaks-trans q r _ (keeps q r refl refl) (tell_idle-Speaks r))

  -- Messages, and then the notice that playback is armed.
  pub armed_after :
      (p q : Playback F E) (reason : String) (es : List (Effect F))
      → Speaks p q
      → ((b : Bool) → track es b ≡ some b)
      → Speaks p (emit_playback_armed reason (emit es q))
  armed_after p q reason es h t =
      Speaks-trans p (emit es q) _ (then_emit p q (emit es q) es h refl refl t)
        (armed-Speaks reason (emit es q))

  pub handle_stop_playback-Speaks : (p : Playback F E) → Speaks p (handle_stop_playback p)
  unfolding handle_stop_playback
  handle_stop_playback-Speaks p =
      armed_after p (stop_playback_now p) "stop_playback" (player_state "idle" ∷ [])
        (stop_playback_now-Speaks p) (λ b. unfold track in refl)

  pub finish_stop-Speaks : (p : Playback F E) → Speaks p (finish_stop p)
  unfolding finish_stop
  finish_stop-Speaks p =
      armed_after p (stop_playback_now p) "music_stop" (player_state "idle" ∷ music_idle ∷ [])
        (stop_playback_now-Speaks p) (λ b. unfold track in refl)

  pub handle_stop_tts_playback-Speaks : (p : Playback F E) → Speaks p (handle_stop_tts_playback p)
  unfolding handle_stop_tts_playback clear_tts_send_buffer
  handle_stop_tts_playback-Speaks p =
      let q = clear_tts_send_buffer p in
      Speaks-trans p q _ (keeps p q refl refl) (tell_idle-Speaks q)

  pub handle_music_play-Speaks :
      (now : ℕ) (url : String) (direct : Bool) (p : Playback F E)
      → Speaks p (handle_music_play now url direct p)
  unfolding handle_music_play clear_music_send_buffer
  handle_music_play-Speaks now url direct p =
      let method =
        λ (music : Music.MusicState). Music.queue_pending_start music now (trim url) direct in
      let q = clear_music_send_buffer p in
      let r = stopping method q in
      if-Speaks (is_empty_text (trim url)) p _ _
        (then_emit p p _ (music_error "music_play missing url" ∷ []) (self-Speaks p) refl refl
          (λ b. unfold track in refl))
        (Speaks-trans p q _ (keeps p q refl refl) (
          Speaks-trans q r _ (stopping-Speaks method q)
            (start_music_pipeline-Speaks (trim url) direct false r)))
