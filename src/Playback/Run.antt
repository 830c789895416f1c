-- ===== src/Playback/Run.antt =====
-- src/playback_supervisor.rs: every command, event and tick, against the messages about speech.
use clankvox.Base.{ℕ, refl, ◌&&◌, Option, none, some, List, [], ◌∷◌, is_none}
use clankvox.Base.Int.{ℤ}
use clankvox.Audio.State.{AudioSendState, tts_just_drained}
use clankvox.Audio.Frame.{next_opus_frame}
use clankvox.Playback.State.{Playback}
use clankvox.Playback.Command.{
  Machine, PlaybackCommand, MusicEvent, handle_playback_command, handle_music_event,
}
use clankvox.Playback.Tick.{
  tick_pending_music_start, tick_prefetch, tick_finishing, tick_gain, tick_pending_stop,
  tick_buffer_depth_report, tick_frame, play_frame, on_audio_tick,
}
use clankvox.Playback.Told.{
  Agrees, Speaks, Speaks-Agrees, Speaks-trans, keeps, tell_idle_if-Speaks, and_right,
}
use clankvox.Playback.Speaks.{self-Speaks}
use clankvox.Playback.CommandSpeaks.{handle_playback_command-Speaks, handle_music_event-Speaks}
use clankvox.Playback.TickSpeaks.{
  tick_prefetch-Speaks, tick_finishing-Speaks, tick_buffer_depth_report-Speaks,
  pending_start-Speaks, tick_pending_stop-Speaks, take_gain-Speaks,
}

-- What happens to the player of speech and music.
pub data Event (F : Type 0) : Type 0 where
  command : ℕ → PlaybackCommand F → Event F
  event : ℕ → MusicEvent → Event F
  audio_tick : ℕ → Event F

module _ {F D E : Type 0} (machine : Machine F D) (encode : E → List ℤ → Option (List ℕ) × E) where
  play_frame-Speaks :
      (o : Option (AudioSendState F E)) (p : Playback F E)
      → Speaks p (play_frame machine.floats encode o p).1
  play_frame-Speaks none p = self-Speaks p
  play_frame-Speaks (some state) p =
      let (frame, state') = next_opus_frame machine.floats encode state in
      let q = record p { audio = some state' } in
      Speaks-trans p q _ (keeps p q refl refl) (
        tell_idle_if-Speaks (is_none frame && tts_just_drained state' && p.tts_playback_buffered) q
          (and_right (is_none frame && tts_just_drained state') p.tts_playback_buffered))

  on_audio_tick-Speaks :
      (now : ℕ) (p : Playback F E) → Speaks p (on_audio_tick machine.floats encode now p).1
  unfolding on_audio_tick tick_pending_music_start tick_gain tick_frame
  on_audio_tick-Speaks now p =
      let fl = machine.floats in
      let p1 = tick_pending_music_start fl now p in
      let p2 = tick_prefetch p1 in
      let p3 = tick_finishing p2 in
      let p4 = tick_gain fl p3 in
      let p5 = tick_pending_stop fl p4 in
      let p6 = tick_buffer_depth_report p5 in
      let p7 = (tick_frame fl encode p6).1 in
      Speaks-trans p p1 p7
        (pending_start-Speaks fl p.music.pending_url p.music.pending_received_at now p refl)
        (Speaks-trans p1 p2 p7 (tick_prefetch-Speaks p1) (
          Speaks-trans p2 p3 p7 (tick_finishing-Speaks p2) (
            Speaks-trans p3 p4 p7 (take_gain-Speaks fl p3.audio p3) (
              Speaks-trans p4 p5 p7 (tick_pending_stop-Speaks fl p4) (
                Speaks-trans p5 p6 p7 (tick_buffer_depth_report-Speaks p5)
                  (play_frame-Speaks p6.audio p6))))))

  unfoldable pub step : Playback F E → Event F → Playback F E
  step p (command now c) = (handle_playback_command machine now c p).1
  step p (event now e) = handle_music_event now e p
  step p (audio_tick now) = (on_audio_tick machine.floats encode now p).1

  unfoldable pub run : Playback F E → List (Event F) → Playback F E
  unfolding step
  run p [] = p
  run p (e ∷ events) = run (step p e) events

  step-Speaks : (p : Playback F E) (e : Event F) → Speaks p (step p e)
  unfolding step
  step-Speaks p (command now c) = handle_playback_command-Speaks machine now c p
  step-Speaks p (event now e) = handle_music_event-Speaks now e p
  step-Speaks p (audio_tick now) = on_audio_tick-Speaks now p

  -- Over any sequence of commands, events of the player and audio ticks, what the process has told of
  -- its speech is what its flag says: the messages "buffered" and "idle" alternate, the last of them
  -- agrees with `tts_playback_buffered`, and no handler changes the flag without telling.
  pub run-Agrees : (p : Playback F E) (events : List (Event F)) → Agrees p → Agrees (run p events)
  unfolding run
  run-Agrees p [] h = h
  run-Agrees p (e ∷ events) h =
      run-Agrees (step p e) events (Speaks-Agrees p (step p e) (step-Speaks p e) h)
