-- ===== src/Playback/CommandSpeaks.antt =====
-- src/playback_supervisor.rs: the other commands and the events, against the messages about speech.
use Prim.Native.String.{String}
use clankvox.Base.{
  ℕ, refl, Bool, true, false, not, ◌&&◌, ◌||◌, Option, none, some, List, [], ◌∷◌, if◌then◌else◌,
  is_some, is_empty,
}
use clankvox.Music
use clankvox.Audio.State.{AudioSendState, set_music_gain, resume_music_output}
use clankvox.Audio.Convert.{convert_llm_to_48k_mono}
use clankvox.Playback.State.{
  Playback, MusicPlayer, player_state, music_idle, music_error, on_audio, with_music, stopping,
  drain_music_pcm_queue, pause, resume,
}
use clankvox.Playback.Command.{
  Machine, PlaybackCommand, MusicEvent, audio, stop_playback, stop_tts_playback, music_play,
  music_stop, music_pause, music_resume, music_set_gain, destroy, player_idle, player_error,
  first_pcm, note_announcement, is_ducked, enqueue_decoded, handle_audio, handle_music_stop,
  handle_music_pause, handle_music_resume, handle_music_set_gain, set_gain, handle_destroy,
  handle_playback_command, handle_player_idle, handle_music_event, alive_player, signal_player,
  playing, restart_from, buffered_music, finish_stop,
}
use clankvox.Playback.Told.{Speaks, Speaks-trans, keeps, stopping-Speaks, report_gain-Speaks, track}
use clankvox.Playback.Speaks.{
  if-Speaks, self-Speaks, then_emit, armed_after, note_announcement-Speaks, enqueue-Speaks,
  start_music_pipeline-Speaks, handle_stop_playback-Speaks, finish_stop-Speaks,
  handle_stop_tts_playback-Speaks, handle_music_play-Speaks,
}

module _ {F E : Type 0} where
  signal_player-Speaks :
      (signal : MusicPlayer → Bool × MusicPlayer) (o : Option ℕ) (p : Playback F E)
      → Speaks p (signal_player signal o p).1
  unfolding signal_player
  signal_player-Speaks signal none p = self-Speaks p
  signal_player-Speaks signal (some handle) p = keeps p _ refl refl

  handle_music_pause-Speaks :
      (suspend : ℕ → Bool) (p : Playback F E) → Speaks p (handle_music_pause suspend p)
  unfolding handle_music_pause
  handle_music_pause-Speaks suspend p =
      let p1 =
        with_music (λ music. record (Music.clear_pending_start music) { pending_stop = false }) p in
      let signalled = (signal_player (pause suspend) p1.music.player p1).1 in
      let p2 = if alive_player p1 then signalled else p1 in
      let to1 = keeps p p1 refl refl in
      let to2 =
        if-Speaks (alive_player p1) p signalled p1
          (Speaks-trans p p1 signalled to1
            (signal_player-Speaks (pause suspend) p1.music.player p1))
          to1 in
      if-Speaks (alive_player p1 || p1.music.active || p1.music.finishing) p _ p1
        (armed_after p _ "music_pause" (player_state "paused" ∷ [])
          (Speaks-trans p p2 _ to2 (keeps p2 _ refl refl)) (λ b. unfold track in refl))
        to1

  playing-Speaks :
      (finishing : Bool) (p q : Playback F E) → Speaks p q → Speaks p (playing finishing q)
  playing-Speaks finishing p q h =
      then_emit p q _ (player_state "playing" ∷ []) h refl refl (λ b. unfold track in refl)

  restart_from-Speaks : (o : Option String) (p : Playback F E) → Speaks p (restart_from o p)
  unfolding restart_from
  restart_from-Speaks none p = self-Speaks p
  restart_from-Speaks (some url) p =
      let q = stopping Music.stop_player p in
      playing-Speaks false p _ (
        Speaks-trans p q _ (stopping-Speaks Music.stop_player p)
          (start_music_pipeline-Speaks url p.music.active_resolved_direct_url true q))

  resumed-Speaks :
      (continue : ℕ → Bool) (b : Bool) (p : Playback F E)
      → Speaks p (if b then signal_player (resume continue) p.music.player p else (false, p)).1
  resumed-Speaks continue true p = signal_player-Speaks (resume continue) p.music.player p
  resumed-Speaks continue false p = self-Speaks p

  handle_music_resume-Speaks :
      (continue : ℕ → Bool) (p : Playback F E) → Speaks p (handle_music_resume continue p)
  unfolding handle_music_resume
  handle_music_resume-Speaks continue p =
      let p1 =
        with_music
          (λ music. record (Music.clear_pending_start music) {
            pending_stop = false;
            finishing = false;
          })
          p in
      let resumed =
        if alive_player p1
        then signal_player (resume continue) p1.music.player p1
        else (false, p1) in
      let to_q =
        Speaks-trans p p1 resumed.1 (keeps p p1 refl refl)
          (resumed-Speaks continue (alive_player p1) p1) in
      let r = on_audio resume_music_output resumed.1 in
      let to_r = Speaks-trans p resumed.1 r to_q (keeps resumed.1 r refl refl) in
      if-Speaks resumed.0 p _ _ (playing-Speaks false p r to_r) (
        if-Speaks (not (alive_player p1) && buffered_music resumed.1) p _ _
          (playing-Speaks true p r to_r)
          (Speaks-trans p resumed.1 _ to_q (restart_from-Speaks p1.music.active_url resumed.1)))

  handle_destroy-Speaks : (p : Playback F E) → Speaks p (handle_destroy p)
  unfolding handle_destroy
  handle_destroy-Speaks p =
      let q = stopping Music.stop_player p in
      Speaks-trans p q _ (stopping-Speaks Music.stop_player p) (keeps q _ refl refl)

  handle_player_idle-Speaks : (p : Playback F E) → Speaks p (handle_player_idle p)
  unfolding handle_player_idle
  handle_player_idle-Speaks p =
      let q = stopping Music.stop_player p in
      let p1 =
        with_music
          (λ music.
            Music.clear_pending_start
              (record music { paused = false; finishing = music.active; pending_stop = false }))
          q in
      let to1 = Speaks-trans p q p1 (stopping-Speaks Music.stop_player p) (keeps q p1 refl refl) in
      if-Speaks p1.music.finishing p p1 _ to1 (
        armed_after p _ "music_idle" (player_state "idle" ∷ music_idle ∷ [])
          (Speaks-trans p p1 _ to1 (keeps p1 _ refl refl)) (λ b. unfold track in refl))

  pub handle_music_event-Speaks :
      (now : ℕ) (event : MusicEvent) (p : Playback F E) → Speaks p (handle_music_event now event p)
  unfolding handle_music_event drain_music_pcm_queue
  handle_music_event-Speaks now player_idle p = handle_player_idle-Speaks p
  handle_music_event-Speaks now (player_error message) p =
      let q = stopping Music.reset p in
      armed_after p (drain_music_pcm_queue q) "music_error"
        (music_error message ∷ player_state "idle" ∷ [])
        (Speaks-trans p q _ (stopping-Speaks Music.reset p) (keeps q _ refl refl))
        (λ b. unfold track in refl)
  handle_music_event-Speaks now (first_pcm startup_ms direct) p = keeps p _ refl refl

module _ {F D E : Type 0} (machine : Machine F D) where
  enqueue_decoded-Speaks :
      (raw : Option (List ℕ)) (rate : ℕ) (p : Playback F E)
      → Speaks p (enqueue_decoded machine raw rate p)
  enqueue_decoded-Speaks none rate p = self-Speaks p
  enqueue_decoded-Speaks (some raw) rate p =
      let samples = convert_llm_to_48k_mono machine.floats raw rate in
      if-Speaks (is_empty samples) p p _ (self-Speaks p) (enqueue-Speaks samples p.audio p)

  handle_audio-Speaks :
      (now : ℕ) (pcm : String) (rate : ℕ) (p : Playback F E)
      → Speaks p (handle_audio machine now pcm rate p)
  unfolding handle_audio
  handle_audio-Speaks now pcm rate p =
      let p1 = note_announcement now p in
      let to1 = note_announcement-Speaks now p in
      if-Speaks (p1.music.active && not p1.music.paused && not (is_ducked machine p1.audio)) p p1 _
        to1 (Speaks-trans p p1 _ to1 (enqueue_decoded-Speaks (machine.decode_base64 pcm) rate p1))

  handle_music_stop-Speaks : (p : Playback F E) → Speaks p (handle_music_stop machine p)
  unfolding handle_music_stop
  handle_music_stop-Speaks p =
      if-Speaks (is_some p.music.player && p.music.active) p _ (finish_stop p) (keeps p _ refl refl)
        (finish_stop-Speaks p)

  set_gain-Speaks :
      (target : F) (fade : ℕ) (o : Option (AudioSendState F E)) (p : Playback F E)
      → Speaks p (set_gain machine target fade o p)
  set_gain-Speaks target fade none p = self-Speaks p
  set_gain-Speaks target fade (some state) p =
      let (reached, state') = set_music_gain machine.floats state target fade in
      let q = record p { audio = some state' } in
      Speaks-trans p q _ (keeps p q refl refl) (report_gain-Speaks reached q)

  pub handle_playback_command-Speaks :
      (now : ℕ) (command : PlaybackCommand F) (p : Playback F E)
      → Speaks p (handle_playback_command machine now command p).1
  unfolding handle_playback_command handle_music_set_gain
  handle_playback_command-Speaks now (audio pcm rate) p = handle_audio-Speaks now pcm rate p
  handle_playback_command-Speaks now stop_playback p = handle_stop_playback-Speaks p
  handle_playback_command-Speaks now stop_tts_playback p = handle_stop_tts_playback-Speaks p
  handle_playback_command-Speaks now (music_play url direct) p =
      handle_music_play-Speaks now url direct p
  handle_playback_command-Speaks now music_stop p = handle_music_stop-Speaks p
  handle_playback_command-Speaks now music_pause p = handle_music_pause-Speaks machine.suspend p
  handle_playback_command-Speaks now music_resume p = handle_music_resume-Speaks machine.continue p
  handle_playback_command-Speaks now (music_set_gain target fade) p =
      set_gain-Speaks (machine.floats.clamp_unit target) fade p.audio p
  handle_playback_command-Speaks now destroy p = handle_destroy-Speaks p
