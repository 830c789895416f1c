-- ===== src/Playback/Command.antt =====
-- src/playback_supervisor.rs: `handle_playback_command` and `handle_music_event`. The decoder of
-- base64, the operating system's signals and the clock are parameters.
use Prim.Native.String.{String}
use clankvox.Base.{
  ℕ, Bool, true, false, not, ◌&&◌, ◌||◌, ◌==◌, Option, none, some, List, [], ◌∷◌, ltb, is_empty,
  is_some, length, if◌then◌else◌,
}
use clankvox.Base.Int.{ℤ}
use clankvox.Music
use clankvox.Publish
use clankvox.Session.State
use clankvox.Session.State.{AppState}
use clankvox.Session.Clear
use clankvox.Session.Clear.{clear_voice_connection, clear_stream_publish_connection}
use clankvox.Audio.Floats.{Floats}
use clankvox.Audio.State.{
  AudioSendState, push_pcm, set_music_gain, is_music_ducked, suppress_music_output,
  resume_music_output,
}
use clankvox.Audio.Convert.{convert_llm_to_48k_mono}
use clankvox.Playback.Trim.{trim, is_empty_text}
use clankvox.Playback.State.{
  Playback, MusicPlayer, is_alive, pause, resume, emit, on_audio, with_music, stopping,
  drain_music_pcm_queue, clear_audio_send_buffer, clear_tts_send_buffer, clear_music_send_buffer,
  emit_playback_armed, has_buffered_music_output, tell_idle, tell_buffered_if, start_music_pipeline,
  report_gain, player_state, music_idle, music_error,
}

pub data PlaybackCommand (F : Type 0) : Type 0 where
  audio : String → ℕ → PlaybackCommand F
  stop_playback : PlaybackCommand F
  stop_tts_playback : PlaybackCommand F
  music_play : String → Bool → PlaybackCommand F
  music_stop : PlaybackCommand F
  music_pause : PlaybackCommand F
  music_resume : PlaybackCommand F
  music_set_gain : F → ℕ → PlaybackCommand F
  destroy : PlaybackCommand F

pub data MusicEvent : Type 0 where
  player_idle : MusicEvent
  player_error : String → MusicEvent
  first_pcm : ℕ → Bool → MusicEvent

-- What the machine around the handlers supplies.
pub record Machine (F D : Type 0) : Type 0 where
  pub floats : Floats F D
  pub decode_base64 : String → Option (List ℕ)
  pub suspend : ℕ → Bool
  pub continue : ℕ → Bool

module _ {F E : Type 0} where
  -- A new piece of announcement audio while a start is pending.
  unfoldable pub note_announcement : ℕ → Playback F E → Playback F E
  note_announcement now p =
      if is_some p.music.pending_url
      then with_music
          (λ music. record music { pending_audio_seen = true; pending_last_audio_at = some now }) p
      else p

  -- `push_pcm` into the audio state, if there is one, and the notice that speech is buffered.
  unfoldable pub enqueue : List ℤ → Option (AudioSendState F E) → Playback F E → Playback F E
  unfolding push_pcm
  enqueue samples none p = p
  enqueue samples (some state) p =
      let pushed = push_pcm state samples in
      tell_buffered_if (ltb 0 (length pushed.pcm_buffer) && not p.tts_playback_buffered)
        (record p { audio = some pushed })

  unfoldable pub stop_playback_now : Playback F E → Playback F E
  unfolding Music.reset drain_music_pcm_queue clear_audio_send_buffer
  stop_playback_now p =
      tell_idle (clear_audio_send_buffer (drain_music_pcm_queue (stopping Music.reset p)))

  unfoldable pub handle_stop_playback : Playback F E → Playback F E
  unfolding stop_playback_now emit_playback_armed
  handle_stop_playback p =
      emit_playback_armed "stop_playback" (emit (player_state "idle" ∷ []) (stop_playback_now p))

  unfoldable pub handle_stop_tts_playback : Playback F E → Playback F E
  unfolding clear_tts_send_buffer
  handle_stop_tts_playback p = tell_idle (clear_tts_send_buffer p)

  unfoldable pub handle_music_play : ℕ → String → Bool → Playback F E → Playback F E
  unfolding Music.queue_pending_start clear_music_send_buffer start_music_pipeline
  handle_music_play now url resolved_direct_url p =
      let normalized_url = trim url in
      if is_empty_text normalized_url
      then emit (music_error "music_play missing url" ∷ []) p
      else start_music_pipeline normalized_url resolved_direct_url false (
          stopping (λ music. Music.queue_pending_start music now normalized_url resolved_direct_url)
            (clear_music_send_buffer p))

  -- The end of music, shared by `MusicStop` and `tick_pending_stop`.
  unfoldable pub finish_stop : Playback F E → Playback F E
  unfolding stop_playback_now emit_playback_armed
  finish_stop p =
      emit_playback_armed "music_stop"
        (emit (player_state "idle" ∷ music_idle ∷ []) (stop_playback_now p))

  unfoldable pub alive_player : Playback F E → Bool
  unfolding is_alive
  alive_player p = elim p.music.player [ none ↦ false | some handle ↦ is_alive (p.players handle) ]

  -- A signal to the player of the slot; without one, nothing.
  unfoldable pub signal_player :
      (MusicPlayer → Bool × MusicPlayer) → Option ℕ → Playback F E → Bool × Playback F E
  signal_player signal none p = (false, p)
  signal_player signal (some handle) p =
      let (done, player) = signal (p.players handle) in
      (done, record p { players = λ other. if other == handle then player else p.players other })

  abbrev pub buffered_music : Playback F E → Bool
  buffered_music p = not (is_empty p.music_pcm) || has_buffered_music_output p

  unfoldable pub handle_music_pause : (ℕ → Bool) → Playback F E → Playback F E
  unfolding Music.clear_pending_start alive_player signal_player pause has_buffered_music_output
      suppress_music_output emit_playback_armed
  handle_music_pause suspend p =
      let p1 =
        with_music (λ music. record (Music.clear_pending_start music) { pending_stop = false }) p in
      let was_finishing = p1.music.finishing in
      let player_alive = alive_player p1 in
      if player_alive || p1.music.active || was_finishing
      then (let p2 =
            if player_alive then (signal_player (pause suspend) p1.music.player p1).1 else p1 in
          emit_playback_armed "music_pause" (
            emit (player_state "paused" ∷ []) (
              on_audio suppress_music_output (
                with_music
                  (λ music. record music {
                    paused = true;
                    active = false;
                    finishing = was_finishing || (not player_alive && buffered_music p1);
                  })
                  p2))))
      else p1

  abbrev pub playing : Bool → Playback F E → Playback F E
  playing finishing p = emit (player_state "playing" ∷ []) (
      with_music (λ music. record music { paused = false; active = true; finishing = finishing }) p)

  -- The last two branches of `MusicResume`: restart from the URL, or nothing.
  unfoldable pub restart_from : Option String → Playback F E → Playback F E
  unfolding Music.stop_player start_music_pipeline
  restart_from none p = p
  restart_from (some url) p = playing false (
      start_music_pipeline url p.music.active_resolved_direct_url true
        (stopping Music.stop_player p))

  unfoldable pub handle_music_resume : (ℕ → Bool) → Playback F E → Playback F E
  unfolding Music.clear_pending_start alive_player signal_player resume has_buffered_music_output
      resume_music_output restart_from
  handle_music_resume continue p =
      let p1 =
        with_music
          (λ music. record (Music.clear_pending_start music) {
            pending_stop = false;
            finishing = false;
          })
          p in
      let player_alive = alive_player p1 in
      let resumed =
        if player_alive then signal_player (resume continue) p1.music.player p1 else (false, p1) in
      if resumed.0
      then playing false (on_audio resume_music_output resumed.1)
      else if not player_alive && buffered_music resumed.1
      then playing true (on_audio resume_music_output resumed.1)
      else restart_from p1.music.active_url resumed.1

  -- `Destroy` for the players; it leaves the process.
  unfoldable pub handle_destroy : Playback F E → Playback F E
  unfolding Music.stop_player
  handle_destroy p = record (stopping Music.stop_player p) { audio = none }

-- `Destroy` for the connections and the publisher.
unfoldable pub destroy_session : AppState → AppState
unfolding Publish.reset clear_voice_connection clear_stream_publish_connection
destroy_session s =
    let (stopped, publish) = Publish.reset s.stream_publish in
    clear_stream_publish_connection (
      clear_voice_connection (
        Clear.emit (record s { stream_publish = publish })
          (Clear.stops State.stop_publish_player stopped)))

module _ {F D E : Type 0} (machine : Machine F D) where
  unfoldable pub is_ducked : Option (AudioSendState F E) → Bool
  unfolding is_music_ducked
  is_ducked none = false
  is_ducked (some state) = is_music_ducked machine.floats state

  abbrev pub enqueue_decoded : Option (List ℕ) → ℕ → Playback F E → Playback F E
  enqueue_decoded none sample_rate p = p
  enqueue_decoded (some raw) sample_rate p =
      let samples = convert_llm_to_48k_mono machine.floats raw sample_rate in
      if is_empty samples then p else enqueue samples p.audio p

  unfoldable pub handle_audio : ℕ → String → ℕ → Playback F E → Playback F E
  unfolding note_announcement is_ducked enqueue
  handle_audio now pcm_base64 sample_rate p =
      let p1 = note_announcement now p in
      if p1.music.active && not p1.music.paused && not (is_ducked p1.audio)
      then p1
      else enqueue_decoded (machine.decode_base64 pcm_base64) sample_rate p1

  unfoldable pub handle_music_stop : Playback F E → Playback F E
  unfolding finish_stop set_music_gain
  handle_music_stop p =
      if is_some p.music.player && p.music.active
      then with_music (λ music. record music { pending_stop = true })
          (on_audio
            (λ state. (set_music_gain machine.floats state (machine.floats.lit32 0 0) 300).1) p)
      else finish_stop p

  abbrev pub set_gain : F → ℕ → Option (AudioSendState F E) → Playback F E → Playback F E
  set_gain target fade_ms none p = p
  set_gain target fade_ms (some state) p =
      let (reached, state') = set_music_gain machine.floats state target fade_ms in
      report_gain reached (record p { audio = some state' })

  unfoldable pub handle_music_set_gain : F → ℕ → Playback F E → Playback F E
  unfolding set_music_gain
  handle_music_set_gain target fade_ms p =
      set_gain (machine.floats.clamp_unit target) fade_ms p.audio p

  -- Whether the process ends, and the state.
  unfoldable pub handle_playback_command :
      ℕ → PlaybackCommand F → Playback F E → Bool × Playback F E
  unfolding handle_audio handle_stop_playback handle_stop_tts_playback handle_music_play
      handle_music_stop handle_music_pause handle_music_resume handle_music_set_gain handle_destroy
  handle_playback_command now (audio pcm rate) p = (false, handle_audio now pcm rate p)
  handle_playback_command now stop_playback p = (false, handle_stop_playback p)
  handle_playback_command now stop_tts_playback p = (false, handle_stop_tts_playback p)
  handle_playback_command now (music_play url direct) p =
      (false, handle_music_play now url direct p)
  handle_playback_command now music_stop p = (false, handle_music_stop p)
  handle_playback_command now music_pause p = (false, handle_music_pause machine.suspend p)
  handle_playback_command now music_resume p = (false, handle_music_resume machine.continue p)
  handle_playback_command now (music_set_gain target fade) p =
      (false, handle_music_set_gain target fade p)
  handle_playback_command now destroy p = (true, handle_destroy p)

module _ {F E : Type 0} where
  -- `MusicEvent::Idle`: with music still active, its buffered rest is played first.
  unfoldable pub handle_player_idle : Playback F E → Playback F E
  unfolding Music.stop_player Music.clear_pending_start emit_playback_armed
  handle_player_idle p =
      let p1 =
        with_music
          (λ music.
            Music.clear_pending_start
              (record music { paused = false; finishing = music.active; pending_stop = false }))
          (stopping Music.stop_player p) in
      if p1.music.finishing
      then p1
      else emit_playback_armed "music_idle" (
          emit (player_state "idle" ∷ music_idle ∷ []) (
            with_music
              (λ music. record music { active_url = none; active_resolved_direct_url = false }) p1))

  unfoldable pub handle_music_event : ℕ → MusicEvent → Playback F E → Playback F E
  unfolding handle_player_idle Music.reset drain_music_pcm_queue emit_playback_armed
  handle_music_event now player_idle p = handle_player_idle p
  handle_music_event now (player_error message) p = emit_playback_armed "music_error" (
      emit (music_error message ∷ player_state "idle" ∷ [])
        (drain_music_pcm_queue (stopping Music.reset p)))
  handle_music_event now (first_pcm startup_ms resolved_direct_url) p =
      with_music (λ music. record music { pending_first_pcm_at = some now }) p
