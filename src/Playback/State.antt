-- ===== src/Playback/State.antt =====
-- src/playback_supervisor.rs, src/music.rs, src/audio_pipeline.rs: the part of `AppState` that plays
-- speech and music, and the helpers that the commands and the ticks share.
use Prim.Native.String.{String}
use mathlib.Core.Option
use clankvox.Base.{
  ℕ, ◌+◌, Bool, true, false, not, ◌&&◌, Option, none, some, List, [], ◌∷◌, ◌++◌, ltb, is_empty,
  is_some, ◌==◌, length, if◌then◌else◌,
}
use clankvox.Base.Int.{ℤ}
use clankvox.Music
use clankvox.Music.{MusicState}
use clankvox.Audio.State.{AudioSendState, clear, clear_tts, clear_music}

pub data TtsStatus : Type 0 where
  buffered idle : TtsStatus

-- What the handlers send, and the pipelines that they start and stop.
pub data Effect (F : Type 0) : Type 0 where
  player_state : String → Effect F
  music_idle : Effect F
  music_error : String → Effect F
  music_gain_reached : F → Effect F
  playback_armed : String → Effect F
  tts_playback_state : TtsStatus → Effect F
  buffer_depth : ℕ → ℕ → Effect F
  start_player : ℕ → String → Bool → Effect F
  stop_player : ℕ → Effect F

-- `MusicPlayer`: the atomics that it shares with its thread, which sets and clears `child_pid`.
pub record MusicPlayer : Type 0 where
  pub paused : Bool
  pub child_pid : ℕ

-- The music player is named by its handle; `players` says what stands behind a handle.
pub record Playback (F E : Type 0) : Type 0 where
  pub music : MusicState
  pub players : ℕ → MusicPlayer
  pub next_player : ℕ
  pub audio : Option (AudioSendState F E)
  pub music_pcm : List (List ℤ)
  pub tts_playback_buffered : Bool
  pub buffer_depth_tick_counter : ℕ
  pub buffer_depth_was_nonempty : Bool
  pub out : List (Effect F)

unfoldable pub is_alive : MusicPlayer → Bool
is_alive player = not (player.child_pid == 0)

-- The two signals, `Suspend` and `Resume`, of `signal_process_group`; whether the system took it is
-- the parameter.
unfoldable pub pause : (ℕ → Bool) → MusicPlayer → Bool × MusicPlayer
unfolding is_alive
pause suspend player =
    if player.paused
    then (is_alive player, player)
    else if player.child_pid == 0
    then (false, player)
    else if suspend player.child_pid
    then (true, record player { paused = true })
    else (false, player)

unfoldable pub resume : (ℕ → Bool) → MusicPlayer → Bool × MusicPlayer
unfolding is_alive
resume continue player =
    if not player.paused
    then (is_alive player, player)
    else if player.child_pid == 0
    then (false, record player { paused = false })
    else if continue player.child_pid
    then (true, record player { paused = false })
    else (false, player)

abbrev pub stops : {F : Type 0} → Option ℕ → List (Effect F)
stops none = []
stops (some player) = stop_player player ∷ []

module _ {F E : Type 0} where
  abbrev pub emit : List (Effect F) → Playback F E → Playback F E
  emit effects p = record p { out = p.out ++ effects }

  abbrev pub on_audio : (AudioSendState F E → AudioSendState F E) → Playback F E → Playback F E
  on_audio f p = record p { audio = Option.map f p.audio }

  abbrev pub with_music : (MusicState → MusicState) → Playback F E → Playback F E
  with_music f p = record p { music = f p.music }

  abbrev pub report_gain : Option F → Playback F E → Playback F E
  report_gain none p = p
  report_gain (some gain) p = emit (music_gain_reached gain ∷ []) p

  -- A method of the music state that stops a player.
  abbrev pub stopping : (MusicState → Option ℕ × MusicState) → Playback F E → Playback F E
  stopping method p = emit (stops (method p.music).0) (record p { music = (method p.music).1 })

  unfoldable pub drain_music_pcm_queue : Playback F E → Playback F E
  drain_music_pcm_queue p = record p { music_pcm = [] }

  unfoldable pub clear_audio_send_buffer : Playback F E → Playback F E
  unfolding clear
  clear_audio_send_buffer p = on_audio clear p

  unfoldable pub clear_tts_send_buffer : Playback F E → Playback F E
  unfolding clear_tts
  clear_tts_send_buffer p = on_audio clear_tts p

  unfoldable pub clear_music_send_buffer : Playback F E → Playback F E
  unfolding clear_music
  clear_music_send_buffer p = on_audio clear_music p

  -- `emit_playback_armed`
  unfoldable pub emit_playback_armed : String → Playback F E → Playback F E
  emit_playback_armed reason p = emit (if is_some p.audio then playback_armed reason ∷ [] else []) p

  abbrev pub music_samples : Option (AudioSendState F E) → ℕ
  music_samples none = 0
  music_samples (some state) = length state.music_buffer

  unfoldable pub has_buffered_music_output : Playback F E → Bool
  has_buffered_music_output p = ltb 0 (music_samples p.audio)

  unfoldable pub is_music_output_drained : Playback F E → Bool
  is_music_output_drained p = is_empty p.music_pcm && (music_samples p.audio == 0)

  -- The flag of the buffered speech, with the message that tells of its change.
  abbrev pub tell_idle_if : Bool → Playback F E → Playback F E
  tell_idle_if true p =
      emit (tts_playback_state idle ∷ []) (record p { tts_playback_buffered = false })
  tell_idle_if false p = p

  abbrev pub tell_idle : Playback F E → Playback F E
  tell_idle p = tell_idle_if p.tts_playback_buffered p

  abbrev pub tell_buffered_if : Bool → Playback F E → Playback F E
  tell_buffered_if true p =
      emit (tts_playback_state buffered ∷ []) (record p { tts_playback_buffered = true })
  tell_buffered_if false p = p

  -- `AppState::start_music_pipeline`: the player of the slot is stopped, the queue is drained, the
  -- buffers are cleared if that is asked for, and a new player takes the slot.
  unfoldable pub start_music_pipeline : String → Bool → Bool → Playback F E → Playback F E
  unfolding Music.stop_player drain_music_pcm_queue clear_audio_send_buffer
  start_music_pipeline url resolved_direct_url clear_output_buffers p =
      let stopped = drain_music_pcm_queue (stopping Music.stop_player p) in
      let cleared = if clear_output_buffers then clear_audio_send_buffer stopped else stopped in
      let player = cleared.next_player in
      emit (start_player player url resolved_direct_url ∷ []) (record cleared {
        music = record cleared.music { player = some player };
        players = λ handle.
            if handle == player
            then record { paused = false; child_pid = 0 }
            else cleared.players handle;
        next_player = player + 1;
      })
