-- ===== src/Session/State.antt =====
-- src/app_state.rs, src/capture.rs, src/ipc.rs: the state and the messages of the process.
use Prim.Native.String.{String}
use clankvox.Base.{ℕ, Bool, Option, List}
use clankvox.Music.{MusicState}
use clankvox.Publish.{StreamPublishState}

pub data TransportRole : Type 0 where
  voice stream_watch stream_publish : TransportRole

pub data ErrorCode : Type 0 where
  invalid_request voice_connect_failed stream_watch_connect_failed stream_publish_connect_failed
        voice_runtime_error :
      ErrorCode

-- What the handlers do besides changing the state: `send_msg`, `send_error` without the text for
-- humans, and the calls of connections and players, which are named by their handle.
pub data Effect : Type 0 where
  connection_state : String → Effect
  transport_state : TransportRole → String → Option String → Effect
  gateway_voice_state_update : ℕ → ℕ → Bool → Effect
  error : ErrorCode → Effect
  speaking_end : ℕ → Effect
  user_audio_end : ℕ → Effect
  user_video_end : ℕ → Option ℕ → Effect
  client_disconnect : ℕ → Effect
  shutdown : ℕ → Effect
  set_stream_publish_speaking : ℕ → Bool → Effect
  set_stream_publish_video_active : ℕ → Bool → Effect
  stop_music_player : ℕ → Effect
  start_publish_player : ℕ → Effect
  stop_publish_player : ℕ → Effect

pub record PendingConnection : Type 0 where
  pub endpoint : Option String
  pub token : Option String
  pub session_id : Option String
  pub user_id : Option ℕ

-- `PendingStreamWatchConnection` and `PendingStreamPublishConnection`
pub record PendingStreamConnection : Type 0 where
  pub endpoint : Option String
  pub token : Option String
  pub session_id : Option String
  pub user_id : Option ℕ
  pub server_id : Option ℕ
  pub dave_channel_id : Option ℕ

pub record SpeakingState : Type 0 where
  pub last_packet_at : Option ℕ
  pub is_speaking : Bool

pub record UserCaptureState : Type 0 where
  pub sample_rate : ℕ
  pub silence_duration_ms : ℕ
  pub stream_active : Bool
  pub last_audio_at : Option ℕ

-- The part of `RemoteVideoState` that names SSRCs.
pub record RemoteVideoState : Type 0 where
  pub audio_ssrc : Option ℕ
  pub video_ssrc : Option ℕ
  pub stream_ssrcs : List ℕ

abbrev pub Map : Type 0 → Type 0
Map A = ℕ → Option A

-- The channels of the music and of the published frames are the lists of what they hold; `out` is
-- what the process has done so far, oldest first.
pub record AppState : Type 0 where
  pub pending_conn : PendingConnection
  pub guild_id : Option ℕ
  pub channel_id : Option ℕ
  pub self_mute : Bool
  pub reconnect_deadline : Option ℕ
  pub reconnect_attempt : ℕ
  pub dave : Option ℕ
  pub voice_conn : Option ℕ
  pub stream_watch_pending_conn : PendingStreamConnection
  pub stream_watch_dave : Option ℕ
  pub stream_watch_conn : Option ℕ
  pub stream_publish_pending_conn : PendingStreamConnection
  pub stream_publish_dave : Option ℕ
  pub stream_publish_conn : Option ℕ
  pub audio_send_state : Option ℕ
  pub music_pcm : List (List ℕ)
  pub stream_publish_frames : List (List ℕ)
  pub stream_publish_events : List ℕ
  pub music : MusicState
  pub stream_publish : StreamPublishState
  pub opus_decoders : Map ℕ
  pub last_rtp_seq : Map ℕ
  pub ssrc_map : Map ℕ
  pub self_user_id : Option ℕ
  pub user_capture_states : Map UserCaptureState
  pub user_video_subscriptions : Map ℕ
  pub user_video_decoders : Map ℕ
  pub remote_video_states : Map RemoteVideoState
  pub speaking_states : Map SpeakingState
  pub stream_publish_frames_sent : ℕ
  pub out : List Effect
