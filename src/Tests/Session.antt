-- ===== src/Tests/Session.antt =====
-- The properties of the session and of the capture state at concrete inputs.
use Prim.Native.String.{String}
use clankvox.Base.{
  ℕ, true, false, Option, none, some, List, [], ◌∷◌, ◌≡◌, ◌≢◌, ◌⊎◌, refl, arith, All,
}
use clankvox.Music
use clankvox.Session.State.{
  AppState, voice, stream_publish, PendingStreamConnection, SpeakingState, UserCaptureState,
}
use clankvox.Session.Clear.{remove_user_runtime_state, empty}
use clankvox.Session.Connect.{
  VoiceConnectionParams, ConnectResult, opened, refused, handle_reconnect_timer,
}
use clankvox.Session.Commands.{
  voice_state, stream_watch_disconnect, handle_voice_server, handle_voice_state,
}
use clankvox.Session.Orderly.{Orderly}
use clankvox.Session.Run.{Event, command, disconnected, reconnect_timer, destroy, run, run-Orderly}
use clankvox.Session.Reconnect.{Retried, handle_reconnect_timer_lem}
use clankvox.Session.Users.{
  NoEntry, SameEntry, NoSsrc, SameSsrc, remove_user_runtime_state_lem, deferred_while_scheduled,
}
use clankvox.Capture.{classify_rtp_sequence, forward_loss, on_capture_tick}
use clankvox.Capture.Sequence.{classify_rtp_sequence_lem}
use clankvox.Capture.Tick.{OfEntry, IsFresh, IsActive, on_capture_tick_lem}

abbrev pub no_stream : PendingStreamConnection
no_stream = record {
  endpoint = none;
  token = none;
  session_id = none;
  user_id = none;
  server_id = none;
  dave_channel_id = none;
}

-- A session in a channel, with a connection, a speaking user 42 and a scheduled retry.
abbrev pub joined_state : AppState
joined_state = record {
  pending_conn = record {
    endpoint = some "eu.example";
    token = some "t";
    session_id = some "s1";
    user_id = some 9;
  };
  guild_id = some 1;
  channel_id = some 2;
  self_mute = false;
  reconnect_deadline = some 5000;
  reconnect_attempt = 3;
  dave = none;
  voice_conn = some 100;
  stream_watch_pending_conn = no_stream;
  stream_watch_dave = none;
  stream_watch_conn = some 101;
  stream_publish_pending_conn = no_stream;
  stream_publish_dave = none;
  stream_publish_conn = none;
  audio_send_state = none;
  music_pcm = [];
  stream_publish_frames = [];
  stream_publish_events = [];
  music = Music.default;
  stream_publish = record {
    player = none;
    pending_source = none;
    active_source = none;
    active = false;
    paused = false;
  };
  opus_decoders = empty;
  last_rtp_seq = empty;
  ssrc_map = λ ssrc. some 42;
  self_user_id = some 9;
  user_capture_states = empty;
  user_video_subscriptions = empty;
  user_video_decoders = empty;
  remote_video_states = empty;
  speaking_states = λ user_id. some (record { last_packet_at = some 1; is_speaking = true });
  stream_publish_frames_sent = 0;
  out = [];
}

abbrev refusing : VoiceConnectionParams → Option ℕ × ConnectResult
refusing params = (none, refused "down")

abbrev opening_7 : VoiceConnectionParams → Option ℕ × ConnectResult
opening_7 params = (some 70, opened 7)

abbrev no_number : String → Option ℕ
no_number text = none

abbrev events : List Event
events =
    command 10 opening_7 (voice_state (some "s2") (some "9"))
    ∷ disconnected voice 20 "lost"
    ∷ reconnect_timer 1020 refusing
    ∷ command 1030 opening_7 (stream_watch_disconnect none)
    ∷ disconnected stream_publish 1040 "gone"
    ∷ destroy
    ∷ []

run-Orderly_example : Orderly joined_state (run no_number joined_state events)
run-Orderly_example = run-Orderly no_number joined_state events

abbrev down_state : AppState
down_state = record joined_state { voice_conn = none }

handle_reconnect_timer_lem_example :
    Retried down_state 5000 (handle_reconnect_timer refusing down_state 5000)
handle_reconnect_timer_lem_example = handle_reconnect_timer_lem refusing down_state 5000 refl refl

abbrev user_42 : ℕ
user_42 = 42

remove_user_runtime_state_lem_example :
    (((user_42 ≡ user_42) × NoEntry (remove_user_runtime_state joined_state 42) 42)
      ⊎ ((user_42 ≢ user_42)
          × SameEntry joined_state (remove_user_runtime_state joined_state 42) 42))
    × (((some user_42 ≡ some user_42) × NoSsrc (remove_user_runtime_state joined_state 42) 7)
        ⊎ ((some user_42 ≢ some user_42)
            × SameSsrc joined_state (remove_user_runtime_state joined_state 42) 7))
remove_user_runtime_state_lem_example = remove_user_runtime_state_lem joined_state 42 42 7

deferred_while_scheduled_example :
    (handle_voice_server no_number opening_7 joined_state 10 (some "us.example") none
      ≡ handle_voice_server no_number refusing joined_state 10 (some "us.example") none)
    × (handle_voice_state no_number opening_7 joined_state 10 (some "us.example") none
        ≡ handle_voice_state no_number refusing joined_state 10 (some "us.example") none)
deferred_while_scheduled_example =
    deferred_while_scheduled no_number opening_7 refusing joined_state 10 5000 (some "us.example")
      none refl

classify_rtp_sequence_lem_example : classify_rtp_sequence (some 65534) 1 ≡ forward_loss 2
classify_rtp_sequence_lem_example = classify_rtp_sequence_lem 65534 3 (omega arith) (omega arith)

abbrev speaking : List (ℕ × SpeakingState)
speaking =
    (1, record { last_packet_at = some 850; is_speaking = true })
    ∷ (2, record { last_packet_at = some 950; is_speaking = true })
    ∷ []

abbrev captures : List (ℕ × UserCaptureState)
captures =
    (
      1,
      record {
        sample_rate = 48000;
        silence_duration_ms = 700;
        stream_active = true;
        last_audio_at = some 200;
      },
    )
    ∷ []

on_capture_tick_lem_example :
    All (OfEntry (IsFresh 1000)) (on_capture_tick 1000 speaking captures).1.0
    × All (OfEntry (IsActive 1000)) (on_capture_tick 1000 speaking captures).1.1
on_capture_tick_lem_example = on_capture_tick_lem 1000 speaking captures (omega arith, tt)
