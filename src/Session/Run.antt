-- ===== src/Session/Run.antt =====
-- src/main.rs and `handle_voice_event` of src/capture_supervisor.rs: sequences of the events that
-- open, drop and lose connections: connection commands, the reconnect timer, the loss of each of the
-- three transports, users who leave, and the end of the process. Each event comes with what the connection attempts in it come to.
use Prim.Native.String.{String}
use clankvox.Base.{ℕ, Option, some, List, [], ◌∷◌, refl}
use clankvox.Publish
use clankvox.Session.State.{
  AppState, TransportRole, voice, stream_watch, stream_publish, transport_state,
  stop_publish_player,
}
use clankvox.Session.Clear.{
  emit, stops, handle_disconnected, remove_user_runtime_state, clear_voice_connection,
  clear_stream_watch_connection, clear_stream_publish_connection, stop_stream_publish_runtime,
}
use clankvox.Session.Connect.{VoiceConnectionParams, ConnectResult, handle_reconnect_timer}
use clankvox.Session.Commands.{ConnectionCommand, handle_connection_command}
use clankvox.Session.Orderly.{Orderly, Orderly-refl, Orderly-trans}
use clankvox.Session.Orderly.Clear.{
  same_slots, emit-Orderly, handle_disconnected-Orderly, remove_user_runtime_state-Orderly,
  clear_voice_connection-Orderly, clear_stream_watch_connection-Orderly,
  clear_stream_publish_connection-Orderly, stop_stream_publish_runtime-Orderly,
}
use clankvox.Session.Orderly.Connect.{handle_reconnect_timer-Orderly}
use clankvox.Session.Orderly.Command.{handle_connection_command-Orderly}
use clankvox.Playback.Command.{destroy_session}

-- What connection attempts come to, for one event.
abbrev pub Connect : Type 0
Connect = VoiceConnectionParams → Option ℕ × ConnectResult

pub data Event : Type 0 where
  command : ℕ → Connect → ConnectionCommand → Event
  reconnect_timer : ℕ → Connect → Event
  disconnected : TransportRole → ℕ → String → Event
  client_disconnect : ℕ → Event
  destroy : Event

-- `VoiceEvent::Disconnected`. What the process then asks the gateway to send, `refresh_video_sink_wants`,
-- is not modelled.
unfoldable pub handle_transport_disconnected : AppState → TransportRole → ℕ → String → AppState
unfolding handle_disconnected clear_stream_watch_connection stop_stream_publish_runtime
    clear_stream_publish_connection
handle_transport_disconnected s voice now reason = handle_disconnected s now reason
handle_transport_disconnected s stream_watch now reason =
    emit (clear_stream_watch_connection s)
      (transport_state stream_watch "disconnected" (some reason) ∷ [])
handle_transport_disconnected s stream_publish now reason =
    emit (clear_stream_publish_connection (stop_stream_publish_runtime s))
      (transport_state stream_publish "disconnected" (some reason) ∷ [])

module _ (parse_u64 : String → Option ℕ) where
  unfoldable pub step : AppState → Event → AppState
  step s (command now connect message) = handle_connection_command parse_u64 connect s now message
  step s (reconnect_timer now connect) = handle_reconnect_timer connect s now
  step s (disconnected role now reason) = handle_transport_disconnected s role now reason
  step s (client_disconnect user_id) = remove_user_runtime_state s user_id
  step s destroy = destroy_session s

  unfoldable pub run : AppState → List Event → AppState
  run s [] = s
  run s (event ∷ events) = run (step s event) events

handle_transport_disconnected-Orderly :
    (s : AppState) (role : TransportRole) (now : ℕ) (reason : String)
    → Orderly s (handle_transport_disconnected s role now reason)
unfolding handle_transport_disconnected
handle_transport_disconnected-Orderly s voice now reason = handle_disconnected-Orderly s now reason
handle_transport_disconnected-Orderly s stream_watch now reason =
    Orderly-trans (clear_stream_watch_connection-Orderly s)
      (emit-Orderly (clear_stream_watch_connection s) _)
handle_transport_disconnected-Orderly s stream_publish now reason =
    let stopped = stop_stream_publish_runtime s in
    Orderly-trans (stop_stream_publish_runtime-Orderly s) (
      Orderly-trans (clear_stream_publish_connection-Orderly stopped)
        (emit-Orderly (clear_stream_publish_connection stopped) _))

destroy_session-Orderly : (s : AppState) → Orderly s (destroy_session s)
unfolding destroy_session
destroy_session-Orderly s =
    let (stopped, publish) = Publish.reset s.stream_publish in
    let quiet = emit (record s { stream_publish = publish }) (stops stop_publish_player stopped) in
    Orderly-trans (same_slots s quiet _ refl refl refl refl) (
      Orderly-trans (clear_voice_connection-Orderly quiet)
        (clear_stream_publish_connection-Orderly (clear_voice_connection quiet)))

module _ (parse_u64 : String → Option ℕ) where
  step-Orderly : (s : AppState) (event : Event) → Orderly s (step parse_u64 s event)
  unfolding step
  step-Orderly s (command now connect message) =
      handle_connection_command-Orderly parse_u64 connect s now message
  step-Orderly s (reconnect_timer now connect) = handle_reconnect_timer-Orderly connect s now
  step-Orderly s (disconnected role now reason) =
      handle_transport_disconnected-Orderly s role now reason
  step-Orderly s (client_disconnect user_id) = remove_user_runtime_state-Orderly s user_id
  step-Orderly s destroy = destroy_session-Orderly s

  -- From any state, over any sequence of connection commands, runs of the reconnect timer, losses of
  -- any of the three transports, leaving users and `Destroy`, whatever the connection attempts come to:
  -- the messages so far stay a prefix of the later ones, and the connection that a transport has now is
  -- later still the connection of that transport, or has been shut down.
  pub run-Orderly : (s : AppState) (events : List Event) → Orderly s (run parse_u64 s events)
  unfolding run
  run-Orderly s [] = Orderly-refl s
  run-Orderly s (event ∷ events) =
      Orderly-trans (step-Orderly s event) (run-Orderly (step parse_u64 s event) events)
