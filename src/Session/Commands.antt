-- ===== src/Session/Commands.antt =====
-- src/connection_supervisor.rs: `handle_connection_command`. `parse_u64` stands for
-- `str::parse::<u64>`, and `connect` for `VoiceConnection::connect`.
use Prim.Native.String.{String}
use text.Mathlib.Text.{◌==◌ as str_eq}
use clankvox.Base.{
  ℕ, Bool, true, false, Option, none, some, [], ◌∷◌, if◌then◌else◌, ◌&&◌, is_some, is_none, not,
}
use clankvox.Session.State.{
  AppState, stream_watch, stream_publish, invalid_request, error, transport_state,
  gateway_voice_state_update, PendingStreamConnection,
}
use clankvox.Session.Clear.{
  emit, reset_reconnect, clear_voice_connection, clear_stream_watch_connection,
  clear_stream_publish_connection, clear_transport_runtime_state, stop_stream_publish_runtime,
}
use clankvox.Session.Connect.{
  VoiceConnectionParams, ConnectResult, TryConnectOutcome, missing_data, connected,
  already_connected, failed, try_connect_stream_watch, try_connect_stream_publish,
  maybe_try_connect,
}

-- The fields that a stream command carries, as strings of the message.
pub record StreamConnect : Type 0 where
  pub endpoint : String
  pub token : String
  pub server_id : String
  pub session_id : String
  pub user_id : String
  pub dave_channel_id : String

-- `voice_server` carries an endpoint and a token, `voice_state` a session id and a user id.
pub data ConnectionCommand : Type 0 where
  join : String → String → Bool → ConnectionCommand
  voice_server : Option String → Option String → ConnectionCommand
  voice_state : Option String → Option String → ConnectionCommand
  stream_watch_connect : StreamConnect → ConnectionCommand
  stream_watch_disconnect : Option String → ConnectionCommand
  stream_publish_connect : StreamConnect → ConnectionCommand
  stream_publish_disconnect : Option String → ConnectionCommand

abbrev pub or_else {ℓ} : {A : Type ℓ} → Option A → Option A → Option A
or_else none b = b
or_else (some a) b = some a

abbrev unwrap_or : Option String → String → String
unwrap_or none s = s
unwrap_or (some t) s = t

-- `old.as_deref() == Some(new)`
abbrev pub same_session : Option String → String → Bool
same_session none session_id = false
same_session (some old) session_id = str_eq old session_id

-- An open transport whose session id is not the new one.
abbrev pub outdated : Option ℕ → Option String → String → Bool
outdated conn old session_id = is_some conn && not (same_session old session_id)

unfoldable pub drop_outdated_voice : AppState → String → AppState
drop_outdated_voice s session_id =
    if outdated s.voice_conn s.pending_conn.session_id session_id
    then clear_transport_runtime_state (clear_voice_connection s)
    else s

unfoldable pub drop_outdated_watch : AppState → String → AppState
drop_outdated_watch s session_id =
    if outdated s.stream_watch_conn s.stream_watch_pending_conn.session_id session_id
    then emit (clear_stream_watch_connection s)
        (transport_state stream_watch "disconnected" (some "session_id_changed") ∷ [])
    else s

unfoldable pub drop_outdated_publish : AppState → String → AppState
drop_outdated_publish s session_id =
    if outdated s.stream_publish_conn s.stream_publish_pending_conn.session_id session_id
    then emit (clear_stream_publish_connection s)
        (transport_state stream_publish "disconnected" (some "session_id_changed") ∷ [])
    else s

-- The `if let Some(session_id)` block of `voice_state`.
unfoldable pub set_session : AppState → Option String → AppState
set_session s none = s
set_session s (some session_id) =
    let s' =
      drop_outdated_publish (drop_outdated_watch (drop_outdated_voice s session_id) session_id)
        session_id in
    record s' {
      pending_conn = record s'.pending_conn { session_id = some session_id };
      stream_watch_pending_conn = record s'.stream_watch_pending_conn {
        session_id = some session_id;
      };
      stream_publish_pending_conn = record s'.stream_publish_pending_conn {
        session_id = some session_id;
      };
    }

-- The `if let Some(user_id)` block.
unfoldable pub set_user : AppState → Option ℕ → AppState
set_user s none = s
set_user s (some user_id) = record s {
  pending_conn = record s.pending_conn { user_id = some user_id };
  self_user_id = some user_id;
  stream_watch_pending_conn = record s.stream_watch_pending_conn {
    user_id = or_else s.stream_watch_pending_conn.user_id (some user_id);
  };
  stream_publish_pending_conn = record s.stream_publish_pending_conn {
    user_id = or_else s.stream_publish_pending_conn.user_id (some user_id);
  };
}

abbrev pub invalid : AppState → AppState
invalid s = emit s (error invalid_request ∷ [])

abbrev pub report : Bool → AppState → AppState
report true s = invalid s
report false s = s

-- A handler that goes on only with its parsed arguments.
abbrev pub parsed_or_invalid {ℓ} : {A : Type ℓ} → Option A → AppState → (A → AppState) → AppState
parsed_or_invalid none s go = invalid s
parsed_or_invalid (some a) s go = go a

abbrev pub both {ℓ κ} : {A : Type ℓ} {B : Type κ} → Option A → Option B → Option (A × B)
both (some a) (some b) = some (a, b)
both _ _ = none

abbrev pub watch_outcome : TryConnectOutcome × AppState → AppState
watch_outcome (missing_data, s) =
    emit s (transport_state stream_watch "failed" (some "missing_stream_watch_credentials") ∷ [])
watch_outcome (connected, s) = s
watch_outcome (already_connected, s) = s
watch_outcome (failed, s) = s

abbrev pub publish_outcome : TryConnectOutcome × AppState → AppState
publish_outcome (missing_data, s) =
    emit s
      (transport_state stream_publish "failed" (some "missing_stream_publish_credentials") ∷ [])
publish_outcome (connected, s) = s
publish_outcome (already_connected, s) = s
publish_outcome (failed, s) = s

abbrev pub joined : AppState → Bool → ℕ × ℕ → AppState
joined s self_mute (guild_id, channel_id) =
    emit
      (reset_reconnect (record s {
        guild_id = some guild_id;
        channel_id = some channel_id;
        self_mute = self_mute;
      }))
      (gateway_voice_state_update guild_id channel_id self_mute ∷ [])

module _ (parse_u64 : String → Option ℕ) where
  abbrev pub parse_user_id_field : AppState → String → Option ℕ × AppState
  parse_user_id_field s user_id = (parse_u64 user_id, report (is_none (parse_u64 user_id)) s)

  abbrev pub parse_optional : AppState → Option String → Option ℕ × AppState
  parse_optional s none = (none, s)
  parse_optional s (some user_id) = parse_user_id_field s user_id

  -- The credentials of a stream command, its ids in the order in which the code parses them: an id
  -- that is not a number ends the command.
  unfoldable pub parse_stream : StreamConnect → Option PendingStreamConnection
  parse_stream m = elim (parse_u64 m.user_id) [
    | none ↦ none
    | some user_id ↦ elim (parse_u64 m.server_id) [
      | none ↦ none
      | some server_id ↦ elim (parse_u64 m.dave_channel_id) [
        | none ↦ none
        | some dave_channel_id ↦ some (record {
          endpoint = some m.endpoint;
          token = some m.token;
          session_id = some m.session_id;
          user_id = some user_id;
          server_id = some server_id;
          dave_channel_id = some dave_channel_id;
        })
      ]
    ]
  ]

  -- A guild id or a channel id that is no number is one error, and the end.
  unfoldable pub handle_join : AppState → String → String → Bool → AppState
  handle_join s guild channel self_mute =
      parsed_or_invalid (both (parse_u64 guild) (parse_u64 channel)) s (joined s self_mute)

  module _ (connect : VoiceConnectionParams → Option ℕ × ConnectResult) where
    unfoldable pub handle_voice_server : AppState → ℕ → Option String → Option String → AppState
    handle_voice_server s now endpoint token =
        maybe_try_connect connect
          (record s {
            pending_conn = record s.pending_conn {
              endpoint = or_else endpoint s.pending_conn.endpoint;
              token = or_else token s.pending_conn.token;
            };
          })
          now "voice_server_connect_failed"

    unfoldable pub handle_voice_state : AppState → ℕ → Option String → Option String → AppState
    handle_voice_state s now session_id user_id =
        let (new_user_id, s') = parse_optional s user_id in
        maybe_try_connect connect (set_user (set_session s' session_id) new_user_id) now
          "voice_state_connect_failed"

    abbrev pub watch_with : AppState → PendingStreamConnection → AppState
    watch_with s pending = watch_outcome (
        try_connect_stream_watch connect (
          emit (record (clear_stream_watch_connection s) { stream_watch_pending_conn = pending })
            (transport_state stream_watch "connecting" none ∷ [])))

    unfoldable pub handle_stream_watch_connect : AppState → StreamConnect → AppState
    handle_stream_watch_connect s m = parsed_or_invalid (parse_stream m) s (watch_with s)

    abbrev pub publish_with : AppState → PendingStreamConnection → AppState
    publish_with s pending = publish_outcome (
        try_connect_stream_publish connect (
          emit
            (record (clear_stream_publish_connection s) { stream_publish_pending_conn = pending })
            (transport_state stream_publish "connecting" none ∷ [])))

    unfoldable pub handle_stream_publish_connect : AppState → StreamConnect → AppState
    handle_stream_publish_connect s m = parsed_or_invalid (parse_stream m) s (publish_with s)

    unfoldable pub handle_connection_command : AppState → ℕ → ConnectionCommand → AppState
    handle_connection_command s now (join guild channel self_mute) =
        handle_join s guild channel self_mute
    handle_connection_command s now (voice_server endpoint token) =
        handle_voice_server s now endpoint token
    handle_connection_command s now (voice_state session_id user_id) =
        handle_voice_state s now session_id user_id
    handle_connection_command s now (stream_watch_connect m) = handle_stream_watch_connect s m
    handle_connection_command s now (stream_watch_disconnect reason) =
        emit (clear_stream_watch_connection s) (
          transport_state stream_watch "disconnected"
            (some (unwrap_or reason "stream_watch_disconnect"))
          ∷ [])
    handle_connection_command s now (stream_publish_connect m) = handle_stream_publish_connect s m
    handle_connection_command s now (stream_publish_disconnect reason) =
        emit (clear_stream_publish_connection (stop_stream_publish_runtime s)) (
          transport_state stream_publish "disconnected"
            (some (unwrap_or reason "stream_publish_disconnect"))
          ∷ [])
