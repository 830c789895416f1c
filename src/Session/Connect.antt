-- ===== src/Session/Connect.antt =====
-- src/connection_supervisor.rs: opening the three transports.
use Prim.Native.String.{String}
use clankvox.Base.{ℕ, Option, none, some, [], ◌∷◌}
use clankvox.Session.State.{
  AppState, TransportRole, voice, stream_watch, stream_publish, PendingStreamConnection,
  voice_connect_failed, stream_watch_connect_failed, stream_publish_connect_failed, error,
  transport_state,
}
use clankvox.Session.Clear.{emit, reset_reconnect, schedule_reconnect}

pub data TryConnectOutcome : Type 0 where
  already_connected missing_data connected failed : TryConnectOutcome

pub record VoiceConnectionParams : Type 0 where
  pub endpoint : String
  pub server_id : ℕ
  pub user_id : ℕ
  pub session_id : String
  pub token : String
  pub dave_channel_id : ℕ
  pub role : TransportRole

infixl 5 ◌>>=◌
abbrev ◌>>=◌ {ℓ κ} : {A : Type ℓ} {B : Type κ} → Option A → (A → Option B) → Option B
none >>= f = none
some a >>= f = f a

-- What `VoiceConnection::connect` comes to: the handle of a connection, or an error.
pub data ConnectResult : Type 0 where
  opened : ℕ → ConnectResult
  refused : String → ConnectResult

-- The credentials of the primary transport, once all are known.
abbrev pub voice_params : AppState → Option VoiceConnectionParams
voice_params s = do
  guild_id ← s.guild_id
  channel_id ← s.channel_id
  user_id ← s.pending_conn.user_id
  endpoint ← s.pending_conn.endpoint
  session_id ← s.pending_conn.session_id
  token ← s.pending_conn.token
  some (record {
    endpoint = endpoint;
    server_id = guild_id;
    user_id = user_id;
    session_id = session_id;
    token = token;
    dave_channel_id = channel_id;
    role = voice;
  })

abbrev pub stream_params : TransportRole → PendingStreamConnection → Option VoiceConnectionParams
stream_params role p = do
  server_id ← p.server_id
  dave_channel_id ← p.dave_channel_id
  user_id ← p.user_id
  endpoint ← p.endpoint
  session_id ← p.session_id
  token ← p.token
  some (record {
    endpoint = endpoint;
    server_id = server_id;
    user_id = user_id;
    session_id = session_id;
    token = token;
    dave_channel_id = dave_channel_id;
    role = role;
  })

-- `connect` stands for `VoiceConnection::connect`: the DAVE manager that it puts into the slot it is
-- given, if it does, and its result.
abbrev pub put : Option ℕ → Option ℕ → Option ℕ
put none slot = slot
put (some manager) slot = some manager

abbrev pub Attempt : Type 0
Attempt = TryConnectOutcome × AppState

-- The early returns that the three `try_connect` share: an open connection, and missing credentials.
abbrev pub try_slot :
    Option ℕ
    → Option VoiceConnectionParams
    → (AppState → VoiceConnectionParams → Attempt)
    → AppState
    → Attempt
try_slot (some conn) params opening s = (already_connected, s)
try_slot none none opening s = (missing_data, s)
try_slot none (some params) opening s = opening s params

abbrev pub voice_result : AppState → ConnectResult → Attempt
voice_result s (opened conn) = (connected, record s { voice_conn = some conn })
voice_result s (refused text) = (failed, emit s (error voice_connect_failed ∷ []))

abbrev pub stream_watch_result : AppState → ConnectResult → Attempt
stream_watch_result s (opened conn) = (connected, record s { stream_watch_conn = some conn })
stream_watch_result s (refused text) = (
  failed,
  emit s
      (error stream_watch_connect_failed ∷ transport_state stream_watch "failed" (some text) ∷ []),
)

abbrev pub stream_publish_result : AppState → ConnectResult → Attempt
stream_publish_result s (opened conn) = (connected, record s { stream_publish_conn = some conn })
stream_publish_result s (refused text) = (
  failed,
  emit s (
      error stream_publish_connect_failed
      ∷ transport_state stream_publish "failed" (some text)
      ∷ []),
)

unfoldable pub apply_connect_outcome : ℕ → String → Attempt → AppState
apply_connect_outcome now failure_reason (connected, s) = reset_reconnect s
apply_connect_outcome now failure_reason (failed, s) = schedule_reconnect s now failure_reason
apply_connect_outcome now failure_reason (already_connected, s) = s
apply_connect_outcome now failure_reason (missing_data, s) = s

-- Nothing while a reconnect is scheduled.
abbrev pub unless_scheduled : Option ℕ → AppState → AppState → AppState
unless_scheduled (some deadline) s t = s
unless_scheduled none s t = t

abbrev pub after_retry : ℕ → Attempt → AppState
after_retry now (connected, s) = record s { reconnect_attempt = 0 }
after_retry now (already_connected, s) = record s { reconnect_attempt = 0 }
after_retry now (failed, s) = schedule_reconnect s now "reconnect_retry"
after_retry now (missing_data, s) = schedule_reconnect s now "reconnect_retry"

module _ (connect : VoiceConnectionParams → Option ℕ × ConnectResult) where
  abbrev pub open_voice : AppState → VoiceConnectionParams → Attempt
  open_voice s params =
      voice_result (record s { dave = put (connect params).0 s.dave }) (connect params).1

  unfoldable pub try_connect : AppState → Attempt
  try_connect s = try_slot s.voice_conn (voice_params s) open_voice s

  abbrev pub open_stream_watch : AppState → VoiceConnectionParams → Attempt
  open_stream_watch s params =
      stream_watch_result
        (record s { stream_watch_dave = put (connect params).0 s.stream_watch_dave })
        (connect params).1

  unfoldable pub try_connect_stream_watch : AppState → Attempt
  try_connect_stream_watch s =
      try_slot s.stream_watch_conn (stream_params stream_watch s.stream_watch_pending_conn)
        open_stream_watch s

  abbrev pub open_stream_publish : AppState → VoiceConnectionParams → Attempt
  open_stream_publish s params =
      stream_publish_result
        (record s { stream_publish_dave = put (connect params).0 s.stream_publish_dave })
        (connect params).1

  unfoldable pub try_connect_stream_publish : AppState → Attempt
  try_connect_stream_publish s =
      try_slot s.stream_publish_conn (stream_params stream_publish s.stream_publish_pending_conn)
        open_stream_publish s

  unfoldable pub maybe_try_connect : AppState → ℕ → String → AppState
  maybe_try_connect s now failure_reason =
      unless_scheduled s.reconnect_deadline s
        (apply_connect_outcome now failure_reason (try_connect s))

  unfoldable pub handle_reconnect_timer : AppState → ℕ → AppState
  handle_reconnect_timer s now =
      after_retry now (try_connect (record s { reconnect_deadline = none }))
