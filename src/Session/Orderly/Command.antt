-- ===== src/Session/Orderly/Command.antt =====
-- src/connection_supervisor.rs: the connection commands, by what they do to the slots.
use Prim.Native.String.{String}
use clankvox.Base.{
  ℕ, Bool, true, false, Option, none, some, [], ◌∷◌, ◌≡◌, refl, sym, ◌∙◌, append-nil, if◌then◌else◌,
}
use clankvox.Session.State.{AppState, transport_state, stream_watch, stream_publish}
use clankvox.Session.Clear.{
  emit, reset_reconnect, clear_voice_connection, clear_stream_watch_connection,
  clear_stream_publish_connection, clear_transport_runtime_state, stop_stream_publish_runtime,
}
use clankvox.Session.Connect.{
  try_connect_stream_watch, try_connect_stream_publish, VoiceConnectionParams, ConnectResult,
  Attempt, connected, failed, already_connected, missing_data,
}
use clankvox.Session.Commands.{
  both, joined, or_else, parse_stream, watch_with, publish_with, ConnectionCommand, StreamConnect,
  join, voice_server, voice_state, stream_watch_connect, stream_watch_disconnect,
  stream_publish_connect, stream_publish_disconnect, report, parsed_or_invalid, parse_optional,
  set_session, set_user, drop_outdated_voice, drop_outdated_watch, drop_outdated_publish,
  watch_outcome, publish_outcome, handle_join, handle_voice_server, handle_voice_state,
  handle_stream_watch_connect, handle_stream_publish_connect, handle_connection_command, outdated,
}
use clankvox.Session.Orderly.{Orderly, Orderly-refl, Orderly-trans}
use clankvox.Session.Orderly.Clear.{
  same_slots, emit-Orderly, clear_voice_connection-Orderly, clear_stream_watch_connection-Orderly,
  clear_stream_publish_connection-Orderly, clear_transport_runtime_state-Orderly,
  stop_stream_publish_runtime-Orderly,
}
use clankvox.Session.Orderly.Connect.{
  maybe_try_connect-Orderly, try_connect_stream_watch-Orderly, try_connect_stream_publish-Orderly,
}

quiet :
    (s t : AppState)
    → t.out ≡ s.out
    → t.voice_conn ≡ s.voice_conn
    → t.stream_watch_conn ≡ s.stream_watch_conn
    → t.stream_publish_conn ≡ s.stream_publish_conn
    → Orderly s t
quiet s t o v w p = same_slots s t [] (o ∙ sym (append-nil s.out)) v w p

if-Orderly : (b : Bool) (s t : AppState) → Orderly s t → Orderly s (if b then t else s)
if-Orderly true s t h = h
if-Orderly false s t h = Orderly-refl s

report-Orderly : (b : Bool) (s : AppState) → Orderly s (report b s)
report-Orderly true s = emit-Orderly s _
report-Orderly false s = Orderly-refl s

parsed_or_invalid-Orderly {ℓ} :
    {A : Type ℓ} (parsed : Option A) (s : AppState) (go : A → AppState)
    → ((a : A) → Orderly s (go a))
    → Orderly s (parsed_or_invalid parsed s go)
parsed_or_invalid-Orderly none s go h = emit-Orderly s _
parsed_or_invalid-Orderly (some a) s go h = h a

set_session-Orderly :
    (s : AppState) (session_id : Option String) → Orderly s (set_session s session_id)
unfolding set_session drop_outdated_voice drop_outdated_watch drop_outdated_publish
set_session-Orderly s none = Orderly-refl s
set_session-Orderly s (some session_id) =
    let v = drop_outdated_voice s session_id in
    let w = drop_outdated_watch v session_id in
    let p = drop_outdated_publish w session_id in
    Orderly-trans
      (if-Orderly (outdated s.voice_conn s.pending_conn.session_id session_id) s
        (clear_transport_runtime_state (clear_voice_connection s))
        (Orderly-trans (clear_voice_connection-Orderly s)
          (clear_transport_runtime_state-Orderly (clear_voice_connection s))))
      (Orderly-trans
        (if-Orderly (outdated v.stream_watch_conn v.stream_watch_pending_conn.session_id session_id)
          v _
          (Orderly-trans (clear_stream_watch_connection-Orderly v)
            (emit-Orderly (clear_stream_watch_connection v) _)))
        (Orderly-trans
          (if-Orderly
            (outdated w.stream_publish_conn w.stream_publish_pending_conn.session_id session_id) w _
            (Orderly-trans (clear_stream_publish_connection-Orderly w)
              (emit-Orderly (clear_stream_publish_connection w) _)))
          (quiet p _ refl refl refl refl)))

set_user-Orderly : (s : AppState) (user_id : Option ℕ) → Orderly s (set_user s user_id)
unfolding set_user
set_user-Orderly s none = Orderly-refl s
set_user-Orderly s (some user_id) = quiet s _ refl refl refl refl

watch_outcome-Orderly : (s : AppState) (a : Attempt) → Orderly s a.1 → Orderly s (watch_outcome a)
watch_outcome-Orderly s (missing_data, t) h = Orderly-trans h (emit-Orderly t _)
watch_outcome-Orderly s (connected, t) h = h
watch_outcome-Orderly s (already_connected, t) h = h
watch_outcome-Orderly s (failed, t) h = h

publish_outcome-Orderly :
    (s : AppState) (a : Attempt) → Orderly s a.1 → Orderly s (publish_outcome a)
publish_outcome-Orderly s (missing_data, t) h = Orderly-trans h (emit-Orderly t _)
publish_outcome-Orderly s (connected, t) h = h
publish_outcome-Orderly s (already_connected, t) h = h
publish_outcome-Orderly s (failed, t) h = h

module _ (parse_u64 : String → Option ℕ)
    (connect : VoiceConnectionParams → Option ℕ × ConnectResult) where
  parse_optional-Orderly :
      (s : AppState) (user_id : Option String) → Orderly s (parse_optional parse_u64 s user_id).1
  parse_optional-Orderly s none = Orderly-refl s
  parse_optional-Orderly s (some user_id) = report-Orderly _ s

  handle_join-Orderly :
      (s : AppState) (guild channel : String) (self_mute : Bool)
      → Orderly s (handle_join parse_u64 s guild channel self_mute)
  unfolding handle_join reset_reconnect
  handle_join-Orderly s guild channel self_mute =
      parsed_or_invalid-Orderly (both (parse_u64 guild) (parse_u64 channel)) s (joined s self_mute)
        (λ ids. same_slots s (joined s self_mute ids) _ refl refl refl refl)

  handle_voice_server-Orderly :
      (s : AppState) (now : ℕ) (endpoint token : Option String)
      → Orderly s (handle_voice_server parse_u64 connect s now endpoint token)
  unfolding handle_voice_server
  handle_voice_server-Orderly s now endpoint token =
      let t = record s {
        pending_conn = record s.pending_conn {
          endpoint = or_else endpoint s.pending_conn.endpoint;
          token = or_else token s.pending_conn.token;
        };
      } in
      Orderly-trans (quiet s t refl refl refl refl) (maybe_try_connect-Orderly connect t now _)

  handle_voice_state-Orderly :
      (s : AppState) (now : ℕ) (session_id user_id : Option String)
      → Orderly s (handle_voice_state parse_u64 connect s now session_id user_id)
  unfolding handle_voice_state
  handle_voice_state-Orderly s now session_id user_id =
      let (uid, t) = parse_optional parse_u64 s user_id in
      let u = set_session t session_id in
      Orderly-trans (parse_optional-Orderly s user_id) (
        Orderly-trans (set_session-Orderly t session_id) (
          Orderly-trans (set_user-Orderly u uid)
            (maybe_try_connect-Orderly connect (set_user u uid) now _)))

  handle_stream_watch_connect-Orderly :
      (s : AppState) (m : StreamConnect)
      → Orderly s (handle_stream_watch_connect parse_u64 connect s m)
  unfolding handle_stream_watch_connect
  handle_stream_watch_connect-Orderly s m =
      parsed_or_invalid-Orderly (parse_stream parse_u64 m) s (watch_with parse_u64 connect s)
        (λ pending.
          let cleared = clear_stream_watch_connection s in
          let told =
            emit (record cleared { stream_watch_pending_conn = pending })
              (transport_state stream_watch "connecting" none ∷ []) in
          watch_outcome-Orderly s (try_connect_stream_watch connect told) (
            Orderly-trans (clear_stream_watch_connection-Orderly s) (
              Orderly-trans (same_slots cleared told _ refl refl refl refl)
                (try_connect_stream_watch-Orderly connect told))))

  handle_stream_publish_connect-Orderly :
      (s : AppState) (m : StreamConnect)
      → Orderly s (handle_stream_publish_connect parse_u64 connect s m)
  unfolding handle_stream_publish_connect
  handle_stream_publish_connect-Orderly s m =
      parsed_or_invalid-Orderly (parse_stream parse_u64 m) s (publish_with parse_u64 connect s)
        (λ pending.
          let cleared = clear_stream_publish_connection s in
          let told =
            emit (record cleared { stream_publish_pending_conn = pending })
              (transport_state stream_publish "connecting" none ∷ []) in
          publish_outcome-Orderly s (try_connect_stream_publish connect told) (
            Orderly-trans (clear_stream_publish_connection-Orderly s) (
              Orderly-trans (same_slots cleared told _ refl refl refl refl)
                (try_connect_stream_publish-Orderly connect told))))

  pub handle_connection_command-Orderly :
      (s : AppState) (now : ℕ) (message : ConnectionCommand)
      → Orderly s (handle_connection_command parse_u64 connect s now message)
  unfolding handle_connection_command
  handle_connection_command-Orderly s now (join guild channel self_mute) =
      handle_join-Orderly s guild channel self_mute
  handle_connection_command-Orderly s now (voice_server endpoint token) =
      handle_voice_server-Orderly s now endpoint token
  handle_connection_command-Orderly s now (voice_state session_id user_id) =
      handle_voice_state-Orderly s now session_id user_id
  handle_connection_command-Orderly s now (stream_watch_connect m) =
      handle_stream_watch_connect-Orderly s m
  handle_connection_command-Orderly s now (stream_watch_disconnect reason) =
      Orderly-trans (clear_stream_watch_connection-Orderly s)
        (emit-Orderly (clear_stream_watch_connection s) _)
  handle_connection_command-Orderly s now (stream_publish_connect m) =
      handle_stream_publish_connect-Orderly s m
  handle_connection_command-Orderly s now (stream_publish_disconnect reason) =
      let stopped = stop_stream_publish_runtime s in
      Orderly-trans (stop_stream_publish_runtime-Orderly s) (
        Orderly-trans (clear_stream_publish_connection-Orderly stopped)
          (emit-Orderly (clear_stream_publish_connection stopped) _))
