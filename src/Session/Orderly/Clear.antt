-- ===== src/Session/Orderly/Clear.antt =====
-- src/app_state.rs: scheduling, clearing and stopping, by what they do to the slots.
use Prim.Native.String.{String}
use clankvox.Base.{
  ℕ, Option, none, some, List, [], ◌∷◌, ◌++◌, ◌≡◌, refl, sym, append-nil, arith, inr,
}
use clankvox.Music
use clankvox.Publish
use clankvox.Session.State.{
  AppState, Effect, error, voice_runtime_error, connection_state, transport_state, voice,
  stop_music_player, stop_publish_player,
}
use clankvox.Session.Clear.{
  emit, schedule_at, schedule_reconnect, clear_voice_connection, clear_stream_watch_connection,
  clear_stream_publish_connection, clear_transport_runtime_state, remove_user_runtime_state,
  handle_disconnected, stop_stream_publish_runtime, shutdowns, stops,
}
use clankvox.Session.Orderly.{Orderly, Closed, Closed-refl, Orderly-refl, Orderly-trans, shuts}

-- The slots are as they were, and the log has grown.
pub same_slots :
    (s t : AppState) (log : List Effect)
    → t.out ≡ s.out ++ log
    → t.voice_conn ≡ s.voice_conn
    → t.stream_watch_conn ≡ s.stream_watch_conn
    → t.stream_publish_conn ≡ s.stream_publish_conn
    → Orderly s t
same_slots s t log e v w p = record {
  log = log;
  appended = e;
  voice_closed = rw v (Closed-refl s.voice_conn log);
  watch_closed = rw w (Closed-refl s.stream_watch_conn log);
  publish_closed = rw p (Closed-refl s.stream_publish_conn log);
}

pub emit-Orderly : (s : AppState) (log : List Effect) → Orderly s (emit s log)
emit-Orderly s log = same_slots s (emit s log) log refl refl refl refl

shut_slot : (slot : Option ℕ) → Closed slot none (shutdowns slot)
unfolding shuts
shut_slot none = tt
shut_slot (some conn) = inr (ground arith)

pub clear_voice_connection-Orderly : (s : AppState) → Orderly s (clear_voice_connection s)
unfolding clear_voice_connection
clear_voice_connection-Orderly s = record {
  log = shutdowns s.voice_conn;
  appended = refl;
  voice_closed = shut_slot s.voice_conn;
  watch_closed = Closed-refl s.stream_watch_conn _;
  publish_closed = Closed-refl s.stream_publish_conn _;
}

pub clear_stream_watch_connection-Orderly :
    (s : AppState) → Orderly s (clear_stream_watch_connection s)
unfolding clear_stream_watch_connection
clear_stream_watch_connection-Orderly s = record {
  log = shutdowns s.stream_watch_conn;
  appended = refl;
  voice_closed = Closed-refl s.voice_conn _;
  watch_closed = shut_slot s.stream_watch_conn;
  publish_closed = Closed-refl s.stream_publish_conn _;
}

pub clear_stream_publish_connection-Orderly :
    (s : AppState) → Orderly s (clear_stream_publish_connection s)
unfolding clear_stream_publish_connection
clear_stream_publish_connection-Orderly s = record {
  log = shutdowns s.stream_publish_conn;
  appended = refl;
  voice_closed = Closed-refl s.voice_conn _;
  watch_closed = Closed-refl s.stream_watch_conn _;
  publish_closed = shut_slot s.stream_publish_conn;
}

schedule_at-Orderly :
    (guild channel : Option ℕ) (s : AppState) (now : ℕ) (reason : String)
    → Orderly s (schedule_at guild channel s now reason)
schedule_at-Orderly none channel s now reason = Orderly-refl s
schedule_at-Orderly (some guild) none s now reason = Orderly-refl s
schedule_at-Orderly (some guild) (some channel) s now reason = same_slots s _ _ refl refl refl refl

pub schedule_reconnect-Orderly :
    (s : AppState) (now : ℕ) (reason : String) → Orderly s (schedule_reconnect s now reason)
unfolding schedule_reconnect
schedule_reconnect-Orderly s now reason = schedule_at-Orderly s.guild_id s.channel_id s now reason

pub clear_transport_runtime_state-Orderly :
    (s : AppState) → Orderly s (clear_transport_runtime_state s)
unfolding clear_transport_runtime_state
clear_transport_runtime_state-Orderly s = same_slots s _ [] (sym (append-nil s.out)) refl refl refl

pub remove_user_runtime_state-Orderly :
    (s : AppState) (user_id : ℕ) → Orderly s (remove_user_runtime_state s user_id)
unfolding remove_user_runtime_state
remove_user_runtime_state-Orderly s user_id = same_slots s _ _ refl refl refl refl

pub stop_stream_publish_runtime-Orderly : (s : AppState) → Orderly s (stop_stream_publish_runtime s)
unfolding stop_stream_publish_runtime
stop_stream_publish_runtime-Orderly s = same_slots s _ _ refl refl refl refl

pub handle_disconnected-Orderly :
    (s : AppState) (now : ℕ) (reason : String) → Orderly s (handle_disconnected s now reason)
unfolding handle_disconnected
handle_disconnected-Orderly s now reason =
    let told = emit s (
      error voice_runtime_error
      ∷ connection_state "disconnected"
      ∷ transport_state voice "disconnected" (some reason)
      ∷ []) in
    let stopped =
      emit
        (record told {
          music = (Music.reset s.music).1;
          stream_publish = (Publish.reset s.stream_publish).1;
          music_pcm = [];
        })
        (stops stop_music_player (Music.reset s.music).0
          ++ stops stop_publish_player (Publish.reset s.stream_publish).0) in
    let no_voice = clear_voice_connection stopped in
    let no_publish = clear_stream_publish_connection no_voice in
    Orderly-trans (same_slots s told _ refl refl refl refl) (
      Orderly-trans (same_slots told stopped _ refl refl refl refl) (
        Orderly-trans (clear_voice_connection-Orderly stopped) (
          Orderly-trans (clear_stream_publish_connection-Orderly no_voice) (
            Orderly-trans (clear_transport_runtime_state-Orderly no_publish)
              (schedule_reconnect-Orderly (clear_transport_runtime_state no_publish) now reason)))))
