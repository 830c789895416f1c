-- ===== src/Session/Orderly/Connect.antt =====
-- src/connection_supervisor.rs: opening transports, by what it does to the slots.
use Prim.Native.String.{String}
use clankvox.Base.{ℕ, Option, none, some, List, [], ◌≡◌, refl, sym, subst, append-nil}
use clankvox.Session.State.{AppState, Effect}
use clankvox.Session.Clear.{reset_reconnect}
use clankvox.Session.Connect.{
  VoiceConnectionParams, ConnectResult, opened, refused, Attempt, connected, failed,
  already_connected, missing_data, try_slot, voice_params, voice_result, stream_watch_result,
  stream_publish_result, open_voice, open_stream_watch, open_stream_publish, try_connect,
  try_connect_stream_watch, try_connect_stream_publish, apply_connect_outcome, unless_scheduled,
  maybe_try_connect, after_retry, handle_reconnect_timer, put,
}
use clankvox.Session.Orderly.{Orderly, Closed, Closed-refl, Orderly-refl, Orderly-trans}
use clankvox.Session.Orderly.Clear.{same_slots, schedule_reconnect-Orderly}

-- A free slot may be filled.
free_slot :
    {slot : Option ℕ} (after : Option ℕ) (log : List Effect) → slot ≡ none → Closed slot after log
free_slot after log e = subst (λ before. Closed before after log) (sym e) tt

voice_result-Orderly :
    (s : AppState) (manager : Option ℕ) (r : ConnectResult)
    → s.voice_conn ≡ none
    → Orderly s (voice_result (record s { dave = manager }) r).1
voice_result-Orderly s manager (opened conn) free = record {
  log = [];
  appended = sym (append-nil s.out);
  voice_closed = free_slot (some conn) [] free;
  watch_closed = Closed-refl s.stream_watch_conn [];
  publish_closed = Closed-refl s.stream_publish_conn [];
}
voice_result-Orderly s manager (refused text) free = same_slots s _ _ refl refl refl refl

stream_watch_result-Orderly :
    (s : AppState) (manager : Option ℕ) (r : ConnectResult)
    → s.stream_watch_conn ≡ none
    → Orderly s (stream_watch_result (record s { stream_watch_dave = manager }) r).1
stream_watch_result-Orderly s manager (opened conn) free = record {
  log = [];
  appended = sym (append-nil s.out);
  voice_closed = Closed-refl s.voice_conn [];
  watch_closed = free_slot (some conn) [] free;
  publish_closed = Closed-refl s.stream_publish_conn [];
}
stream_watch_result-Orderly s manager (refused text) free = same_slots s _ _ refl refl refl refl

stream_publish_result-Orderly :
    (s : AppState) (manager : Option ℕ) (r : ConnectResult)
    → s.stream_publish_conn ≡ none
    → Orderly s (stream_publish_result (record s { stream_publish_dave = manager }) r).1
stream_publish_result-Orderly s manager (opened conn) free = record {
  log = [];
  appended = sym (append-nil s.out);
  voice_closed = Closed-refl s.voice_conn [];
  watch_closed = Closed-refl s.stream_watch_conn [];
  publish_closed = free_slot (some conn) [] free;
}
stream_publish_result-Orderly s manager (refused text) free = same_slots s _ _ refl refl refl refl

-- `try_slot` opens only in a free slot.
try_slot-Orderly :
    (slot : Option ℕ) (params : Option VoiceConnectionParams)
    (opening : AppState → VoiceConnectionParams → Attempt) (s : AppState)
    → ((p : VoiceConnectionParams) → slot ≡ none → Orderly s (opening s p).1)
    → Orderly s (try_slot slot params opening s).1
try_slot-Orderly (some conn) params opening s h = Orderly-refl s
try_slot-Orderly none none opening s h = Orderly-refl s
try_slot-Orderly none (some p) opening s h = h p refl

apply_connect_outcome-Orderly :
    (s : AppState) (now : ℕ) (reason : String) (a : Attempt)
    → Orderly s a.1
    → Orderly s (apply_connect_outcome now reason a)
unfolding apply_connect_outcome reset_reconnect
apply_connect_outcome-Orderly s now reason (connected, t) h =
    Orderly-trans h (same_slots t (reset_reconnect t) [] (sym (append-nil t.out)) refl refl refl)
apply_connect_outcome-Orderly s now reason (failed, t) h =
    Orderly-trans h (schedule_reconnect-Orderly t now reason)
apply_connect_outcome-Orderly s now reason (already_connected, t) h = h
apply_connect_outcome-Orderly s now reason (missing_data, t) h = h

after_retry-Orderly :
    (s : AppState) (now : ℕ) (a : Attempt) → Orderly s a.1 → Orderly s (after_retry now a)
after_retry-Orderly s now (connected, t) h =
    Orderly-trans h
      (same_slots t (record t { reconnect_attempt = 0 }) [] (sym (append-nil t.out)) refl refl refl)
after_retry-Orderly s now (already_connected, t) h =
    Orderly-trans h
      (same_slots t (record t { reconnect_attempt = 0 }) [] (sym (append-nil t.out)) refl refl refl)
after_retry-Orderly s now (failed, t) h =
    Orderly-trans h (schedule_reconnect-Orderly t now "reconnect_retry")
after_retry-Orderly s now (missing_data, t) h =
    Orderly-trans h (schedule_reconnect-Orderly t now "reconnect_retry")

unless_scheduled-Orderly :
    (deadline : Option ℕ) (s t : AppState) → Orderly s t → Orderly s (unless_scheduled deadline s t)
unless_scheduled-Orderly (some deadline) s t h = Orderly-refl s
unless_scheduled-Orderly none s t h = h

module _ (connect : VoiceConnectionParams → Option ℕ × ConnectResult) where
  try_connect-Orderly : (s : AppState) → Orderly s (try_connect connect s).1
  unfolding try_connect
  try_connect-Orderly s =
      try_slot-Orderly s.voice_conn (voice_params s) (open_voice connect) s
        (λ p. voice_result-Orderly s (put (connect p).0 s.dave) (connect p).1)

  pub try_connect_stream_watch-Orderly :
      (s : AppState) → Orderly s (try_connect_stream_watch connect s).1
  unfolding try_connect_stream_watch
  try_connect_stream_watch-Orderly s =
      try_slot-Orderly s.stream_watch_conn _ (open_stream_watch connect) s
        (λ p. stream_watch_result-Orderly s (put (connect p).0 s.stream_watch_dave) (connect p).1)

  pub try_connect_stream_publish-Orderly :
      (s : AppState) → Orderly s (try_connect_stream_publish connect s).1
  unfolding try_connect_stream_publish
  try_connect_stream_publish-Orderly s =
      try_slot-Orderly s.stream_publish_conn _ (open_stream_publish connect) s (λ p.
        stream_publish_result-Orderly s (put (connect p).0 s.stream_publish_dave) (connect p).1)

  pub maybe_try_connect-Orderly :
      (s : AppState) (now : ℕ) (reason : String)
      → Orderly s (maybe_try_connect connect s now reason)
  unfolding maybe_try_connect
  maybe_try_connect-Orderly s now reason =
      unless_scheduled-Orderly s.reconnect_deadline s _
        (apply_connect_outcome-Orderly s now reason (try_connect connect s) (try_connect-Orderly s))

  pub handle_reconnect_timer-Orderly :
      (s : AppState) (now : ℕ) → Orderly s (handle_reconnect_timer connect s now)
  unfolding handle_reconnect_timer
  handle_reconnect_timer-Orderly s now =
      let t = record s { reconnect_deadline = none } in
      after_retry-Orderly s now (try_connect connect t) (
        Orderly-trans (same_slots s t [] (sym (append-nil s.out)) refl refl refl)
          (try_connect-Orderly t))
