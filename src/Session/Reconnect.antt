-- ===== src/Session/Reconnect.antt =====
-- src/connection_supervisor.rs, `handle_reconnect_timer`: the retry loop of the primary transport.
use Prim.Native.String.{String}
use clankvox.Base.{
  ℕ, zero, suc, ◌+◌, ◌-◌, ◌*◌, ◌^◌, ◌≤◌, min, true, Option, none, some, ◌≡◌, refl, ◌∙◌, ap, ◌⊎◌,
  inl, inr, arith, is_some,
}
use clankvox.Session.State.{AppState}
use clankvox.Session.Clear.{schedule_at, schedule_reconnect, saturating_suc, backoff_ms}
use clankvox.Session.Connect.{
  VoiceConnectionParams, ConnectResult, opened, refused, Attempt, connected, failed,
  already_connected, missing_data, try_slot, voice_params, voice_result, open_voice, try_connect,
  after_retry, handle_reconnect_timer, put,
}

small_shift : (k : ℕ) → k ≤ 4 → (1000 ≤ 1000 * 2 ^ k) × (1000 * 2 ^ k ≤ 16000)
small_shift zero h = omega arith
small_shift (suc zero) h = omega arith
small_shift (suc (suc zero)) h = omega arith
small_shift (suc (suc (suc zero))) h = omega arith
small_shift (suc (suc (suc (suc zero)))) h = omega arith
small_shift (suc (suc (suc (suc (suc k))))) h = absurd (omega arith)

-- Between one and sixteen seconds.
backoff_range : (attempt : ℕ) → (1000 ≤ backoff_ms attempt) × (backoff_ms attempt ≤ 16000)
backoff_range attempt = small_shift (min (attempt - 1) 4) (omega arith)

-- What an attempt that starts without a deadline leaves behind.
abbrev Tried : AppState → Attempt → Type 0
Tried s (connected, t) = (is_some t.voice_conn ≡ true) × (t.reconnect_deadline ≡ none)
Tried s (already_connected, t) = (is_some t.voice_conn ≡ true) × (t.reconnect_deadline ≡ none)
Tried s (failed, t) =
    (t.voice_conn ≡ none)
    × (t.guild_id ≡ s.guild_id)
    × (t.channel_id ≡ s.channel_id)
    × (t.reconnect_attempt ≡ s.reconnect_attempt)
Tried s (missing_data, t) =
    (t.voice_conn ≡ none)
    × (t.guild_id ≡ s.guild_id)
    × (t.channel_id ≡ s.channel_id)
    × (t.reconnect_attempt ≡ s.reconnect_attempt)

try_slot-Tried :
    (connect : VoiceConnectionParams → Option ℕ × ConnectResult) (slot : Option ℕ)
    (params : Option VoiceConnectionParams) (s : AppState)
    → s.voice_conn ≡ slot
    → s.reconnect_deadline ≡ none
    → Tried s (try_slot slot params (open_voice connect) s)
try_slot-Tried connect (some conn) params s e d = (ap is_some e, d)
try_slot-Tried connect none none s e d = (e, refl, refl, refl)
try_slot-Tried connect none (some p) s e d =
    result_Tried s (put (connect p).0 s.dave) (connect p).1 e d
  where
    result_Tried :
        (s : AppState) (manager : Option ℕ) (r : ConnectResult)
        → s.voice_conn ≡ none
        → s.reconnect_deadline ≡ none
        → Tried s (voice_result (record s { dave = manager }) r)
    result_Tried s manager (opened conn) e d = (refl, d)
    result_Tried s manager (refused text) e d = (e, refl, refl, refl)

-- A transport that is up, with no retry pending, or a retry after the exponential backoff.
abbrev pub Retried : AppState → ℕ → AppState → Type 0
Retried s now t =
    ((is_some t.voice_conn ≡ true) × (t.reconnect_deadline ≡ none) × (t.reconnect_attempt ≡ 0))
    ⊎ ((t.voice_conn ≡ none)
        × (t.reconnect_attempt ≡ saturating_suc s.reconnect_attempt)
        × (t.reconnect_deadline ≡ some (now + backoff_ms t.reconnect_attempt))
        × (1000 ≤ backoff_ms t.reconnect_attempt)
        × (backoff_ms t.reconnect_attempt ≤ 16000))

scheduled :
    (s t : AppState) (now : ℕ) (reason : String) (guild channel : Option ℕ)
    → is_some guild ≡ true
    → is_some channel ≡ true
    → t.voice_conn ≡ none
    → t.reconnect_attempt ≡ s.reconnect_attempt
    → Retried s now (schedule_at guild channel t now reason)
scheduled s t now reason none channel g c v a = absurd (ground arith)
scheduled s t now reason (some guild) none g c v a = absurd (ground arith)
scheduled s t now reason (some guild) (some channel) g c v a = inr (
  v,
  ap saturating_suc a,
  refl,
  (backoff_range (saturating_suc t.reconnect_attempt)).0,
  (backoff_range (saturating_suc t.reconnect_attempt)).1,
)

after_retry-Retried :
    (s : AppState) (now : ℕ) (a : Attempt)
    → is_some s.guild_id ≡ true
    → is_some s.channel_id ≡ true
    → Tried s a
    → Retried s now (after_retry now a)
unfolding schedule_reconnect
after_retry-Retried s now (connected, t) g c (v, d) = inl (v, d, refl)
after_retry-Retried s now (already_connected, t) g c (v, d) = inl (v, d, refl)
after_retry-Retried s now (failed, t) g c (v, eg, ec, a) =
    scheduled s t now "reconnect_retry" t.guild_id t.channel_id (ap is_some eg ∙ g)
      (ap is_some ec ∙ c) v a
after_retry-Retried s now (missing_data, t) g c (v, eg, ec, a) =
    scheduled s t now "reconnect_retry" t.guild_id t.channel_id (ap is_some eg ∙ g)
      (ap is_some ec ∙ c) v a

-- Once a guild and a channel are known, a retry never gets stuck, whatever the connection attempt comes
-- to: afterwards the transport is up, the attempts count from 0 and no retry is pending, or it is down,
-- the attempt is counted and the next retry is due after the exponential
-- backoff, between one and sixteen seconds.
pub handle_reconnect_timer_lem :
    (connect : VoiceConnectionParams → Option ℕ × ConnectResult) (s : AppState) (now : ℕ)
    → is_some s.guild_id ≡ true
    → is_some s.channel_id ≡ true
    → Retried s now (handle_reconnect_timer connect s now)
unfolding handle_reconnect_timer try_connect
handle_reconnect_timer_lem connect s now g c =
    let t = record s { reconnect_deadline = none } in
    after_retry-Retried s now (try_connect connect t) g c
      (try_slot-Tried connect s.voice_conn (voice_params t) t refl refl)
