-- ===== src/Capture/Tick.antt =====
-- src/capture_supervisor.rs: `on_capture_tick` over all users.
use clankvox.Base.{
  ℕ, ◌-◌, ◌<◌, Bool, true, false, none, some, List, [], ◌∷◌, ◌≡◌, arith, leb, ◌&&◌, All,
}
use clankvox.Session.State.{SpeakingState, UserCaptureState, Effect}
use clankvox.Capture.{tick_speaking, tick_capture, tick_all, on_capture_tick}

-- A user who counts as speaking sent a packet less than 100 ms ago, if any is on record.
abbrev pub IsFresh : ℕ → SpeakingState → Type 0
IsFresh now state =
    (state.is_speaking
      && elim state.last_packet_at [ none ↦ false | some last_at ↦ leb 100 (now - last_at) ])
    ≡ false

-- A stream that counts as active had audio less than its silence duration ago.
abbrev pub IsActive : ℕ → UserCaptureState → Type 0
IsActive now state =
    (state.stream_active && elim state.last_audio_at [
      | none ↦ true
      | some last_at ↦ leb state.silence_duration_ms (now - last_at)
    ])
    ≡ false

-- the state of an entry
abbrev pub OfEntry {ℓ} : {A : Type ℓ} → (A → Type 0) → ℕ × A → Type 0
OfEntry P entry = P entry.1

tick_speaking-IsFresh : (now : ℕ) (state : SpeakingState) → IsFresh now (tick_speaking now state).1
unfolding tick_speaking
tick_speaking-IsFresh now state = ground arith

tick_capture-IsActive :
    (now : ℕ) (state : UserCaptureState)
    → 0 < state.silence_duration_ms
    → IsActive now (tick_capture now state).1
unfolding tick_capture
tick_capture-IsActive now state h = ground arith

tick_all-All {ℓ} :
    {A : Type ℓ} (P Q : A → Type 0) (tick : A → Bool × A) (ended : ℕ → Effect)
    → ((a : A) → P a → Q (tick a).1)
    → (entries : List (ℕ × A)) → All (OfEntry P) entries
    → All (OfEntry Q) (tick_all tick ended entries).1
unfolding tick_all
tick_all-All P Q tick ended h [] all = tt
tick_all-All P Q tick ended h ((user_id, a) ∷ entries) all =
    (h a all.0, tick_all-All P Q tick ended h entries all.1)

abbrev HasEntry : SpeakingState → Type 0
HasEntry state = Unit

without_condition : (entries : List (ℕ × SpeakingState)) → All (OfEntry HasEntry) entries
without_condition [] = tt
without_condition (entry ∷ entries) = (tt, without_condition entries)

-- The silence duration of a subscription, which `normalize_silence_duration_ms` keeps above 100 ms.
abbrev pub HasTimeout : UserCaptureState → Type 0
HasTimeout state = 0 < state.silence_duration_ms

-- After a tick, whatever the states before: nobody counts as speaking who has been silent for 100 ms or
-- longer, and no stream counts as active that has been silent for its silence duration or has no last
-- audio on record. The silence durations are positive.
pub on_capture_tick_lem :
    (now : ℕ) (speaking : List (ℕ × SpeakingState)) (captures : List (ℕ × UserCaptureState))
    → All (OfEntry HasTimeout) captures
    → let (effects, after) = on_capture_tick now speaking captures in
      All (OfEntry (IsFresh now)) after.0 × All (OfEntry (IsActive now)) after.1
unfolding on_capture_tick
on_capture_tick_lem now speaking captures h = (
  tick_all-All HasEntry (IsFresh now) (tick_speaking now) _
      (λ state u. tick_speaking-IsFresh now state) speaking (without_condition speaking),
  tick_all-All HasTimeout (IsActive now) (tick_capture now) _ (tick_capture-IsActive now) captures
      h,
)
