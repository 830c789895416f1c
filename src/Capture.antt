-- ===== src/Capture.antt =====
-- src/capture.rs and src/capture_supervisor.rs: RTP sequence numbers of an audio stream, and who
-- speaks. Instants are milliseconds; `duration_since` stops at 0.
pub mod Sequence
pub mod Tick
use clankvox.Base.{
  ℕ, ◌+◌, ◌-◌, ◌%◌, min, max, Bool, true, false, Option, none, some, List, [], ◌∷◌, ◌++◌, ltb, leb,
  ◌==◌, ◌&&◌, if◌then◌else◌,
}
use clankvox.Base.Bytes.{u16_mod}
use clankvox.Session.State.{SpeakingState, UserCaptureState, Effect, speaking_end, user_audio_end}

abbrev pub speaking_timeout_ms : ℕ
speaking_timeout_ms = 100

abbrev pub max_recoverable_gap : ℕ
max_recoverable_gap = 5

-- `clamp`
abbrev clamp : ℕ → ℕ → ℕ → ℕ
clamp x low high = min (max x low) high

unfoldable pub normalize_sample_rate : ℕ → ℕ
normalize_sample_rate sample_rate = clamp sample_rate 8000 48000

unfoldable pub normalize_silence_duration_ms : ℕ → ℕ
normalize_silence_duration_ms duration_ms = clamp duration_ms 100 5000

unfoldable pub new : ℕ → ℕ → UserCaptureState
new sample_rate silence_duration_ms = record {
  sample_rate = normalize_sample_rate sample_rate;
  silence_duration_ms = normalize_silence_duration_ms silence_duration_ms;
  stream_active = false;
  last_audio_at = none;
}

unfoldable pub touch_audio : UserCaptureState → ℕ → UserCaptureState
touch_audio s now = record s { stream_active = true; last_audio_at = some now }

pub data RtpSeqClass : Type 0 where
  first sequential : RtpSeqClass
  forward_loss : ℕ → RtpSeqClass
  forward_large duplicate stale : RtpSeqClass

-- `wrapping_sub` of two u16, whose cast to i16 is negative from 2^15 on.
abbrev pub wrapping_sub : ℕ → ℕ → ℕ
wrapping_sub a b = (a + (u16_mod - b)) % u16_mod

unfoldable pub classify_rtp_sequence : Option ℕ → ℕ → RtpSeqClass
classify_rtp_sequence none incoming = first
classify_rtp_sequence (some prev) incoming =
    let expected = (prev + 1) % u16_mod in
    let distance = wrapping_sub incoming expected in
    let positive = ltb 0 distance && ltb distance 32768 in
    if incoming == expected
    then sequential
    else if incoming == prev
    then duplicate
    else if positive && leb distance max_recoverable_gap
    then forward_loss distance
    else if positive && ltb max_recoverable_gap distance
    then forward_large
    else stale

-- The entry of one user; `true` when the user starts to speak.
unfoldable pub update_speaking_state : Option SpeakingState → ℕ → Bool × SpeakingState
update_speaking_state none now = (true, record { last_packet_at = some now; is_speaking = true })
update_speaking_state (some speaking) now =
    if speaking.is_speaking
    then (false, record speaking { last_packet_at = some now })
    else (true, record { last_packet_at = some now; is_speaking = true })

-- One entry of the first loop of `on_capture_tick`; `true` when the user stops to speak.
unfoldable pub tick_speaking : ℕ → SpeakingState → Bool × SpeakingState
tick_speaking now state = elim state.last_packet_at [
  | none ↦ (false, state)
  | some last_at ↦
      if state.is_speaking
      then if leb speaking_timeout_ms (now - last_at)
        then (true, record state { is_speaking = false })
        else (false, state)
      else (false, state)
]

-- One entry of the second loop; `true` when the user's audio ends.
unfoldable pub tick_capture : ℕ → UserCaptureState → Bool × UserCaptureState
tick_capture now state = elim state.last_audio_at [
  | none ↦ (false, if state.stream_active then record state { last_audio_at = some now } else state)
  | some last_audio_at ↦
      if state.stream_active
      then if leb state.silence_duration_ms (now - last_audio_at)
        then (true, record state { stream_active = false; last_audio_at = none })
        else (false, state)
      else (false, state)
]

-- A loop over the entries of a map, in its order, with a message for each entry that ends.
unfoldable pub tick_all {ℓ} :
    {A : Type ℓ} → (A → Bool × A) → (ℕ → Effect) → List (ℕ × A) → List Effect × List (ℕ × A)
tick_all tick ended [] = ([], [])
tick_all tick ended ((user_id, state) ∷ entries) =
    let (stops, state') = tick state in
    let (effects, entries') = tick_all tick ended entries in
    (if stops then ended user_id ∷ effects else effects, (user_id, state') ∷ entries')

unfoldable pub on_capture_tick :
    ℕ
    → List (ℕ × SpeakingState)
    → List (ℕ × UserCaptureState)
    → List Effect × (List (ℕ × SpeakingState) × List (ℕ × UserCaptureState))
on_capture_tick now speaking_states user_capture_states =
    let (ended, speaking) = tick_all (tick_speaking now) speaking_end speaking_states in
    let (silent, captures) = tick_all (tick_capture now) user_audio_end user_capture_states in
    (ended ++ silent, (speaking, captures))
