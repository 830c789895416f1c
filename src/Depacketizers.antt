-- ===== src/Depacketizers.antt =====
-- src/voice_conn.rs: `VideoDepacketizerState` and `VideoDepacketizers`, the depacketizers of each
-- video SSRC behind a check of the sequence numbers.
pub mod Gap
use clankvox.Base.{
  ℕ, ◌+◌, ◌%◌, Bool, true, false, Option, none, some, List, [], ◌∷◌, ◌==◌, if◌then◌else◌,
}
use clankvox.Base.Bytes.{u16_mod}
use clankvox.Base.Outcome.{Outcome, ok, panic, ◌>>=◌}
use clankvox.Rtp.{VideoCodecKind, h264, vp8}
use clankvox.H264
use clankvox.H264.{H264Depacketizer, Frame}
use clankvox.Vp8
use clankvox.Vp8.{Vp8Depacketizer}

pub record VideoDepacketizerState : Type 0 where
  pub codec : VideoCodecKind
  pub last_sequence : Option ℕ
  pub h264_state : H264Depacketizer
  pub vp8_state : Vp8Depacketizer

unfoldable pub new : VideoCodecKind → VideoDepacketizerState
new codec = record {
  codec = codec;
  last_sequence = none;
  h264_state = H264.default;
  vp8_state = Vp8.default;
}

unfoldable pub clear_partial_frame : VideoDepacketizerState → VideoDepacketizerState
clear_partial_frame s = record s {
  h264_state = H264.reset s.h264_state;
  vp8_state = Vp8.reset s.vp8_state;
}

abbrev pub is_gap : Option ℕ → ℕ → Bool
is_gap none sequence = false
is_gap (some previous) sequence = if (previous + 1) % u16_mod == sequence then false else true

-- The `match self.codec`.
unfoldable pub push_codec :
    VideoCodecKind
    → VideoDepacketizerState
    → ℕ
    → Bool
    → List ℕ
    → Outcome (Option Frame × VideoDepacketizerState)
push_codec h264 s timestamp marker payload =
    H264.push s.h264_state timestamp marker payload >>= λ result.
    ok (result.0, record s { h264_state = result.1 })
push_codec vp8 s timestamp marker payload =
    Vp8.push s.vp8_state timestamp marker payload >>= λ result.
    ok (result.0, record s { vp8_state = result.1 })

-- What the sequence check leaves for the codec.
unfoldable pub after_sequence_check : VideoDepacketizerState → ℕ → VideoDepacketizerState
after_sequence_check s sequence =
    record (if is_gap s.last_sequence sequence then clear_partial_frame s else s) {
      last_sequence = some sequence;
    }

unfoldable pub push :
    VideoDepacketizerState → ℕ → ℕ → Bool → List ℕ → Outcome (Option Frame × VideoDepacketizerState)
push s sequence timestamp marker payload =
    let s' = after_sequence_check s sequence in push_codec s'.codec s' timestamp marker payload

-- `by_ssrc`: the state of each SSRC, if it has one.
abbrev pub VideoDepacketizers : Type 0
VideoDepacketizers = ℕ → Option VideoDepacketizerState

abbrev pub same_codec : VideoCodecKind → VideoCodecKind → Bool
same_codec h264 h264 = true
same_codec h264 vp8 = false
same_codec vp8 h264 = false
same_codec vp8 vp8 = true

-- `entry(ssrc).or_insert_with(…)`, and a new state for another codec.
unfoldable pub state_for : VideoDepacketizers → ℕ → VideoCodecKind → VideoDepacketizerState
state_for by_ssrc ssrc codec = elim (by_ssrc ssrc) [
  | none ↦ new codec
  | some s ↦ if same_codec s.codec codec then s else new codec
]

-- The state goes back into the map, in place of the old one.
abbrev pub store :
    VideoDepacketizers
    → ℕ
    → Option Frame × VideoDepacketizerState
    → Outcome (Option Frame × VideoDepacketizers)
store by_ssrc ssrc (frame, s) = ok (frame, λ other. if other == ssrc then some s else by_ssrc other)

unfoldable pub push_ssrc :
    VideoDepacketizers
    → ℕ
    → VideoCodecKind
    → ℕ
    → ℕ
    → Bool
    → List ℕ
    → Outcome (Option Frame × VideoDepacketizers)
push_ssrc by_ssrc ssrc codec sequence timestamp marker payload =
    push (state_for by_ssrc ssrc codec) sequence timestamp marker payload >>= store by_ssrc ssrc

unfoldable pub prepend_cached_h264_params : VideoDepacketizers → ℕ → List ℕ → List ℕ
prepend_cached_h264_params by_ssrc ssrc frame = elim (by_ssrc ssrc) [
  | none ↦ frame
  | some s ↦ H264.prepend_cached_parameter_sets s.h264_state frame
]
