-- ===== src/Capture/Sequence.antt =====
-- src/capture_supervisor.rs: `classify_rtp_sequence` by the distance between two packets.
use clankvox.Base.{ℕ, ◌+◌, ◌-◌, ◌%◌, ◌<◌, some, ◌≡◌, arith, leb, ◌==◌, if◌then◌else◌}
use clankvox.Base.Bytes.{u16_mod}
use clankvox.Capture.{
  RtpSeqClass, classify_rtp_sequence, sequential, forward_loss, forward_large, duplicate, stale,
}

-- The class of the packet that was sent `d` packets after the last accepted one.
abbrev pub class_of : ℕ → RtpSeqClass
class_of d =
    if d == 0
    then duplicate
    else if d == 1
    then sequential
    else if leb d 6
    then forward_loss (d - 1)
    else if leb d 32768
    then forward_large
    else stale

-- For a packet `d` places after the last accepted one, modulo 2^16, the class depends on `d` alone, also
-- where the sequence number wraps: 0 is a duplicate, 1 the next packet, 2 to 6 a loss of `d - 1` packets,
-- up to 32768 a gap too large to conceal, and everything behind that stale.
pub classify_rtp_sequence_lem :
    (prev d : ℕ)
    → prev < u16_mod
    → d < u16_mod
    → classify_rtp_sequence (some prev) ((prev + d) % u16_mod) ≡ class_of d
unfolding classify_rtp_sequence
classify_rtp_sequence_lem prev d h k = ground arith
