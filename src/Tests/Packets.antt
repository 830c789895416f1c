-- ===== src/Tests/Packets.antt =====
-- The properties of the packet formats and of the depacketizers at concrete inputs.
use clankvox.Base.{
  ℕ, true, false, Option, none, some, List, [], ◌∷◌, ◌++◌, ◌≡◌, ◌⊎◌, refl, arith, length, All,
}
use clankvox.Base.Outcome.{ok}
use clankvox.Rtp.{ParsedHeader, parse_rtp_header, strip_rtp_padding, h264}
use clankvox.Rtp.Wire.{WireHeader, encode, parse_rtp_header-encode}
use clankvox.Rtp.Bounds.{IsInPacket, parse_rtp_header_bounds}
use clankvox.Rtp.Strip.{strip_rtp_padding-padded}
use clankvox.AnnexB.{split_h264_annexb_nalus, split_from}
use clankvox.AnnexB.Scan.{has_001}
use clankvox.AnnexB.Split.{annexb, IsUnit, split-annexb, split_from_fuel, split-IsUnit}
use clankvox.H264.{Frame}
use clankvox.Depacketizers.{VideoDepacketizerState, VideoDepacketizers, push, push_ssrc}
use clankvox.Depacketizers.Gap.{forget, push_after_gap, Stored, AllBounded, push_ssrc_returns}

abbrev wire : WireHeader
wire = record {
  padding = true;
  marker = true;
  payload_type = 103;
  sequence = 4660;
  timestamp = 90000;
  ssrc = 7;
  csrcs = 1 ∷ 2 ∷ [];
  extension = some (48862, 3 ∷ []);
}

parse_rtp_header-encode_example :
    parse_rtp_header (encode wire ++ (9 ∷ []))
    ≡ ok (some (4660, 90000, 7, length (encode wire), true))
parse_rtp_header-encode_example = parse_rtp_header-encode wire (9 ∷ []) (omega arith)

abbrev audio_packet : List ℕ
audio_packet = 128 ∷ 120 ∷ 0 ∷ 1 ∷ 0 ∷ 0 ∷ 3 ∷ 192 ∷ 0 ∷ 0 ∷ 0 ∷ 7 ∷ 55 ∷ []

parse_rtp_header_bounds_example :
    (parse_rtp_header audio_packet ≡ ok none)
    ⊎ ((p : ParsedHeader) × (parse_rtp_header audio_packet ≡ ok (some p))
        × IsInPacket audio_packet p)
parse_rtp_header_bounds_example = parse_rtp_header_bounds audio_packet (omega arith)

strip_rtp_padding-padded_example :
    strip_rtp_padding (160 ∷ []) ((5 ∷ 6 ∷ []) ++ ((0 ∷ 0 ∷ []) ++ (3 ∷ []))) ≡ ok (5 ∷ 6 ∷ [])
strip_rtp_padding-padded_example =
    strip_rtp_padding-padded (160 ∷ []) (5 ∷ 6 ∷ []) (0 ∷ 0 ∷ []) (omega arith) refl

abbrev video_prefix : List ℕ
video_prefix = 144 ∷ 103 ∷ 0 ∷ 1 ∷ 0 ∷ 0 ∷ 3 ∷ 192 ∷ 0 ∷ 0 ∷ 0 ∷ 7 ∷ 190 ∷ 222 ∷ 0 ∷ 1 ∷ []

abbrev two_nals : List (List ℕ)
two_nals = (103 ∷ 66 ∷ []) ∷ (101 ∷ 0 ∷ 0 ∷ 3 ∷ 1 ∷ []) ∷ []

two_nals-IsUnit : All IsUnit two_nals
unfolding has_001
two_nals-IsUnit = (
  record { not_empty = omega arith; no_start_code = refl },
  (record { not_empty = omega arith; no_start_code = refl }, tt),
)

split-annexb_example : split_h264_annexb_nalus (annexb two_nals) ≡ two_nals
split-annexb_example = split-annexb two_nals two_nals-IsUnit

split_from_fuel_example : split_from 20 (annexb two_nals) 0 ≡ split_from 30 (annexb two_nals) 0
split_from_fuel_example = split_from_fuel 20 30 (annexb two_nals) 0 (omega arith) (omega arith)

split-IsUnit_example : All IsUnit (split_h264_annexb_nalus (0 ∷ 0 ∷ 1 ∷ 0 ∷ 0 ∷ 1 ∷ 101 ∷ []))
split-IsUnit_example = split-IsUnit (0 ∷ 0 ∷ 1 ∷ 0 ∷ 0 ∷ 1 ∷ 101 ∷ [])

-- In the middle of a frame, after packet 65535.
abbrev mid_frame : VideoDepacketizerState
mid_frame = record {
  codec = h264;
  last_sequence = some 65535;
  h264_state = record {
    timestamp = some 90000;
    buffer = 0 ∷ 0 ∷ 0 ∷ 1 ∷ 101 ∷ 7 ∷ [];
    keyframe = true;
    in_fu = true;
    cached_sps = some (103 ∷ 66 ∷ []);
    cached_pps = none;
  };
  vp8_state = record {
    timestamp = none;
    buffer = [];
    keyframe = false;
    saw_partition_start = false;
  };
}

push_after_gap_example :
    push mid_frame 1 90000 true (124 ∷ 69 ∷ 8 ∷ [])
    ≡ push (forget mid_frame) 1 90000 true (124 ∷ 69 ∷ 8 ∷ [])
push_after_gap_example =
    push_after_gap mid_frame 65535 1 90000 true (124 ∷ 69 ∷ 8 ∷ []) refl (λ e. omega arith)

abbrev no_states : VideoDepacketizers
no_states ssrc = none

no_states-AllBounded : AllBounded no_states
no_states-AllBounded ssrc s e = ground arith

push_ssrc_returns_example :
    (frame : Option Frame) × (after : VideoDepacketizers) × (push_ssrc no_states 7 h264 1 90000 true
        (101 ∷ 9 ∷ [])
      ≡ ok (frame, after))
    × Stored no_states 7 frame after
push_ssrc_returns_example =
    push_ssrc_returns no_states 7 h264 1 90000 true (101 ∷ 9 ∷ []) no_states-AllBounded
