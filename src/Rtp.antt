-- ===== src/Rtp.antt =====
-- src/rtp.rs: RTP headers, padding and header extensions. Every `data[i]` and `&data[a..b]` is an
-- operation that may panic; a `Some` or `None` of the code is an `Option` inside.
pub mod Pure
pub mod Wire
pub mod Bounds
pub mod Strip
use mathlib.Core.Option
use clankvox.Base.{
  ℕ, ◌+◌, ◌-◌, ◌*◌, ◌/◌, ◌%◌, Bool, true, false, not, ◌||◌, Option, none, some, List, [], ◌∷◌, ◌++◌,
  ltb, leb, ◌==◌, if◌then◌else◌, length, take, is_empty,
}
use clankvox.Base.Bytes.{bit7, bit5, bit4, or_0x80, u16_be, u32_be, of_u16_be, of_u32_be}
use clankvox.Base.Outcome.{Outcome, ok, panic, ◌>>=◌, index, slice_from}

abbrev pub rtp_header_len : ℕ
rtp_header_len = 12

abbrev pub opus_pt : ℕ
opus_pt = 0x78

abbrev pub h264_pt : ℕ
h264_pt = 103

abbrev pub h264_rtx_pt : ℕ
h264_rtx_pt = 104

abbrev pub vp8_pt : ℕ
vp8_pt = 105

abbrev pub vp8_rtx_pt : ℕ
vp8_rtx_pt = 106

abbrev pub video_rtp_extension_header : List ℕ
video_rtp_extension_header = 0xbe ∷ 0xde ∷ 0x00 ∷ 0x01 ∷ []

abbrev pub video_rtp_extension_payload : List ℕ
video_rtp_extension_payload = 0x51 ∷ 0x00 ∷ 0x00 ∷ 0x00 ∷ []

abbrev pub max_video_rtp_chunk_bytes : ℕ
max_video_rtp_chunk_bytes = 1100

pub data VideoCodecKind : Type 0 where
  h264 vp8 : VideoCodecKind

unfoldable pub payload_type : VideoCodecKind → ℕ
payload_type h264 = h264_pt
payload_type vp8 = vp8_pt

unfoldable pub rtx_payload_type : VideoCodecKind → ℕ
rtx_payload_type h264 = h264_rtx_pt
rtx_payload_type vp8 = vp8_rtx_pt

unfoldable pub from_payload_type : ℕ → Option VideoCodecKind
from_payload_type pt = if pt == h264_pt then some h264 else if pt == vp8_pt then some vp8 else none

unfoldable pub is_rtx_payload_type : ℕ → Bool
is_rtx_payload_type pt = pt == h264_rtx_pt || pt == vp8_rtx_pt

-- Sequence numbers are u16, timestamps and SSRCs u32: `to_be_bytes` keeps that many bits.
unfoldable pub build_rtp_header : ℕ → ℕ → ℕ → List ℕ
build_rtp_header sequence timestamp ssrc =
    0x80 ∷ opus_pt ∷ (u16_be sequence ++ (u32_be timestamp ++ u32_be ssrc))

unfoldable pub build_video_rtp_header : ℕ → ℕ → ℕ → ℕ → Bool → List ℕ
build_video_rtp_header pt sequence timestamp ssrc marker =
    0x90
    ∷ (if marker then or_0x80 pt else pt)
    ∷ (u16_be sequence ++ (u32_be timestamp ++ u32_be ssrc))

-- (sequence, timestamp, ssrc, header_size, marker)
abbrev pub ParsedHeader : Type 0
ParsedHeader = ℕ × ℕ × ℕ × ℕ × Bool

-- The end of the header with its extension words, the `if has_ext` block of `parse_rtp_header`.
unfoldable pub extension_end : List ℕ → ℕ → Outcome (Option ℕ)
extension_end bytes header_size = if ltb (length bytes) (header_size + 4) then ok none else do
  e0 ← index bytes (header_size + 2)
  e1 ← index bytes (header_size + 3)
  let full_size = header_size + (4 + of_u16_be e0 e1 * 4)
  ok (if ltb (length bytes) full_size then none else some full_size)

unfoldable pub parse_rtp_header : List ℕ → Outcome (Option ParsedHeader)
parse_rtp_header bytes = if ltb (length bytes) rtp_header_len then ok none else do
  b0 ← index bytes 0
  b2 ← index bytes 2
  b3 ← index bytes 3
  b4 ← index bytes 4
  b5 ← index bytes 5
  b6 ← index bytes 6
  b7 ← index bytes 7
  b8 ← index bytes 8
  b9 ← index bytes 9
  b10 ← index bytes 10
  b11 ← index bytes 11
  b1 ← index bytes 1
  let header_size = rtp_header_len + b0 % 16 * 4
  size ←
      (if ltb (length bytes) header_size
        then ok none
        else if bit4 b0
        then extension_end bytes header_size
        else ok (some header_size))
  ok (
      Option.map
        (λ total. (of_u16_be b2 b3, of_u32_be b4 b5 b6 b7, of_u32_be b8 b9 b10 b11, total, bit7 b1))
        size)

unfoldable pub strip_rtp_padding : List ℕ → List ℕ → Outcome (List ℕ)
strip_rtp_padding packet decrypted = do
  b0 ← index packet 0
  let has_padding = bit5 b0
  if not has_padding || is_empty decrypted then ok decrypted else do
    pad_len ← index decrypted (length decrypted - 1)
    if pad_len == 0 || ltb (length decrypted) pad_len
        then ok decrypted
        else ok (take (length decrypted - pad_len) decrypted)

-- The profile bytes are read for a log line only.
unfoldable pub strip_rtp_extension_payload :
    List ℕ → List ℕ → Outcome (Option (List ℕ × Option (List ℕ)))
strip_rtp_extension_payload packet decrypted = do
  b0 ← index packet 0
  let cc = b0 % 16
  let aad_size = rtp_header_len + cc * 4
  let has_ext = bit4 b0
  if not has_ext || ltb (length packet) (aad_size + 4) then ok (some (decrypted, none)) else do
    e0 ← index packet (aad_size + 2)
    e1 ← index packet (aad_size + 3)
    let ext_len = of_u16_be e0 e1
    let extension_bytes = ext_len * 4
    if leb (length decrypted) extension_bytes then ok none else do
      stripped ← slice_from decrypted extension_bytes
      ok (some (stripped, some decrypted))
