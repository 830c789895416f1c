-- ===== src/Rtp/Pure.antt =====
-- src/rtp.rs: the functions that index bytes, beside total functions of the same bytes.
use mathlib.Core.Option
use clankvox.Base.{
  ℕ, ◌+◌, ◌-◌, ◌*◌, ◌%◌, ◌<◌, not, ◌||◌, Option, none, some, List, [], ◌∷◌, ◌≡◌, inl, inr, arith,
  ltb, leb, ◌==◌, if◌then◌else◌, length, take, drop, get_or, is_empty, Bool-cases,
}
use clankvox.Base.Bytes.{bit7, bit5, bit4, of_u16_be, of_u32_be}
use clankvox.Base.Outcome.{ok, index_in_range, slice_from_in_range}
use clankvox.Rtp.{
  ParsedHeader, rtp_header_len, parse_rtp_header, extension_end, strip_rtp_padding,
  strip_rtp_extension_payload,
}

abbrev pub byte : List ℕ → ℕ → ℕ
byte xs i = get_or xs i 0

abbrev pub csrc_end : List ℕ → ℕ
csrc_end xs = rtp_header_len + byte xs 0 % 16 * 4

-- the bytes that the extension takes, its four-byte prefix included
abbrev pub extension_size : List ℕ → ℕ → ℕ
extension_size xs at = 4 + of_u16_be (byte xs (at + 2)) (byte xs (at + 3)) * 4

unfoldable pub header_size : List ℕ → Option ℕ
header_size xs =
    if ltb (length xs) rtp_header_len
    then none
    else if ltb (length xs) (csrc_end xs)
    then none
    else if bit4 (byte xs 0)
    then if ltb (length xs) (csrc_end xs + 4)
      then none
      else if ltb (length xs) (csrc_end xs + extension_size xs (csrc_end xs))
      then none
      else some (csrc_end xs + extension_size xs (csrc_end xs))
    else some (csrc_end xs)

abbrev pub header_of : List ℕ → ℕ → ParsedHeader
header_of xs total = (
  of_u16_be (byte xs 2) (byte xs 3),
  of_u32_be (byte xs 4) (byte xs 5) (byte xs 6) (byte xs 7),
  of_u32_be (byte xs 8) (byte xs 9) (byte xs 10) (byte xs 11),
  total,
  bit7 (byte xs 1),
)

extension_end_pure :
    (xs : List ℕ) (at : ℕ)
    → extension_end xs at
      ≡ ok (
          if ltb (length xs) (at + 4)
          then none
          else if ltb (length xs) (at + extension_size xs at)
          then none
          else some (at + extension_size xs at))
unfolding extension_end
extension_end_pure xs at = ground (arith, index_in_range xs (at + 2), index_in_range xs (at + 3))

pub parse_rtp_header_pure :
    (xs : List ℕ) → parse_rtp_header xs ≡ ok (Option.map (header_of xs) (header_size xs))
unfolding parse_rtp_header header_size
parse_rtp_header_pure xs = elim (Bool-cases (ltb (length xs) 12)) [
  | inl short ↦ rw short
  | inr long ↦
      let at = λ (i : ℕ) (h : i < 12). index_in_range xs i (ground arith) in
      rw
        (
          long,
          at 0 (omega arith),
          at 1 (omega arith),
          at 2 (omega arith),
          at 3 (omega arith),
          at 4 (omega arith),
          at 5 (omega arith),
          at 6 (omega arith),
          at 7 (omega arith),
          at 8 (omega arith),
          at 9 (omega arith),
          at 10 (omega arith),
          at 11 (omega arith),
        )
        (ground (arith, extension_end_pure xs (csrc_end xs)))
]

-- The padding that the last byte announces is removed if it is a possible count.
abbrev pub without_padding : List ℕ → List ℕ → List ℕ
without_padding packet payload =
    if not (bit5 (byte packet 0)) || is_empty payload
    then payload
    else if byte payload (length payload - 1) == 0
        || ltb (length payload) (byte payload (length payload - 1))
    then payload
    else take (length payload - byte payload (length payload - 1)) payload

pub strip_rtp_padding_pure :
    (packet payload : List ℕ)
    → 0 < length packet
    → strip_rtp_padding packet payload ≡ ok (without_padding packet payload)
unfolding strip_rtp_padding
strip_rtp_padding_pure packet [] h = ground (arith, index_in_range packet 0)
strip_rtp_padding_pure packet (x ∷ xs) h =
    ground (arith, index_in_range packet 0, index_in_range (x ∷ xs) (length (x ∷ xs) - 1))

-- What is left of a payload without the extension body, and the payload itself beside it.
abbrev pub without_extension : List ℕ → List ℕ → Option (List ℕ × Option (List ℕ))
without_extension packet payload =
    if not (bit4 (byte packet 0)) || ltb (length packet) (csrc_end packet + 4)
    then some (payload, none)
    else if leb (length payload)
        (of_u16_be (byte packet (csrc_end packet + 2)) (byte packet (csrc_end packet + 3)) * 4)
    then none
    else some (
      drop (of_u16_be (byte packet (csrc_end packet + 2)) (byte packet (csrc_end packet + 3)) * 4)
          payload,
      some payload,
    )

pub strip_rtp_extension_payload_pure :
    (packet payload : List ℕ)
    → 0 < length packet
    → strip_rtp_extension_payload packet payload ≡ ok (without_extension packet payload)
unfolding strip_rtp_extension_payload
strip_rtp_extension_payload_pure packet payload h = ground (
  arith,
  index_in_range packet 0,
  index_in_range packet (csrc_end packet + 2),
  index_in_range packet (csrc_end packet + 3),
  slice_from_in_range payload
      (of_u16_be (byte packet (csrc_end packet + 2)) (byte packet (csrc_end packet + 3)) * 4),
)
