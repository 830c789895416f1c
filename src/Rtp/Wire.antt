-- ===== src/Rtp/Wire.antt =====
-- src/rtp.rs: RTP headers as RFC 3550 lays them out, against `parse_rtp_header`.
use clankvox.Base.{
  ℕ, ◌+◌, ◌*◌, ◌<◌, ◌≤◌, Bool, true, false, Option, none, some, List, [], ◌∷◌, ◌++◌, ◌≡◌, refl,
  arith, if◌then◌else◌, length, length-append, get_or-append_right, append_assoc,
}
use clankvox.Base.Bytes.{bit4, u16_be, u32_be, of_u16_be}
use clankvox.Base.Outcome.{ok}
use clankvox.Rtp.{parse_rtp_header}
use clankvox.Rtp.Pure.{byte, csrc_end, header_size, parse_rtp_header_pure}

-- 32-bit words, big-endian
pub words_be : List ℕ → List ℕ
words_be [] = []
words_be (w ∷ ws) = u32_be w ++ words_be ws

pub length-words_be : (ws : List ℕ) → length (words_be ws) ≡ length ws * 4
unfolding words_be
length-words_be [] = omega arith
length-words_be (w ∷ ws) = omega (arith, length-words_be ws)

-- A header with a CSRC list and, optionally, an extension of a profile and some words.
pub record WireHeader : Type 0 where
  pub padding : Bool
  pub marker : Bool
  pub payload_type : ℕ
  pub sequence : ℕ
  pub timestamp : ℕ
  pub ssrc : ℕ
  pub csrcs : List ℕ
  pub extension : Option (ℕ × List ℕ)

abbrev pub flag : Bool → ℕ → ℕ
flag b k = if b then k else 0

abbrev pub extension_words : Option (ℕ × List ℕ) → ℕ
extension_words none = 0
extension_words (some (profile, ws)) = length ws

abbrev pub has_extension : Option (ℕ × List ℕ) → ℕ
has_extension none = 0
has_extension (some _) = 16

abbrev pub fixed_part : WireHeader → List ℕ
fixed_part w =
    (128 + flag w.padding 32 + has_extension w.extension + length w.csrcs)
    ∷ (flag w.marker 128 + w.payload_type)
    ∷ (u16_be w.sequence ++ (u32_be w.timestamp ++ (u32_be w.ssrc ++ words_be w.csrcs)))

abbrev pub extension_part : Option (ℕ × List ℕ) → List ℕ
extension_part none = []
extension_part (some (profile, ws)) = u16_be profile ++ (u16_be (length ws) ++ words_be ws)

pub encode : WireHeader → List ℕ
encode w = fixed_part w ++ extension_part w.extension

pub record IsWireHeader (w : WireHeader) : Type 0 where
  pub payload_type_7_bits : w.payload_type < 128
  pub sequence_16_bits : w.sequence < 65536
  pub timestamp_32_bits : w.timestamp < 4294967296
  pub ssrc_32_bits : w.ssrc < 4294967296
  pub few_csrcs : length w.csrcs < 16
  pub few_words : extension_words w.extension < 65536

header_size-plain :
    (xs : List ℕ) (k : ℕ)
    → csrc_end xs ≡ k
    → bit4 (byte xs 0) ≡ false
    → k ≤ length xs
    → header_size xs ≡ some k
unfolding header_size
header_size-plain xs k c b l = ground arith

header_size-extended :
    (xs : List ℕ) (k n : ℕ)
    → csrc_end xs ≡ k
    → bit4 (byte xs 0) ≡ true
    → of_u16_be (byte xs (k + 2)) (byte xs (k + 3)) ≡ n
    → k + (4 + n * 4) ≤ length xs
    → header_size xs ≡ some (k + (4 + n * 4))
unfolding header_size
header_size-extended xs k n c b e l = rw (c, b, e) (ground arith)

module _ (w : WireHeader) (h : IsWireHeader w) where
  length-fixed_part : length (fixed_part w) ≡ 12 + length w.csrcs * 4
  length-fixed_part = omega (arith, length-words_be w.csrcs)

  byte-after :
      (ys : List ℕ) (i : ℕ) → byte (fixed_part w ++ ys) (12 + length w.csrcs * 4 + i) ≡ byte ys i
  byte-after ys i = rw (← length-fixed_part) (get_or-append_right (fixed_part w) ys i 0)

  header_size-encode :
      (e : Option (ℕ × List ℕ)) (rest : List ℕ)
      → w.extension ≡ e
      → header_size (fixed_part w ++ (extension_part e ++ rest))
        ≡ some (12 + length w.csrcs * 4 + length (extension_part e))
  header_size-encode none rest e =
      rw
        (header_size-plain (fixed_part w ++ rest) (12 + length w.csrcs * 4) (ground arith)
          (ground arith) (omega (arith, length-append (fixed_part w) rest, length-fixed_part)))
        (ground arith)
  header_size-encode (some (profile, ws)) rest e =
      let ys = extension_part (some (profile, ws)) ++ rest in
      rw
        (header_size-extended (fixed_part w ++ ys) (12 + length w.csrcs * 4) (length ws)
          (ground arith) (ground arith) (rw (byte-after ys 2, byte-after ys 3) (ground arith))
          (omega (
            arith,
            length-append (fixed_part w) ys,
            length-fixed_part,
            length-append (words_be ws) rest,
            length-words_be ws,
          )))
        (ground (arith, length-words_be ws))

-- `parse_rtp_header` reads back the fields and the length of every well-formed header, whatever
-- its CSRC list and extension and whatever bytes follow.
pub parse_rtp_header-encode :
    (w : WireHeader) (rest : List ℕ)
    → IsWireHeader w
    → parse_rtp_header (encode w ++ rest)
      ≡ ok (some (w.sequence, w.timestamp, w.ssrc, length (encode w), w.marker))
unfolding encode
parse_rtp_header-encode w rest h =
    rw
      (
        parse_rtp_header_pure (encode w ++ rest),
        append_assoc (fixed_part w) (extension_part w.extension) rest,
        header_size-encode w h w.extension rest refl,
      )
      (ground
        (arith, length-append (fixed_part w) (extension_part w.extension), length-fixed_part w h))
