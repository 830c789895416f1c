-- ===== src/Rtp/Bounds.antt =====
-- src/rtp.rs: `parse_rtp_header` on arbitrary bytes from the network.
use clankvox.Base.{
  ℕ, zero, suc, ◌<◌, ◌≤◌, ◌⊎◌, inl, inr, none, some, List, [], ◌∷◌, ◌≡◌, arith, length, All,
  Option-cases,
}
use clankvox.Base.Outcome.{ok}
use clankvox.Rtp.{parse_rtp_header, ParsedHeader}
use clankvox.Rtp.Pure.{byte, header_size, header_of, parse_rtp_header_pure}

abbrev pub IsByte : ℕ → Type 0
IsByte x = x < 256

pub byte-lt : (xs : List ℕ) (i : ℕ) → All IsByte xs → byte xs i < 256
byte-lt [] i h = omega arith
byte-lt (x ∷ xs) zero h = h.0
byte-lt (x ∷ xs) (suc i) h = byte-lt xs i h.1

-- what a caller may rely on when it indexes the packet by the parsed header
pub record IsInPacket (xs : List ℕ) (p : ParsedHeader) : Type 0 where
  pub sequence_16_bits : p.0 < 65536
  pub timestamp_32_bits : p.1 < 4294967296
  pub ssrc_32_bits : p.2 < 4294967296
  pub whole_fixed_part : 12 ≤ p.3
  pub inside : p.3 ≤ length xs

header_size_bounds : (xs : List ℕ) {n : ℕ} → header_size xs ≡ some n → (12 ≤ n) × (n ≤ length xs)
unfolding header_size
header_size_bounds xs h = ground arith

header_of-IsInPacket :
    (xs : List ℕ) (n : ℕ) → All IsByte xs → 12 ≤ n → n ≤ length xs → IsInPacket xs (header_of xs n)
header_of-IsInPacket xs n h low high = omega (
  arith,
  byte-lt xs 2 h,
  byte-lt xs 3 h,
  byte-lt xs 4 h,
  byte-lt xs 5 h,
  byte-lt xs 6 h,
  byte-lt xs 7 h,
  byte-lt xs 8 h,
  byte-lt xs 9 h,
  byte-lt xs 10 h,
  byte-lt xs 11 h,
)

-- `parse_rtp_header` never panics, on any bytes; it returns `None`, or a sequence number, a
-- timestamp and an SSRC of their widths with a header size between 12 and the packet's length.
pub parse_rtp_header_bounds :
    (xs : List ℕ)
    → All IsByte xs
    → (parse_rtp_header xs ≡ ok none)
      ⊎ ((p : ParsedHeader) × (parse_rtp_header xs ≡ ok (some p)) × IsInPacket xs p)
parse_rtp_header_bounds xs h = elim (Option-cases (header_size xs)) [
  | inl e ↦ inl (rw (parse_rtp_header_pure xs, e))
  | inr (n, e) ↦ inr (
    header_of xs n,
    rw (parse_rtp_header_pure xs, e),
    header_of-IsInPacket xs n h (header_size_bounds xs e).0 (header_size_bounds xs e).1,
  )
]
