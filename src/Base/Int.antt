-- ===== src/Base/Int.antt =====
-- Signed integers over the native numbers, and the range of a 16-bit sample.
use Prim.Native.Nat.{ℕ, suc, ◌+◌, ◌-◌, ◌/◌, ◌≤◌, min}
use native.Mathlib.Omega.{arith}
use clankvox.Base.Tests.{leb, if◌then◌else◌}

-- `negsuc n` is -(n + 1).
pub data ℤ : Type 0 where
  pos : ℕ → ℤ
  negsuc : ℕ → ℤ

abbrev pub pos_part : ℤ → ℕ
pos_part (pos n) = n
pos_part (negsuc n) = 0

abbrev pub neg_part : ℤ → ℕ
neg_part (pos n) = 0
neg_part (negsuc n) = suc n

abbrev pub sub_ℕ : ℕ → ℕ → ℤ
sub_ℕ a b = if leb b a then pos (a - b) else negsuc (b - a - 1)

infixl 65 ◌+ℤ◌
unfoldable pub ◌+ℤ◌ : ℤ → ℤ → ℤ
a +ℤ b = sub_ℕ (pos_part a + pos_part b) (neg_part a + neg_part b)

-- Floor division by two: `x >> 1`.
unfoldable pub half : ℤ → ℤ
half (pos n) = pos (n / 2)
half (negsuc n) = negsuc (n / 2)

-- `clamp(-32768, 32767)`
unfoldable pub clamp_i16 : ℤ → ℤ
clamp_i16 (pos n) = pos (min n 32767)
clamp_i16 (negsuc n) = negsuc (min n 32767)

-- What an `i16` holds.
unfoldable pub IsI16 : ℤ → Type 0
IsI16 x = (pos_part x ≤ 32767) × (neg_part x ≤ 32768)

pub clamp_i16-IsI16 : (x : ℤ) → IsI16 (clamp_i16 x)
unfolding IsI16 clamp_i16
clamp_i16-IsI16 (pos n) = (omega arith, omega arith)
clamp_i16-IsI16 (negsuc n) = (omega arith, omega arith)

-- `u16` bit patterns: `from_le_bytes`, `to_le_bytes` and `unsigned_abs`.
abbrev pub of_bits : ℕ → ℤ
of_bits x = if leb 32768 x then negsuc (65535 - x) else pos x

abbrev pub to_bits : ℤ → ℕ
to_bits (pos n) = n
to_bits (negsuc n) = 65535 - n

abbrev pub unsigned_abs : ℤ → ℕ
unsigned_abs x = pos_part x + neg_part x
