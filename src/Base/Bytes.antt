-- ===== src/Base/Bytes.antt =====
-- Bytes and big-endian words. A byte is a number below 256; `x & (2^k - 1)` is `x % 2^k`, a single
-- bit is `x / 2^k % 2`, and `x | 0x80` is `x % 128 + 128`; the tables below check these readings
-- against the native bit operations on every byte.
use Prim.Native.Nat.{ℕ, zero, suc, ◌+◌, ◌*◌, ◌/◌, ◌%◌, bit_and, bit_or}
use mathlib.Core.Path.{◌≡◌, refl}
use mathlib.Core.Bool.{Bool, true, ◌&&◌}
use mathlib.Core.List.{List, [], ◌∷◌}
use clankvox.Base.Tests.{◌==◌}

-- bit `k` of `x`, as the test `x & (1 << k) != 0`
abbrev pub bit7 : ℕ → Bool
bit7 x = x / 128 % 2 == 1

abbrev pub bit6 : ℕ → Bool
bit6 x = x / 64 % 2 == 1

abbrev pub bit5 : ℕ → Bool
bit5 x = x / 32 % 2 == 1

abbrev pub bit4 : ℕ → Bool
bit4 x = x / 16 % 2 == 1

-- `x | 0x80` on a byte
abbrev pub or_0x80 : ℕ → ℕ
or_0x80 x = x % 128 + 128

-- `to_be_bytes`
abbrev pub u16_be : ℕ → List ℕ
u16_be x = (x / 256 % 256) ∷ (x % 256) ∷ []

abbrev pub u32_be : ℕ → List ℕ
u32_be x = (x / 16777216 % 256) ∷ (x / 65536 % 256) ∷ (x / 256 % 256) ∷ (x % 256) ∷ []

-- `from_be_bytes`
abbrev pub of_u16_be : ℕ → ℕ → ℕ
of_u16_be a b = a * 256 + b

abbrev pub of_u32_be : ℕ → ℕ → ℕ → ℕ → ℕ
of_u32_be a b c d = a * 16777216 + b * 65536 + c * 256 + d

abbrev pub u16_mod : ℕ
u16_mod = 65536

abbrev pub u32_mod : ℕ
u32_mod = 4294967296

all_below : ℕ → (ℕ → Bool) → Bool
all_below zero p = true
all_below (suc n) p = p n && all_below n p

masks_table :
    all_below 256 (λ x.
      (bit_and x 0x0f == x % 16)
      && (bit_and x 0x1f == x % 32)
      && (bit_and x 0x7f == x % 128)
      && (bit_and x 0xe0 == x / 32 * 32)
      && (bit_and x 0x80 == x / 128 % 2 * 128)
      && (bit_and x 0x40 == x / 64 % 2 * 64)
      && (bit_and x 0x20 == x / 32 % 2 * 32)
      && (bit_and x 0x10 == x / 16 % 2 * 16)
      && (bit_or x 0x80 == or_0x80 x))
    ≡ true
unfolding all_below
masks_table = refl
