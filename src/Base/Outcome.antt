-- ===== src/Base/Outcome.antt =====
-- Rust code that may panic: an index or a slice out of range. `ok` is a normal return.
use Prim.Native.Nat.{ℕ, zero, suc, ◌-◌, ◌≤◌, ◌<◌}
use mathlib.Core.Path.{◌≡◌, refl}
use mathlib.Core.Bool.{◌&&◌}
use mathlib.Core.List.{List, [], ◌∷◌}
use native.Mathlib.Omega.{arith}
use clankvox.Base.Tests.{leb, if◌then◌else◌}
use clankvox.Base.Lists.{length, get_or, take, drop}

pub data Outcome {ℓ} (A : Type ℓ) : Type ℓ where
  ok : A → Outcome A
  panic : Outcome A

infixl 5 ◌>>=◌
abbrev pub ◌>>=◌ {ℓ κ} : {A : Type ℓ} {B : Type κ} → Outcome A → (A → Outcome B) → Outcome B
ok a >>= f = f a
panic >>= f = panic

-- `xs[i]`
unfoldable pub index : List ℕ → ℕ → Outcome ℕ
index [] i = panic
index (x ∷ xs) zero = ok x
index (x ∷ xs) (suc i) = index xs i

-- `&xs[n..]`
unfoldable pub slice_from : List ℕ → ℕ → Outcome (List ℕ)
slice_from xs n = if leb n (length xs) then ok (drop n xs) else panic

-- `&xs[a..b]`
unfoldable pub slice : List ℕ → ℕ → ℕ → Outcome (List ℕ)
slice xs a b = if leb a b && leb b (length xs) then ok (take (b - a) (drop a xs)) else panic

pub index_in_range : (xs : List ℕ) (i : ℕ) → i < length xs → index xs i ≡ ok (get_or xs i 0)
unfolding index
index_in_range [] i h = absurd (omega arith)
index_in_range (x ∷ xs) zero h = refl
index_in_range (x ∷ xs) (suc i) h = index_in_range xs i (omega arith)

pub slice_from_in_range : (xs : List ℕ) (n : ℕ) → n ≤ length xs → slice_from xs n ≡ ok (drop n xs)
unfolding slice_from
slice_from_in_range xs n h = ground arith

pub slice_in_range :
    (xs : List ℕ) (a b : ℕ) → a ≤ b → b ≤ length xs → slice xs a b ≡ ok (take (b - a) (drop a xs))
unfolding slice
slice_in_range xs a b h k = ground arith
