-- ===== src/AnnexB/Scan.antt =====
-- src/h264.rs: what the start-code scanner finds around a NAL unit that holds no start code.
use clankvox.Base.{
  ℕ, zero, suc, ◌+◌, ◌≤◌, Bool, false, ◌||◌, none, some, List, [], ◌∷◌, ◌++◌, ◌≡◌, refl, arith,
  length, take,
}
use clankvox.AnnexB.{starts_001, find_at}

-- Some three bytes in a row are 00 00 01.
unfoldable pub has_001 : List ℕ → Bool
has_001 (a ∷ b ∷ c ∷ rest) = starts_001 a b c || has_001 (b ∷ c ∷ rest)
has_001 _ = false

pub find_at-none : (nal : List ℕ) (i : ℕ) → has_001 nal ≡ false → find_at nal i ≡ none
unfolding has_001 find_at
find_at-none [] i h = refl
find_at-none (a ∷ []) i h = refl
find_at-none (a ∷ b ∷ []) i h = refl
find_at-none (a ∷ b ∷ c ∷ []) i h = ground arith
find_at-none (a ∷ b ∷ c ∷ d ∷ r) i h = ground (arith, find_at-none (b ∷ c ∷ d ∷ r) (i + 1))

-- The first start code behind such a unit is the one that follows it.
pub find_at-code :
    (nal rest : List ℕ) (i : ℕ)
    → has_001 nal ≡ false
    → find_at (nal ++ (0 ∷ 0 ∷ 0 ∷ 1 ∷ rest)) i ≡ some (i + length nal, 4)
unfolding has_001 find_at
find_at-code [] rest i h = ground arith
find_at-code (a ∷ []) rest i h = ground arith
find_at-code (a ∷ b ∷ []) rest i h = ground arith
find_at-code (a ∷ b ∷ c ∷ []) rest i h = ground arith
find_at-code (a ∷ b ∷ c ∷ d ∷ r) rest i h =
    ground (arith, find_at-code (b ∷ c ∷ d ∷ r) rest (i + 1))

-- A start code is found at or after the start, and lies inside the bytes.
pub find_at_range :
    (xs : List ℕ) (i : ℕ) {s n : ℕ}
    → find_at xs i ≡ some (s, n)
    → (i ≤ s) × (3 ≤ n) × (s + n ≤ i + length xs)
unfolding find_at
find_at_range [] i h = ground arith
find_at_range (a ∷ []) i h = ground arith
find_at_range (a ∷ b ∷ []) i h = ground arith
find_at_range (a ∷ b ∷ c ∷ []) i h = ground arith
find_at_range (a ∷ b ∷ c ∷ d ∷ r) i {s = s} {n = n} h =
    ground (arith, find_at_range (b ∷ c ∷ d ∷ r) (i + 1) {s = s} {n = n})

pub has_001_of_none : (xs : List ℕ) (i : ℕ) → find_at xs i ≡ none → has_001 xs ≡ false
unfolding has_001 find_at
has_001_of_none [] i h = refl
has_001_of_none (a ∷ []) i h = refl
has_001_of_none (a ∷ b ∷ []) i h = refl
has_001_of_none (a ∷ b ∷ c ∷ r) i h = ground (arith, has_001_of_none (b ∷ c ∷ r) (i + 1))

-- Nothing before the start code that was found is one.
pub has_001-take_at :
    (xs : List ℕ) (i k : ℕ) {n : ℕ} → find_at xs i ≡ some (i + k, n) → has_001 (take k xs) ≡ false
unfolding has_001 find_at
has_001-take_at xs i zero h = refl
has_001-take_at [] i (suc k) h = refl
has_001-take_at (a ∷ []) i (suc k) h = ground arith
has_001-take_at (a ∷ b ∷ []) i (suc k) h = ground arith
has_001-take_at (a ∷ b ∷ c ∷ r) i (suc zero) h = refl
has_001-take_at (a ∷ b ∷ c ∷ r) i (suc (suc zero)) h = refl
has_001-take_at (a ∷ b ∷ c ∷ r) i (suc (suc (suc k))) {n = n} h =
    ground (arith, has_001-take_at (b ∷ c ∷ r) (i + 1) (suc (suc k)) {n = n})
