-- ===== src/Stream/Search.antt =====
-- src/stream_publish.rs: what `find_next_aud_start` finds: the first access unit delimiter, if there is
-- one.
use clankvox.Base.{
  ℕ, zero, suc, ◌+◌, ◌-◌, ◌%◌, ◌≤◌, ◌<◌, ◌≡◌, ◌⊎◌, inl, inr, refl, sym, ap, subst, ◌∙◌, Bool, true,
  false, Option, none, some, List, [], ◌∷◌, if◌then◌else◌, length, drop, get_or, ltb, Bool-cases,
  arith,
}
use native.Mathlib.Nat.{zero-add, suc-add}
use clankvox.AnnexB.{starts_001, starts_0001, find_at, find_next_start_code}
use clankvox.AnnexB.Scan.{find_at_range}
use clankvox.Stream.AccessUnits.{is_aud, take_aud, find_aud_from, find_next_aud_start}

-- The length of the start code at the head of the bytes, or 0.
unfoldable pub code_len : List ℕ → ℕ
code_len (a ∷ b ∷ c ∷ rest) =
    if starts_001 a b c then 3 else if starts_0001 a b c rest then 4 else 0
code_len _ = 0

-- The bytes begin with a start code and an access unit delimiter.
unfoldable pub BeginsAud : List ℕ → Type 0
BeginsAud xs = (0 < code_len xs) × (get_or xs (code_len xs) 0 % 32 ≡ 9)

code_len_found :
    (xs : List ℕ) (i k : ℕ) {n : ℕ} → find_at xs i ≡ some (i + k, n) → code_len (drop k xs) ≡ n
unfolding find_at code_len
code_len_found [] i k h = ground arith
code_len_found (a ∷ []) i k h = ground arith
code_len_found (a ∷ b ∷ []) i k h = ground arith
code_len_found (a ∷ b ∷ c ∷ r) i zero {n = n} h =
    ground (arith, find_at_range (b ∷ c ∷ r) (i + 1) {s = i} {n = n})
code_len_found (a ∷ b ∷ c ∷ r) i (suc k) {n = n} h =
    ground (arith, code_len_found (b ∷ c ∷ r) (i + 1) k {n = n})

pub get_or-drop : (xs : List ℕ) (k j : ℕ) → get_or (drop k xs) j 0 ≡ get_or xs (k + j) 0
get_or-drop xs zero j = rw zero-add refl
get_or-drop [] (suc k) j = refl
get_or-drop (x ∷ xs) (suc k) j = rw suc-add (get_or-drop xs k j)

pub drop-drop : (xs : List ℕ) (j k : ℕ) → drop k (drop j xs) ≡ drop (j + k) xs
drop-drop xs zero k = rw zero-add refl
drop-drop [] (suc j) zero = rw suc-add refl
drop-drop [] (suc j) (suc k) = rw suc-add refl
drop-drop (x ∷ xs) (suc j) k = rw suc-add (drop-drop xs j k)

found_range : (xs : List ℕ) (from s n : ℕ) → find_next_start_code xs from ≡ some (s, n) → from ≤ s
unfolding find_next_start_code
found_range xs from s n e = (find_at_range (drop from xs) from {s = s} {n = n} e).0

-- What the search finds begins with a delimiter.
find_next_start_code-BeginsAud :
    (xs : List ℕ) (from s n : ℕ)
    → find_next_start_code xs from ≡ some (s, n)
    → is_aud xs (s + n) ≡ true
    → BeginsAud (drop s xs) × (from ≤ s)
unfolding find_next_start_code BeginsAud
find_next_start_code-BeginsAud xs from s n e aud =
    let (le, three, inside) = find_at_range (drop from xs) from {s = s} {n = n} e in
    let k = s - from in
    let at_k : find_at (drop from xs) from ≡ some (from + k, n) =
      e ∙ ap (λ (i : ℕ). some (i, n)) (let q : s ≡ from + k = omega arith in q) in
    let whole : drop k (drop from xs) ≡ drop s xs =
      drop-drop xs from k ∙ ap (λ (i : ℕ). drop i xs) (let q : from + k ≡ s = omega arith in q) in
    let code : code_len (drop s xs) ≡ n =
      ap code_len (sym whole) ∙ code_len_found (drop from xs) from k {n = n} at_k in
    (
      (
        omega (arith, code),
        ap (λ (j : ℕ). get_or (drop s xs) j 0 % 32) code
            ∙ ap (λ (b : ℕ). b % 32) (get_or-drop xs s n)
            ∙ (let q : get_or xs (s + n) 0 % 32 ≡ 9 = ground arith in q),
      ),
      le,
    )

if_some :
    (b : Bool) (i : ℕ) (r : Option ℕ) {k : ℕ}
    → (if b then some i else r) ≡ some k
    → ((b ≡ true) × (i ≡ k)) ⊎ (r ≡ some k)
if_some true i r h = inl (refl, (cc))
if_some false i r h = inr h

take_aud-BeginsAud :
    (xs : List ℕ) (from k : ℕ) (next : ℕ → Option ℕ)
    → ((j : ℕ) → next j ≡ some k → BeginsAud (drop k xs) × (j ≤ k))
    → (o : Option (ℕ × ℕ)) → find_next_start_code xs from ≡ o
    → take_aud xs o next ≡ some k
    → BeginsAud (drop k xs) × (from ≤ k)
take_aud-BeginsAud xs from k next later none e h = absurd (cc)
take_aud-BeginsAud xs from k next later (some (s, n)) e h =
    elim (if_some (is_aud xs (s + n)) s (next (s + n)) h) [
      | inl (aud, here) ↦
          let (begins, le) = find_next_start_code-BeginsAud xs from s n e aud in
          (subst (λ (i : ℕ). BeginsAud (drop i xs)) here begins, omega arith)
      | inr found ↦
          let (begins, le) = later (s + n) found in
          (begins, omega (arith, found_range xs from s n e))
    ]

find_aud_from-BeginsAud :
    (fuel : ℕ) (xs : List ℕ) (from k : ℕ)
    → find_aud_from fuel xs from ≡ some k
    → BeginsAud (drop k xs) × (from ≤ k)
unfolding find_aud_from
find_aud_from-BeginsAud zero xs from k e = absurd (cc)
find_aud_from-BeginsAud (suc fuel) xs from k e =
    take_aud-BeginsAud xs from k (find_aud_from fuel xs)
      (λ j h. find_aud_from-BeginsAud fuel xs j k h) (find_next_start_code xs from) refl e

pub find_next_aud_start-BeginsAud :
    (xs : List ℕ) (from k : ℕ)
    → find_next_aud_start xs from ≡ some k
    → BeginsAud (drop k xs) × (from ≤ k)
unfolding find_next_aud_start
find_next_aud_start-BeginsAud xs from k e = find_aud_from-BeginsAud (suc (length xs)) xs from k e

-- Nothing before what the scanner finds begins with a start code, and nothing at all when it finds none.
unfoldable pub Before : ℕ → Option ℕ → Type 0
Before j none = Unit
Before j (some k) = j < k

code_len-none : (xs : List ℕ) (i j : ℕ) → find_at xs i ≡ none → code_len (drop j xs) ≡ 0
unfolding find_at code_len
code_len-none [] i zero h = refl
code_len-none [] i (suc j) h = refl
code_len-none (a ∷ []) i zero h = refl
code_len-none (a ∷ []) i (suc j) h = code_len-none [] (i + 1) j refl
code_len-none (a ∷ b ∷ []) i zero h = refl
code_len-none (a ∷ b ∷ []) i (suc j) h = ground (arith, code_len-none (b ∷ []) (i + 1) j)
code_len-none (a ∷ b ∷ c ∷ r) i zero h = ground arith
code_len-none (a ∷ b ∷ c ∷ r) i (suc j) h = ground (arith, code_len-none (b ∷ c ∷ r) (i + 1) j)

code_len_before :
    (xs : List ℕ) (i j : ℕ) {s n : ℕ}
    → find_at xs i ≡ some (s, n)
    → i + j < s
    → code_len (drop j xs) ≡ 0
unfolding find_at code_len
code_len_before [] i j h lt = ground arith
code_len_before (a ∷ []) i j h lt = ground arith
code_len_before (a ∷ b ∷ []) i j h lt = ground arith
code_len_before (a ∷ b ∷ c ∷ r) i zero h lt = ground arith
code_len_before (a ∷ b ∷ c ∷ r) i (suc j) {s = s} {n = n} h lt =
    ground (arith, code_len_before (b ∷ c ∷ r) (i + 1) j {s = s} {n = n})

-- A delimiter that begins inside a start code belongs to that start code.
inside_code : (ys : List ℕ) (j : ℕ) → j < code_len ys → BeginsAud (drop j ys) → BeginsAud ys
unfolding code_len BeginsAud
inside_code ys zero h begins = begins
inside_code [] (suc j) h begins = absurd (omega arith)
inside_code (a ∷ []) (suc j) h begins = absurd (omega arith)
inside_code (a ∷ b ∷ []) (suc j) h begins = absurd (omega arith)
inside_code (a ∷ b ∷ c ∷ []) (suc zero) h begins = ground arith
inside_code (a ∷ b ∷ c ∷ []) (suc (suc zero)) h begins = ground arith
inside_code (a ∷ b ∷ c ∷ []) (suc (suc (suc j))) h begins = ground arith
inside_code (a ∷ b ∷ c ∷ d ∷ []) (suc zero) h begins = ground arith
inside_code (a ∷ b ∷ c ∷ d ∷ []) (suc (suc zero)) h begins = ground arith
inside_code (a ∷ b ∷ c ∷ d ∷ []) (suc (suc (suc zero))) h begins = ground arith
inside_code (a ∷ b ∷ c ∷ d ∷ []) (suc (suc (suc (suc j)))) h begins = ground arith
inside_code (a ∷ b ∷ c ∷ d ∷ e ∷ r) (suc zero) h begins = ground arith
inside_code (a ∷ b ∷ c ∷ d ∷ e ∷ r) (suc (suc zero)) h begins = ground arith
inside_code (a ∷ b ∷ c ∷ d ∷ e ∷ []) (suc (suc (suc zero))) h begins = ground arith
inside_code (a ∷ b ∷ c ∷ d ∷ e ∷ f ∷ r) (suc (suc (suc zero))) h begins = ground arith
inside_code (a ∷ b ∷ c ∷ d ∷ e ∷ r) (suc (suc (suc (suc j)))) h begins = ground arith

not_begins : (xs : List ℕ) → code_len xs ≡ 0 → ¬ BeginsAud xs
unfolding BeginsAud
not_begins xs e begins = omega arith

drop_at : (xs : List ℕ) (from j : ℕ) → from ≤ j → drop (j - from) (drop from xs) ≡ drop j xs
drop_at xs from j h =
    drop-drop xs from (j - from)
    ∙ ap (λ (i : ℕ). drop i xs) (let q : from + (j - from) ≡ j = omega arith in q)

pub past_end : (xs : List ℕ) (j : ℕ) → length xs ≤ j → ¬ BeginsAud (drop j xs)
unfolding code_len BeginsAud
past_end [] (suc j) h begins = omega arith
past_end [] zero h begins = omega arith
past_end (x ∷ xs) zero h begins = omega arith
past_end (x ∷ xs) (suc j) h begins = past_end xs j (omega arith) begins

-- No delimiter begins from `from` on, up to what was found, if anything was.
unfoldable pub Clear : List ℕ → ℕ → Option ℕ → Type 0
Clear xs from o = (j : ℕ) → from ≤ j → Before j o → ¬ BeginsAud (drop j xs)

found_code :
    (xs : List ℕ) (from s n : ℕ)
    → find_next_start_code xs from ≡ some (s, n)
    → code_len (drop s xs) ≡ n
unfolding find_next_start_code
found_code xs from s n e =
    let le = (find_at_range (drop from xs) from {s = s} {n = n} e).0 in
    let at : find_at (drop from xs) from ≡ some (from + (s - from), n) =
      e ∙ ap (λ (i : ℕ). some (i, n)) (let q : s ≡ from + (s - from) = omega arith in q) in
    ap code_len (sym (drop_at xs from s le))
    ∙ code_len_found (drop from xs) from (s - from) {n = n} at

before_found :
    (xs : List ℕ) (from s n j : ℕ)
    → find_next_start_code xs from ≡ some (s, n)
    → from ≤ j
    → j < s
    → ¬ BeginsAud (drop j xs)
unfolding find_next_start_code
before_found xs from s n j e le lt = not_begins _ (
    ap code_len (sym (drop_at xs from j le))
    ∙ code_len_before (drop from xs) from (j - from) {s = s} {n = n} e (omega arith))

-- Inside the start code that was found, without a delimiter behind it.
inside_found :
    (xs : List ℕ) (from s n j : ℕ)
    → find_next_start_code xs from ≡ some (s, n)
    → is_aud xs (s + n) ≡ false
    → s ≤ j
    → j < s + n
    → ¬ BeginsAud (drop j xs)
unfolding BeginsAud
inside_found xs from s n j e other le lt begins =
    let code = found_code xs from s n e in
    let here : BeginsAud (drop s xs) =
      inside_code (drop s xs) (j - s) (omega (arith, code))
        (subst BeginsAud (sym (drop_at xs s j le)) begins) in
    let header : get_or xs (s + n) 0 % 32 ≡ 9 =
      sym (ap (λ (b : ℕ). b % 32) (get_or-drop xs s n))
      ∙ sym (ap (λ (k : ℕ). get_or (drop s xs) k 0 % 32) code)
      ∙ here.1 in
    ground arith

-- A round that found a start code, by whether a delimiter is behind it.
found-Clear :
    (xs : List ℕ) (from s n j : ℕ) (rest : Option ℕ)
    → find_next_start_code xs from ≡ some (s, n)
    → Clear xs (s + n) rest
    → from ≤ j
    → (b : Bool) → is_aud xs (s + n) ≡ b
    → Before j (if b then some s else rest)
    → ¬ BeginsAud (drop j xs)
unfolding Clear Before
found-Clear xs from s n j rest e later le true aud before = before_found xs from s n j e le before
found-Clear xs from s n j rest e later le false other before = elim (Bool-cases (ltb j s)) [
  | inl early ↦ before_found xs from s n j e le (ground arith)
  | inr late ↦ elim (Bool-cases (ltb j (s + n))) [
    | inl inside ↦ inside_found xs from s n j e other (ground arith) (ground arith)
    | inr past ↦ later j (let q : s + n ≤ j = ground arith in q) before
  ]
]

take_aud-Clear :
    (xs : List ℕ) (from : ℕ) (next : ℕ → Option ℕ)
    → ((later : ℕ) → from < later → Clear xs later (next later))
    → (o : Option (ℕ × ℕ)) → find_next_start_code xs from ≡ o
    → Clear xs from (take_aud xs o next)
unfolding Clear find_next_start_code
take_aud-Clear xs from next later none e j le before =
    not_begins _
      (ap code_len (sym (drop_at xs from j le)) ∙ code_len-none (drop from xs) from (j - from) e)
take_aud-Clear xs from next later (some (s, n)) e j le before =
    let (low, three, high) = find_at_range (drop from xs) from {s = s} {n = n} e in
    found-Clear xs from s n j (next (s + n)) e (later (s + n) (omega arith)) le (is_aud xs (s + n))
      refl before

find_aud_from-Clear :
    (fuel : ℕ) (xs : List ℕ) (from : ℕ)
    → length xs < from + fuel
    → Clear xs from (find_aud_from fuel xs from)
unfolding find_aud_from Clear
find_aud_from-Clear zero xs from h j le before = past_end xs j (omega arith)
find_aud_from-Clear (suc fuel) xs from h j le before =
    take_aud-Clear xs from (find_aud_from fuel xs)
      (λ later lt. find_aud_from-Clear fuel xs later (omega arith)) (find_next_start_code xs from)
      refl j le before

-- What is found is the first delimiter, and nothing is found only when there is none.
pub find_next_aud_start-Clear :
    (xs : List ℕ) (from : ℕ) → Clear xs from (find_next_aud_start xs from)
unfolding find_next_aud_start
find_next_aud_start-Clear xs from = find_aud_from-Clear (suc (length xs)) xs from (omega arith)
