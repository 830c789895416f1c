-- ===== src/Stream/Drain.antt =====
-- src/stream_publish.rs: what `drain_h264_access_units` makes of a byte stream.
use clankvox.Base.{
  ℕ, zero, suc, ◌-◌, ◌≤◌, ◌<◌, ◌≡◌, ◌⊎◌, inl, inr, refl, sym, ap, subst, ◌∙◌, false, Option, none,
  some, List, [], ◌∷◌, ◌++◌, ◌==◌, length, take, drop, All, arith, append_assoc, take-append-drop,
  length-drop, length-take, Bool-cases, Option-cases, ltb,
}
use clankvox.Stream.AccessUnits.{
  drain_next, find_next_aud_start, drain_from, drain_start, drain_h264_access_units,
}
use clankvox.Stream.Search.{
  code_len, BeginsAud, Before, Clear, past_end, find_next_aud_start-BeginsAud,
  find_next_aud_start-Clear,
}

abbrev pub join : List (List ℕ) → List ℕ
join [] = []
join (xs ∷ xss) = xs ++ join xss

-- A unit that is cut at the next delimiter, at least four bytes on, begins as the buffer did.
take-BeginsAud :
    (xs : List ℕ) (k : ℕ) → BeginsAud xs → BeginsAud (drop k xs) → 4 ≤ k → BeginsAud (take k xs)
unfolding BeginsAud code_len
take-BeginsAud [] k h next le = absurd (omega arith)
take-BeginsAud (a ∷ []) k h next le = absurd (omega arith)
take-BeginsAud (a ∷ b ∷ []) k h next le = absurd (omega arith)
take-BeginsAud (a ∷ b ∷ c ∷ r) zero h next le = absurd (omega arith)
take-BeginsAud (a ∷ b ∷ c ∷ r) (suc zero) h next le = absurd (omega arith)
take-BeginsAud (a ∷ b ∷ c ∷ r) (suc (suc zero)) h next le = absurd (omega arith)
take-BeginsAud (a ∷ b ∷ c ∷ r) (suc (suc (suc zero))) h next le = absurd (omega arith)
take-BeginsAud (a ∷ b ∷ c ∷ []) (suc (suc (suc (suc k)))) h next le = h
take-BeginsAud (a ∷ b ∷ c ∷ d ∷ []) (suc (suc (suc (suc zero)))) h next le = h
take-BeginsAud (a ∷ b ∷ c ∷ d ∷ []) (suc (suc (suc (suc (suc k))))) h next le = h
take-BeginsAud (a ∷ b ∷ c ∷ d ∷ e ∷ r) (suc (suc (suc (suc (suc k))))) h next le = ground arith
take-BeginsAud (a ∷ b ∷ c ∷ d ∷ e ∷ []) (suc (suc (suc (suc zero)))) h next le = ground arith
take-BeginsAud (a ∷ b ∷ c ∷ d ∷ e ∷ f ∷ []) (suc (suc (suc (suc zero)))) h next le = ground arith
take-BeginsAud (a ∷ b ∷ c ∷ d ∷ e ∷ f ∷ g ∷ r) (suc (suc (suc (suc zero)))) h next le = ground arith

take_nil : (n : ℕ) → take {A = ℕ} n [] ≡ []
take_nil zero = refl
take_nil (suc n) = refl

drop-take : (xs : List ℕ) (j k : ℕ) → drop j (take k xs) ≡ take (k - j) (drop j xs)
drop-take xs zero k = ap (λ (n : ℕ). take n xs) (let q : k ≡ k - 0 = omega arith in q)
drop-take [] (suc j) zero = sym (take_nil (0 - suc j))
drop-take [] (suc j) (suc k) = sym (take_nil (suc k - suc j))
drop-take (x ∷ xs) (suc j) zero =
    ap (λ (n : ℕ). take n (drop j xs)) (let q : 0 ≡ 0 - suc j = omega arith in q)
drop-take (x ∷ xs) (suc j) (suc k) =
    drop-take xs j k
    ∙ ap (λ (n : ℕ). take n (drop j xs)) (let q : k - j ≡ suc k - suc j = omega arith in q)

-- A delimiter of a prefix is one of the whole.
BeginsAud-take : (ys : List ℕ) (m : ℕ) → BeginsAud (take m ys) → BeginsAud ys
unfolding BeginsAud code_len
BeginsAud-take [] zero h = h
BeginsAud-take [] (suc m) h = h
BeginsAud-take ys zero h = absurd (omega arith)
BeginsAud-take (a ∷ ys) (suc zero) h = absurd (omega arith)
BeginsAud-take (a ∷ []) (suc (suc m)) h = ground arith
BeginsAud-take (a ∷ b ∷ ys) (suc (suc zero)) h = absurd (omega arith)
BeginsAud-take (a ∷ b ∷ []) (suc (suc (suc m))) h = ground arith
BeginsAud-take (a ∷ b ∷ c ∷ ys) (suc (suc (suc zero))) h = ground arith
BeginsAud-take (a ∷ b ∷ c ∷ []) (suc (suc (suc (suc m)))) h = ground arith
BeginsAud-take (a ∷ b ∷ c ∷ d ∷ ys) (suc (suc (suc (suc zero)))) h = ground arith
BeginsAud-take (a ∷ b ∷ c ∷ d ∷ []) (suc (suc (suc (suc (suc m))))) h = ground arith
BeginsAud-take (a ∷ b ∷ c ∷ d ∷ e ∷ ys) (suc (suc (suc (suc (suc m))))) h = ground arith

-- One access unit: it begins with a start code and a delimiter, and no other delimiter begins in it.
-- (The shorter start code inside the longer one at the front is not another.)
unfoldable pub IsAccessUnit : List ℕ → Type 0
IsAccessUnit xs = BeginsAud xs × ((j : ℕ) → 4 ≤ j → ¬ BeginsAud (drop j xs))

-- The units and the rest are the bytes in order, and each is one access unit.
unfoldable pub Drained : List ℕ → List (List ℕ) × List ℕ → Type 0
Drained xs r = (join r.0 ++ r.1 ≡ xs) × All IsAccessUnit r.0 × IsAccessUnit r.1

take-IsAccessUnit :
    (xs : List ℕ) (k : ℕ)
    → BeginsAud xs
    → BeginsAud (drop k xs)
    → 4 ≤ k
    → Clear xs 4 (some k)
    → IsAccessUnit (take k xs)
unfolding IsAccessUnit Clear Before
take-IsAccessUnit xs k begins cut le clear = (
  take-BeginsAud xs k begins cut le,
  λ j four h. elim (Bool-cases (ltb j k)) [
    | inl inside ↦
        clear j four (ground arith)
          (BeginsAud-take (drop j xs) (k - j) (subst BeginsAud (drop-take xs j k) h))
    | inr past ↦
        past_end (take k xs) j (let q : k ≤ j = ground arith in omega (arith, length-take k xs)) h
  ],
)

not_empty : (xs : List ℕ) → BeginsAud xs → 0 < length xs
unfolding BeginsAud code_len
not_empty [] h = absurd (omega arith)
not_empty (x ∷ xs) h = omega arith

drain_next-Drained :
    (xs : List ℕ) (next : List ℕ → List (List ℕ) × List ℕ)
    → ((ys : List ℕ) → length ys < length xs → BeginsAud ys → Drained ys (next ys))
    → BeginsAud xs
    → (o : Option ℕ) → find_next_aud_start xs 4 ≡ o
    → Drained xs (drain_next xs o next)
unfolding Drained IsAccessUnit Clear Before
drain_next-Drained xs next later begins none e =
    let clear : Clear xs 4 none = subst (Clear xs 4) e (find_next_aud_start-Clear xs 4) in
    (refl, tt, (begins, λ j four. clear j four tt))
drain_next-Drained xs next later begins (some k) e =
    let (cut, le) = find_next_aud_start-BeginsAud xs 4 k e in
    let clear = subst (Clear xs 4) e (find_next_aud_start-Clear xs 4) in
    let positive : (k == 0) ≡ false = ground arith in
    let (order, all, rest) =
      later (drop k xs) (omega (arith, length-drop k xs, not_empty xs begins)) cut in
    rw positive (
      append_assoc (take k xs) (join (next (drop k xs)).0) (next (drop k xs)).1
          ∙ ap (λ (l : List ℕ). take k xs ++ l) order
          ∙ take-append-drop k xs,
      (take-IsAccessUnit xs k begins cut le clear, all),
      rest,
    )

drain_from-Drained :
    (fuel : ℕ) (xs : List ℕ) → length xs ≤ fuel → BeginsAud xs → Drained xs (drain_from fuel xs)
unfolding drain_from
drain_from-Drained zero xs h begins = absurd (omega (arith, not_empty xs begins))
drain_from-Drained (suc fuel) xs h begins =
    drain_next-Drained xs (drain_from fuel)
      (λ ys lt begins'. drain_from-Drained fuel ys (omega arith) begins') begins
      (find_next_aud_start xs 4) refl

-- No delimiter begins before `first`, and one does there.
unfoldable pub FirstAud : List ℕ → ℕ → Type 0
FirstAud buffer first =
    BeginsAud (drop first buffer) × ((j : ℕ) → j < first → ¬ BeginsAud (drop j buffer))

-- While the stream goes on (no flush of the tail): without an access unit delimiter in the bytes
-- nothing happens. Otherwise they are cut from the first delimiter on: the units and what stays in the
-- buffer are these bytes in order, and each unit, and also what stays, begins with a start code and a
-- delimiter, and no other delimiter begins from its fifth byte on.
pub drain_h264_access_units-Drained :
    (buffer : List ℕ)
    → (((j : ℕ) → ¬ BeginsAud (drop j buffer))
        × (drain_h264_access_units buffer false ≡ ([], buffer)))
      ⊎ ((first : ℕ) × FirstAud buffer first
          × Drained (drop first buffer) (drain_h264_access_units buffer false))
unfolding drain_h264_access_units FirstAud Clear Before
drain_h264_access_units-Drained buffer = elim (Option-cases (find_next_aud_start buffer 0)) [
  | inl e ↦
      let clear : Clear buffer 0 none =
        subst (Clear buffer 0) e (find_next_aud_start-Clear buffer 0) in
      inl (λ j. clear j (omega arith) tt, ap (drain_start buffer false) e)
  | inr (first, e) ↦
      let clear = subst (Clear buffer 0) e (find_next_aud_start-Clear buffer 0) in
      let started = drop first buffer in
      let begins = (find_next_aud_start-BeginsAud buffer 0 first e).0 in
      inr (
        first,
        (begins, λ j lt. clear j (omega arith) lt),
        subst (λ (o : Option ℕ). Drained started (drain_start buffer false o)) (sym e)
            (drain_from-Drained (length started) started (omega arith) begins),
      )
]
