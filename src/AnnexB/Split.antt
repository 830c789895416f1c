-- ===== src/AnnexB/Split.antt =====
-- src/h264.rs: `split_h264_annexb_nalus` against the writer of Annex-B streams.
use clankvox.Base.{
  ℕ, zero, suc, ◌+◌, ◌-◌, ◌<◌, ◌≤◌, false, none, some, List, [], ◌∷◌, ◌++◌, ◌≡◌, refl, sym, subst,
  subst₂, ap, ◌∙◌, arith, length, length-append, length-drop, length-take, take_all, Bool-cases,
  ltb→lt, take, drop, take-length-append, drop-length-append, append_assoc, append-nil, All, ltb,
  Option-cases, inl, inr,
}
use clankvox.AnnexB.{find_at, find_next_start_code, nal_end_of, split_from, split_h264_annexb_nalus}
use clankvox.AnnexB.Scan.{
  has_001, find_at-none, find_at-code, find_at_range, has_001_of_none, has_001-take_at,
}

-- What stands between two start codes: not empty, and with no start code inside (the encoder's
-- emulation prevention). Zeros at its end are not excluded.
pub record IsUnit (nal : List ℕ) : Type 0 where
  pub not_empty : 0 < length nal
  pub no_start_code : has_001 nal ≡ false

-- The Annex-B stream of some units, each behind a four-byte start code.
abbrev pub annexb : List (List ℕ) → List ℕ
annexb [] = []
annexb (nal ∷ nals) = 0 ∷ 0 ∷ 0 ∷ 1 ∷ (nal ++ annexb nals)

pub find_next_start_code-behind :
    (pre s : List ℕ) → find_next_start_code (pre ++ s) (length pre) ≡ find_at s (length pre)
unfolding find_next_start_code
find_next_start_code-behind pre s = rw (drop-length-append pre s (length pre) refl)

nal_end_last :
    (pre nal : List ℕ) → IsUnit nal → nal_end_of (pre ++ nal) (length pre) ≡ length pre + length nal
nal_end_last pre nal h =
    rw
      (
        find_next_start_code-behind pre nal ∙ find_at-none nal (length pre) h.no_start_code,
        nal_end_of,
      )
      (length-append pre nal)

nal_end_lem :
    (pre nal : List ℕ) (nals : List (List ℕ))
    → IsUnit nal
    → nal_end_of (pre ++ (nal ++ annexb nals)) (length pre) ≡ length pre + length nal
nal_end_lem pre nal [] h = rw (append-nil nal) (nal_end_last pre nal h)
nal_end_lem pre nal (next ∷ nals) h = rw (
  find_next_start_code-behind pre (nal ++ annexb (next ∷ nals))
      ∙ find_at-code nal (next ++ annexb nals) (length pre) h.no_start_code,
  nal_end_of,
)

-- The unit behind a start code at the end of `pre`, then the rest of the stream.
split_from_step :
    (fuel : ℕ) (pre nal : List ℕ) (nals : List (List ℕ))
    → IsUnit nal
    → split_from (suc fuel) (pre ++ annexb (nal ∷ nals)) (length pre)
      ≡ nal ∷ split_from fuel (pre ++ annexb (nal ∷ nals)) (length pre + 4 + length nal)
unfolding split_from find_at
split_from_step fuel pre nal nals h =
    let front = pre ++ (0 ∷ 0 ∷ 0 ∷ 1 ∷ []) in
    let size : length front ≡ length pre + 4 = length-append pre (0 ∷ 0 ∷ 0 ∷ 1 ∷ []) in
    let frame = pre ++ annexb (nal ∷ nals) in
    let same : frame ≡ front ++ (nal ++ annexb nals) =
      sym (append_assoc pre (0 ∷ 0 ∷ 0 ∷ 1 ∷ []) (nal ++ annexb nals)) in
    let end : nal_end_of frame (length pre + 4) ≡ length pre + 4 + length nal =
      subst (λ k. nal_end_of frame k ≡ k + length nal) size
        (subst (λ bytes. nal_end_of bytes (length front) ≡ length front + length nal) (sym same)
          (nal_end_lem front nal nals h)) in
    let part : drop (length pre + 4) frame ≡ nal ++ annexb nals =
      subst (λ bytes. drop (length pre + 4) bytes ≡ nal ++ annexb nals) (sym same)
        (drop-length-append front (nal ++ annexb nals) (length pre + 4) (sym size)) in
    rw
      (
        find_next_start_code-behind pre (annexb (nal ∷ nals)),
        split_from,
        end,
        part,
        take-length-append nal (annexb nals) (length pre + 4 + length nal - (length pre + 4))
            (omega arith),
      )
      (ground arith)

split_from-annexb :
    (fuel : ℕ) (nals : List (List ℕ)) (pre : List ℕ)
    → All IsUnit nals
    → length nals < fuel
    → split_from fuel (pre ++ annexb nals) (length pre) ≡ nals
unfolding split_from find_at
split_from-annexb zero nals pre h f = absurd (omega arith)
split_from-annexb (suc fuel) [] pre h f = rw (find_next_start_code-behind pre [], split_from)
split_from-annexb (suc fuel) (nal ∷ nals) pre h f =
    let code = 0 ∷ 0 ∷ 0 ∷ 1 ∷ nal in
    let size : length (pre ++ code) ≡ length pre + 4 + length nal =
      omega (arith, length-append pre code) in
    split_from_step fuel pre nal nals h.0
    ∙ ap (λ r. nal ∷ r)
        (subst₂ (λ bytes k. split_from fuel bytes k ≡ nals) (append_assoc pre code (annexb nals))
          size (split_from-annexb fuel nals (pre ++ code) h.1 (omega arith)))

find_next_range :
    (frame : List ℕ) (from s n : ℕ)
    → find_next_start_code frame from ≡ some (s, n)
    → (from ≤ s) × (3 ≤ n) × (s + n ≤ length frame)
unfolding find_next_start_code
find_next_range frame from s n e =
    omega (arith, find_at_range (drop from frame) from e, length-drop from frame)

find_next_past :
    (frame : List ℕ) (from : ℕ) → length frame < from → find_next_start_code frame from ≡ none
find_next_past frame from h = elim (Option-cases (find_next_start_code frame from)) [
  | inl e ↦ e
  | inr ((s, n), e) ↦ absurd (omega (arith, find_next_range frame from s n e))
]

nal_end_range :
    (frame : List ℕ) (from : ℕ)
    → from ≤ length frame
    → (from ≤ nal_end_of frame from) × (nal_end_of frame from ≤ length frame)
nal_end_range frame from h = elim (Option-cases (find_next_start_code frame from)) [
  | inl e ↦ rw (e, nal_end_of) (h, omega arith)
  | inr ((s, n), e) ↦ rw (e, nal_end_of) (omega (arith, find_next_range frame from s n e))
]

-- The fuel of `split_h264_annexb_nalus` is enough: more fuel changes nothing.
pub split_from_fuel :
    (f g : ℕ) (frame : List ℕ) (from : ℕ)
    → length frame < from + f
    → length frame < from + g
    → split_from f frame from ≡ split_from g frame from
unfolding split_from
split_from_fuel zero zero frame from h k = refl
split_from_fuel zero (suc g) frame from h k =
    rw (find_next_past frame from (omega arith), split_from)
split_from_fuel (suc f) zero frame from h k =
    rw (find_next_past frame from (omega arith), split_from)
split_from_fuel (suc f) (suc g) frame from h k =
    elim (Option-cases (find_next_start_code frame from)) [
      | inl e ↦ rw (e, split_from)
      | inr ((s, n), e) ↦
          let (low, three, high) = find_next_range frame from s n e in
          let (begin, end) = nal_end_range frame (s + n) high in
          rw (
            e,
            split_from,
            split_from_fuel f g frame (nal_end_of frame (s + n)) (omega arith) (omega arith),
          )
    ]

length-annexb : (nals : List (List ℕ)) → length nals ≤ length (annexb nals)
length-annexb [] = omega arith
length-annexb (nal ∷ nals) = omega (arith, length-annexb nals, length-append nal (annexb nals))

-- Splitting the Annex-B stream of any units, not empty and without a start code inside, gives these
-- units back, in order.
pub split-annexb :
    (nals : List (List ℕ)) → All IsUnit nals → split_h264_annexb_nalus (annexb nals) ≡ nals
unfolding split_h264_annexb_nalus
split-annexb nals h =
    split_from-annexb (suc (length (annexb nals))) nals [] h (omega (arith, length-annexb nals))

unit_no_start_code :
    (frame : List ℕ) (from : ℕ)
    → has_001 (take (nal_end_of frame from - from) (drop from frame)) ≡ false
unfolding find_next_start_code
unit_no_start_code frame from = elim (Option-cases (find_next_start_code frame from)) [
  | inl e ↦
      rw
        (
          e,
          nal_end_of,
          take_all (length frame - from) (drop from frame) (omega (arith, length-drop from frame)),
        )
        (has_001_of_none (drop from frame) from e)
  | inr ((s, n), e) ↦
      let low = (find_next_range frame from s n e).0 in
      let same : from + (s - from) ≡ s = omega arith in
      rw (e, nal_end_of) (has_001-take_at (drop from frame) from (s - from) {n = n} (rw same e))
]

piece-IsUnit :
    (frame : List ℕ) (from : ℕ)
    → from ≤ length frame
    → from < nal_end_of frame from
    → IsUnit (take (nal_end_of frame from - from) (drop from frame))
piece-IsUnit frame from h lt = record {
  not_empty = omega (
    arith,
    length-take (nal_end_of frame from - from) (drop from frame),
    length-drop from frame,
    nal_end_range frame from h,
  );
  no_start_code = unit_no_start_code frame from;
}

split_from-IsUnit : (fuel : ℕ) (frame : List ℕ) (from : ℕ) → All IsUnit (split_from fuel frame from)
unfolding split_from
split_from-IsUnit zero frame from = tt
split_from-IsUnit (suc fuel) frame from = elim (Option-cases (find_next_start_code frame from)) [
  | inl e ↦ rw (e, split_from) tt
  | inr ((s, n), e) ↦
      let rest = split_from-IsUnit fuel frame (nal_end_of frame (s + n)) in
      elim (Bool-cases (ltb (s + n) (nal_end_of frame (s + n)))) [
        | inl some_bytes ↦
            rw (e, split_from, some_bytes)
              (
                piece-IsUnit frame (s + n) (find_next_range frame from s n e).2
                    (ltb→lt _ _ some_bytes),
                rest,
              )
        | inr no_bytes ↦ rw (e, split_from, no_bytes) rest
      ]
]

-- Every unit that the splitter returns, on any bytes, has at least one byte and holds no start code
-- 00 00 01.
pub split-IsUnit : (frame : List ℕ) → All IsUnit (split_h264_annexb_nalus frame)
unfolding split_h264_annexb_nalus
split-IsUnit frame = split_from-IsUnit (suc (length frame)) frame 0
