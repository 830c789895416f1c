-- ===== src/AnnexB.antt =====
-- src/h264.rs: the scanners of an Annex-B byte stream. A loop over `index` is a recursion on the
-- bytes that are left; every index that these loops read is guarded by the pattern.
pub mod Scan
pub mod Split
use mathlib.Core.List.{map}
use clankvox.Base.{
  ℕ, zero, suc, ◌+◌, ◌-◌, ◌*◌, ◌%◌, Bool, true, false, not, ◌&&◌, ◌||◌, Option, none, some, List,
  [], ◌∷◌, ◌++◌, ltb, leb, ◌==◌, if◌then◌else◌, is_none, length, take, drop, is_empty,
}

-- `starts_with(&[0, 0, 1])` and `starts_with(&[0, 0, 0, 1])`
abbrev pub starts_001 : ℕ → ℕ → ℕ → Bool
starts_001 a b c = a == 0 && (b == 0 && c == 1)

abbrev pub starts_0001 : ℕ → ℕ → ℕ → List ℕ → Bool
starts_0001 a b c [] = false
starts_0001 a b c (d ∷ _) = a == 0 && (b == 0 && (c == 0 && d == 1))

unfoldable pub find_at : List ℕ → ℕ → Option (ℕ × ℕ)
find_at (a ∷ b ∷ c ∷ rest) index =
    let next = find_at (b ∷ c ∷ rest) (index + 1) in
    if starts_001 a b c
    then some (index, 3)
    else if starts_0001 a b c rest
    then some (index, 4)
    else next
find_at _ index = none

unfoldable pub find_next_start_code : List ℕ → ℕ → Option (ℕ × ℕ)
unfolding find_at
find_next_start_code bytes from = find_at (drop from bytes) from

abbrev pub first_nal_type_is : List ℕ → ℕ → Bool
first_nal_type_is [] target = false
first_nal_type_is (byte ∷ _) target = byte % 32 == target

unfoldable pub h264_annexb_has_idr_slice : List ℕ → Bool
h264_annexb_has_idr_slice (a ∷ b ∷ c ∷ d ∷ rest) =
    let after_4 = h264_annexb_has_idr_slice rest in
    let after_3 = h264_annexb_has_idr_slice (d ∷ rest) in
    let after_1 = h264_annexb_has_idr_slice (b ∷ c ∷ d ∷ rest) in
    if starts_0001 a b c (d ∷ rest)
    then first_nal_type_is rest 5 || after_4
    else if starts_001 a b c
    then d % 32 == 5 || after_3
    else after_1
h264_annexb_has_idr_slice _ = false

abbrev pub push_type : List ℕ → List ℕ → List ℕ
push_type [] types = types
push_type (byte ∷ _) types = (byte % 32) ∷ types

unfoldable pub collect_annexb_nal_types : List ℕ → List ℕ
collect_annexb_nal_types (a ∷ b ∷ c ∷ d ∷ rest) =
    let after_4 = collect_annexb_nal_types rest in
    let after_3 = collect_annexb_nal_types (d ∷ rest) in
    let after_1 = collect_annexb_nal_types (b ∷ c ∷ d ∷ rest) in
    if starts_0001 a b c (d ∷ rest)
    then push_type rest after_4
    else if starts_001 a b c
    then (d % 32) ∷ after_3
    else after_1
collect_annexb_nal_types _ = []

-- The loop runs while at least four bytes are left, `i < len - 3`.
unfoldable pub annexb_contains_nal_type : List ℕ → ℕ → Bool
annexb_contains_nal_type (a ∷ b ∷ c ∷ d ∷ rest) target =
    let after_4 = annexb_contains_nal_type rest target in
    let after_3 = annexb_contains_nal_type (d ∷ rest) target in
    let after_1 = annexb_contains_nal_type (b ∷ c ∷ d ∷ rest) target in
    if a == 0 && b == 0
    then if c == 1
      then d % 32 == target || after_3
      else if c == 0 && d == 1
      then first_nal_type_is rest target || after_4
      else after_1
    else after_1
annexb_contains_nal_type _ target = false

-- where the NAL unit that begins at `nal_start` ends
abbrev pub nal_end_of : List ℕ → ℕ → ℕ
nal_end_of frame nal_start = elim (find_next_start_code frame nal_start) [
  | none ↦ length frame
  | some (next_start, _) ↦ next_start
]

-- The `while let` loop, on fuel.
unfoldable pub split_from : ℕ → List ℕ → ℕ → List (List ℕ)
split_from zero frame search_from = []
split_from (suc fuel) frame search_from = elim (find_next_start_code frame search_from) [
  | none ↦ []
  | some (start, start_code_len) ↦
      let nal_start = start + start_code_len in
      let nal_end = nal_end_of frame nal_start in
      let nalus = split_from fuel frame nal_end in
      if ltb nal_start nal_end
      then take (nal_end - nal_start) (drop nal_start frame) ∷ nalus
      else nalus
]

unfoldable pub split_h264_annexb_nalus : List ℕ → List (List ℕ)
split_h264_annexb_nalus frame = split_from (suc (length frame)) frame 0

unfoldable pub start_code : ℕ → Option (List ℕ)
start_code n =
    if n == 3 then some (0 ∷ 0 ∷ 1 ∷ []) else if n == 4 then some (0 ∷ 0 ∷ 0 ∷ 1 ∷ []) else none

-- The `for` loop: `None` as soon as a start code of another length is asked for.
unfoldable pub write_nalus : List (List ℕ) → ℕ → ℕ → Option (List ℕ)
write_nalus [] this_len next_len = some []
write_nalus (nalu ∷ nalus) this_len next_len = elim (start_code this_len) [
  | none ↦ none
  | some code ↦ elim (write_nalus nalus next_len next_len) [
    | none ↦ none
    | some rest ↦ some (code ++ (nalu ++ rest))
  ]
]

unfoldable pub rewrite_h264_annexb_start_codes : List ℕ → ℕ → ℕ → Option (List ℕ)
rewrite_h264_annexb_start_codes frame first_start_code_len subsequent_start_code_len =
    let nalus = split_h264_annexb_nalus frame in
    if is_empty nalus
    then none
    else write_nalus nalus first_start_code_len subsequent_start_code_len
