-- ===== src/Vp8/Bounded.antt =====
-- src/vp8.rs: the payload descriptor and the depacketizer on arbitrary payloads.
use clankvox.Base.{
  ℕ, ◌+◌, ◌%◌, ◌≤◌, Bool, true, false, not, ◌&&◌, Option, none, some, List, [], ◌∷◌, ◌++◌, ◌≡◌, ◌⊎◌,
  inl, inr, arith, refl, ltb, ◌==◌, if◌then◌else◌, length, length-append, drop, is_empty,
  Bool-cases,
}
use clankvox.Base.Outcome.{Outcome, ok, panic, ◌>>=◌, index, index_in_range, slice_from_in_range}
use clankvox.Base.Bytes.{bit7, bit4}
use clankvox.H264.{max_video_frame_bytes, Frame}
use clankvox.H264.Bounded.{IsFrame, length_of_not_empty}
use clankvox.Vp8.{
  default, Vp8Depacketizer, parse_vp8_payload_descriptor, skip_extension, prepare, append_payload,
  push,
}

abbrev Inside : List ℕ → Outcome (Option (ℕ × Bool)) → Type 0
Inside payload panic = ⊥
Inside payload (ok none) = Unit
Inside payload (ok (some (n, _))) = (1 ≤ n) × (n ≤ length payload)

abbrev Skipped : Outcome (Option ℕ) → Type 0
Skipped panic = ⊥
Skipped (ok none) = Unit
Skipped (ok (some n)) = 1 ≤ n

skip_extension-Skipped : (payload : List ℕ) (cursor : ℕ) → Skipped (skip_extension payload cursor)
unfolding skip_extension
skip_extension-Skipped payload cursor =
    ground (arith, index_in_range payload cursor, index_in_range payload (cursor + 1))

-- The last step of the parser, from the cursor behind the descriptor.
finish-Inside :
    (payload : List ℕ) (s : Bool) (end : Outcome (Option ℕ))
    → Skipped end
    → Inside payload (
        end >>= λ e. ok (elim e [
          | none ↦ none
          | some cursor ↦ if ltb (length payload) cursor then none else some (cursor, s)
        ]))
finish-Inside payload s panic h = h
finish-Inside payload s (ok none) h = tt
finish-Inside payload s (ok (some n)) h = elim (Bool-cases (ltb (length payload) n)) [
  | inl long ↦ rw long tt
  | inr fits ↦ rw fits (h, ground arith)
]

parse-Inside : (payload : List ℕ) → Inside payload (parse_vp8_payload_descriptor payload)
unfolding parse_vp8_payload_descriptor index
parse-Inside [] = tt
parse-Inside (b ∷ bs) =
    finish-Inside (b ∷ bs) (bit4 b && b % 16 == 0)
      (if bit7 b then skip_extension (b ∷ bs) 1 else ok (some 1))
      (elim (Bool-cases (bit7 b)) [
        | inl x ↦ rw x (skip_extension-Skipped (b ∷ bs) 1)
        | inr no_x ↦ rw no_x (omega arith)
      ])

-- A parse that satisfies `Inside`, taken apart.
Inside-cases :
    (payload : List ℕ) (r : Outcome (Option (ℕ × Bool)))
    → Inside payload r
    → (r ≡ ok none)
      ⊎ ((n : ℕ) × (s : Bool) × (r ≡ ok (some (n, s))) × (1 ≤ n) × (n ≤ length payload))
Inside-cases payload panic h = absurd h
Inside-cases payload (ok none) h = inl refl
Inside-cases payload (ok (some (n, s))) h = inr (n, s, refl, h.0, h.1)

-- The payload descriptor of any payload is read without a panic; where it is accepted it takes between
-- one byte and the whole payload.
pub parse_vp8_payload_descriptor_bounds :
    (payload : List ℕ)
    → (parse_vp8_payload_descriptor payload ≡ ok none)
      ⊎ ((n : ℕ) × (s : Bool) × (parse_vp8_payload_descriptor payload ≡ ok (some (n, s)))
          × (1 ≤ n)
          × (n ≤ length payload))
parse_vp8_payload_descriptor_bounds payload =
    Inside-cases payload (parse_vp8_payload_descriptor payload) (parse-Inside payload)

-- The buffer holds at most `MAX_VIDEO_FRAME_BYTES`.
pub record IsBounded (d : Vp8Depacketizer) : Type 0 where
  pub bounded : length d.buffer ≤ max_video_frame_bytes

abbrev pub Returns : Outcome (Option Frame × Vp8Depacketizer) → Type 0
Returns (ok result) = IsFrame result.0 × IsBounded result.1
Returns panic = ⊥

prepare-IsBounded : (d : Vp8Depacketizer) (t : ℕ) → IsBounded d → IsBounded (prepare d t)
prepare-IsBounded d t h = ground arith

-- The buffer that a payload within the limit leaves, and the frame that the marker makes of it.
module _ (d : Vp8Depacketizer) (bytes : List ℕ)
    (small : ltb max_video_frame_bytes (length d.buffer + length bytes) ≡ false) where
  full_small : length (d.buffer ++ bytes) ≤ max_video_frame_bytes
  full_small = ground (arith, length-append d.buffer bytes)

  emit-Returns :
      (kept : Vp8Depacketizer) (marker flag : Bool)
      → kept.buffer ≡ d.buffer ++ bytes
      → Returns (
          ok (
            if marker && not (is_empty (d.buffer ++ bytes))
            then (some (d.buffer ++ bytes, flag), default)
            else (none, kept)))
  emit-Returns kept false flag e = (tt, ground (arith, full_small))
  emit-Returns kept true flag e = elim (Bool-cases (is_empty (d.buffer ++ bytes))) [
    | inl empty ↦ rw empty (tt, ground (arith, full_small))
    | inr full ↦ rw full ((length_of_not_empty (d.buffer ++ bytes) full, full_small), omega arith)
  ]

append_payload-Returns :
    (d : Vp8Depacketizer) (s marker : Bool) (bytes : List ℕ)
    → IsBounded d
    → Returns (ok (append_payload d s marker bytes))
unfolding append_payload
append_payload-Returns d true marker bytes h =
    elim (Bool-cases (ltb max_video_frame_bytes (length d.buffer + length bytes))) [
      | inl large ↦ rw large (tt, omega arith)
      | inr small ↦ rw small (emit-Returns d bytes small _ marker _ refl)
    ]
append_payload-Returns d false marker bytes h =
    elim (Bool-cases (not d.saw_partition_start && is_empty d.buffer)) [
      | inl dropped ↦ rw dropped (tt, h)
      | inr kept ↦ elim (Bool-cases (ltb max_video_frame_bytes (length d.buffer + length bytes))) [
        | inl large ↦ rw (kept, large) (tt, omega arith)
        | inr small ↦ rw (kept, small) (emit-Returns d bytes small _ marker _ refl)
      ]
    ]

-- On any payload, in any state whose buffer is within 8 MiB, `push` returns without a panic, keeps the
-- buffer within 8 MiB, and any frame that it hands on is not empty and within 8 MiB.
pub push-Returns :
    (d : Vp8Depacketizer) (timestamp : ℕ) (marker : Bool) (payload : List ℕ)
    → IsBounded d
    → Returns (push d timestamp marker payload)
unfolding push
push-Returns d timestamp marker payload h = elim (parse_vp8_payload_descriptor_bounds payload) [
  | inl e ↦ rw e (tt, h)
  | inr (n, s, e, low, high) ↦
      let d' = prepare d timestamp in
      rw (e, slice_from_in_range payload n high)
        (elim (Bool-cases (is_empty (drop n payload))) [
          | inl empty ↦ rw empty (tt, h)
          | inr full ↦ rw full (
              append_payload-Returns d' s marker (drop n payload) (prepare-IsBounded d timestamp h))
        ])
]
