-- ===== src/H264/Bounded.antt =====
-- src/h264.rs: `H264Depacketizer::push` on arbitrary payloads, and the size of its buffer.
use clankvox.Base.{
  ℕ, zero, suc, ◌+◌, ◌-◌, ◌*◌, ◌/◌, ◌%◌, ◌<◌, ◌≤◌, Bool, true, false, ◌||◌, Option, none, some,
  List, [], ◌∷◌, ◌≡◌, arith, ◌⊎◌, inl, inr, ltb, leb, ◌==◌, if◌then◌else◌, length, length-append,
  length-take, min, length-drop, take, drop, is_empty, Bool-cases, leb→le,
}
use clankvox.Base.Bytes.{of_u16_be}
use clankvox.Base.Outcome.{
  Outcome, ok, panic, ◌>>=◌, index, index_in_range, slice_in_range, slice_from_in_range,
}
use clankvox.Rtp.Pure.{byte}
use clankvox.H264.{
  H264Depacketizer, Frame, max_video_frame_bytes, prepare_timestamp, append_start_code, extend,
  cache_parameter_set, mark_keyframe, push_single, push_stap_nalu, push_stap, stap_nalu_at, push_fu,
  assemble, emit, push,
}

-- The buffer holds at most `MAX_VIDEO_FRAME_BYTES`.
pub record IsBounded (d : H264Depacketizer) : Type 0 where
  pub bounded : length d.buffer ≤ max_video_frame_bytes

pub extend-IsBounded : (d : H264Depacketizer) (bytes : List ℕ) → IsBounded (extend d bytes).1
unfolding extend
extend-IsBounded d bytes = ground (arith, length-append d.buffer bytes)

push_single-IsBounded :
    (d : H264Depacketizer) (t : ℕ) (payload : List ℕ) → IsBounded (push_single d t payload).1
unfolding push_single
push_single-IsBounded d t payload =
    ground (arith, extend-IsBounded (append_start_code (cache_parameter_set d t payload)) payload)

push_stap_nalu-IsBounded :
    (d : H264Depacketizer) (nalu : List ℕ) → IsBounded d → IsBounded (push_stap_nalu d nalu).1
unfolding push_stap_nalu
push_stap_nalu-IsBounded d [] h = h
push_stap_nalu-IsBounded d (b ∷ bs) h =
    extend-IsBounded
      (append_start_code (mark_keyframe (cache_parameter_set d (b % 32) (b ∷ bs)) (b % 32)))
      (b ∷ bs)

-- A normal return of a step with a bounded state.
abbrev Fine : Outcome (Bool × H264Depacketizer) → Type 0
Fine (ok step) = IsBounded step.1
Fine panic = ⊥

push_fu-Fine : (d : H264Depacketizer) (payload : List ℕ) → IsBounded d → Fine (push_fu d payload)
unfolding push_fu
push_fu-Fine d payload h = elim (Bool-cases (ltb (length payload) 2)) [
  | inl short ↦ rw short h
  | inr long ↦
      let header = byte payload 0 / 32 * 32 + byte payload 1 % 32 in
      let opened = (extend (append_start_code d) (header ∷ [])).1 in
      rw
        (
          long,
          index_in_range payload 0 (ground arith),
          index_in_range payload 1 (ground arith),
          slice_from_in_range payload 2 (ground arith),
        )
        (ground (
          arith,
          extend-IsBounded (append_start_code d) (header ∷ []),
          extend-IsBounded opened (drop 2 payload),
          extend-IsBounded d (drop 2 payload),
        ))
]

length-slice :
    (payload : List ℕ) (cursor n : ℕ)
    → length (take (cursor + 2 + n - (cursor + 2)) (drop (cursor + 2) payload))
      ≡ min n (length payload - (cursor + 2))
length-slice payload cursor n = omega (
  arith,
  length-take (cursor + 2 + n - (cursor + 2)) (drop (cursor + 2) payload),
  length-drop (cursor + 2) payload,
)

stap_nalu_at_lem :
    (payload : List ℕ) (cursor : ℕ)
    → cursor + 2 ≤ length payload
    → (stap_nalu_at payload cursor ≡ ok none)
      ⊎ ((nalu : List ℕ) × (stap_nalu_at payload cursor ≡ ok (some nalu))
          × (0 < length nalu)
          × (cursor + 2 + length nalu ≤ length payload))
unfolding stap_nalu_at
stap_nalu_at_lem payload cursor h =
    let n = of_u16_be (byte payload cursor) (byte payload (cursor + 1)) in
    let high = index_in_range payload cursor (omega arith) in
    let low = index_in_range payload (cursor + 1) (omega arith) in
    elim (Bool-cases (n == 0 || ltb (length payload) (cursor + 2 + n))) [
      | inl bad ↦ inl (rw (high, low, bad))
      | inr fine ↦ inr (
        take (cursor + 2 + n - (cursor + 2)) (drop (cursor + 2) payload),
        rw (
          high,
          low,
          fine,
          slice_in_range payload (cursor + 2) (cursor + 2 + n) (omega arith) (ground arith),
        ),
        ground (arith, length-slice payload cursor n),
        ground (arith, length-slice payload cursor n),
      )
    ]

push_stap-Fine :
    (fuel : ℕ) (d : H264Depacketizer) (payload : List ℕ) (cursor : ℕ)
    → IsBounded d
    → cursor ≤ length payload
    → length payload < cursor + fuel
    → Fine (push_stap fuel d payload cursor)
unfolding push_stap
push_stap-Fine zero d payload cursor h c f = absurd (omega arith)
push_stap-Fine (suc fuel) d payload cursor h c f =
    elim (Bool-cases (leb (cursor + 2) (length payload))) [
      | inr done ↦ rw done h
      | inl more ↦ elim (stap_nalu_at_lem payload cursor (leb→le _ _ more)) [
        | inl e ↦ rw (more, e) (omega arith)
        | inr (nalu, e, pos, inside) ↦
            let d' = (push_stap_nalu d nalu).1 in
            let h' = push_stap_nalu-IsBounded d nalu h in
            let rest =
              push_stap-Fine fuel d' payload (cursor + 2 + length nalu) h' inside (omega arith) in
            rw (more, e)
              (elim (Bool-cases (push_stap_nalu d nalu).0) [
                | inl fits ↦ rw fits rest
                | inr not_fits ↦ rw not_fits h'
              ])
      ]
    ]

assemble-Fine :
    (d : H264Depacketizer) (t : ℕ) (payload : List ℕ)
    → IsBounded d
    → 0 < length payload
    → Fine (assemble d t payload)
unfolding assemble
assemble-Fine d t payload h pos =
    let stap = push_stap-Fine (length payload) d payload 1 h pos (omega arith) in
    let fu = push_fu-Fine d payload h in ground (arith, push_single-IsBounded d t payload, stap, fu)

-- A frame that is handed on is not empty and within the limit.
abbrev pub IsFrame : Option Frame → Type 0
IsFrame none = Unit
IsFrame (some frame) = (0 < length frame.0) × (length frame.0 ≤ max_video_frame_bytes)

abbrev pub Returns : Outcome (Option Frame × H264Depacketizer) → Type 0
Returns (ok result) = IsFrame result.0 × IsBounded result.1
Returns panic = ⊥

pub length_of_not_empty : (xs : List ℕ) → is_empty xs ≡ false → 0 < length xs
length_of_not_empty [] e = cc
length_of_not_empty (x ∷ xs) e = omega arith

emit-Returns : (d : H264Depacketizer) (marker : Bool) → IsBounded d → Returns (ok (emit d marker))
unfolding emit
emit-Returns d false h = (tt, h)
emit-Returns d true h = elim (Bool-cases (is_empty d.buffer)) [
  | inl empty ↦ rw empty (tt, h)
  | inr full ↦ rw full ((length_of_not_empty d.buffer full, h.bounded), omega arith)
]

prepare_timestamp-IsBounded :
    (d : H264Depacketizer) (t : ℕ) → IsBounded d → IsBounded (prepare_timestamp d t)
unfolding prepare_timestamp
prepare_timestamp-IsBounded d t h = ground arith

-- The last step of `push`, after `assemble`.
finish-Returns :
    (marker : Bool) (r : Outcome (Bool × H264Depacketizer))
    → Fine r
    → Returns (r >>= λ step. ok (if step.0 then emit step.1 marker else (none, step.1)))
finish-Returns marker (ok (true, d)) h = emit-Returns d marker h
finish-Returns marker (ok (false, d)) h = (tt, h)
finish-Returns marker panic h = h

-- On any payload, in any state whose buffer is within 8 MiB, `push` returns without a panic, keeps the
-- buffer within 8 MiB, and any frame that it hands on is not empty and within 8 MiB.
pub push-Returns :
    (d : H264Depacketizer) (timestamp : ℕ) (marker : Bool) (payload : List ℕ)
    → IsBounded d
    → Returns (push d timestamp marker payload)
unfolding push index
push-Returns d timestamp marker [] h = (tt, h)
push-Returns d timestamp marker (b ∷ bs) h =
    let d' = prepare_timestamp d timestamp in
    finish-Returns marker (assemble d' (b % 32) (b ∷ bs))
      (assemble-Fine d' (b % 32) (b ∷ bs) (prepare_timestamp-IsBounded d timestamp h) (omega arith))
