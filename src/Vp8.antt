-- ===== src/Vp8.antt =====
-- src/vp8.rs: the VP8 payload descriptor and the VP8 depacketizer.
pub mod Bounded
use clankvox.Base.{
  ℕ, suc, ◌+◌, ◌%◌, Bool, true, false, not, ◌&&◌, ◌||◌, Option, none, some, List, [], ◌∷◌, ◌++◌,
  ltb, ◌==◌, if◌then◌else◌, is_some_eq, length, is_empty,
}
use clankvox.Base.Bytes.{bit7, bit6, bit5, bit4}
use clankvox.Base.Outcome.{Outcome, ok, panic, ◌>>=◌, index, slice_from}
use clankvox.H264.{max_video_frame_bytes, Frame}

pub record Vp8Depacketizer : Type 0 where
  pub timestamp : Option ℕ
  pub buffer : List ℕ
  pub keyframe : Bool
  pub saw_partition_start : Bool

abbrev pub default : Vp8Depacketizer
default = record { timestamp = none; buffer = []; keyframe = false; saw_partition_start = false }

-- The extended control bits, the `if x` block: the new cursor, or `none` for `return None`.
unfoldable pub skip_extension : List ℕ → ℕ → Outcome (Option ℕ)
skip_extension payload cursor = if ltb (length payload) (cursor + 1) then ok none else do
  bits ← index payload cursor
  let after_bits = cursor + 1
  after_id ←
      (if bit7 bits
        then if ltb (length payload) (after_bits + 1)
          then ok none
          else (index payload after_bits >>= λ picture_id.
              ok (some (after_bits + (if bit7 picture_id then 2 else 1))))
        else ok (some after_bits))
  ok (elim after_id [
    | none ↦ none
    | some at ↦ some (at + (if bit6 bits then 1 else 0) + (if bit5 bits || bit4 bits then 1 else 0))
  ])

unfoldable pub parse_vp8_payload_descriptor : List ℕ → Outcome (Option (ℕ × Bool))
parse_vp8_payload_descriptor payload = if is_empty payload then ok none else do
  first ← index payload 0
  let s = bit4 first
  let partition_id = first % 16
  end ← (if bit7 first then skip_extension payload 1 else ok (some 1))
  ok (elim end [
    | none ↦ none
    | some cursor ↦
        if ltb (length payload) cursor then none else some (cursor, s && partition_id == 0)
  ])

unfoldable pub reset : Vp8Depacketizer → Vp8Depacketizer
reset d = record { timestamp = none; buffer = []; keyframe = false; saw_partition_start = false }

abbrev pub prepare : Vp8Depacketizer → ℕ → Vp8Depacketizer
prepare d timestamp = if is_some_eq d.timestamp timestamp then d else record {
  timestamp = some timestamp;
  buffer = [];
  keyframe = false;
  saw_partition_start = false;
}

abbrev pub starts_keyframe : List ℕ → Bool → Bool
starts_keyframe [] before = before
starts_keyframe (first_byte ∷ _) before = first_byte % 2 == 0

-- From the partition test on, on a payload that is not empty.
unfoldable pub append_payload :
    Vp8Depacketizer → Bool → Bool → List ℕ → Option Frame × Vp8Depacketizer
append_payload d start_of_partition marker frame_payload =
    let marked =
      if start_of_partition
      then record d {
        saw_partition_start = true;
        keyframe = starts_keyframe frame_payload d.keyframe;
      }
      else d in
    let full = record marked { buffer = marked.buffer ++ frame_payload } in
    if not start_of_partition && (not d.saw_partition_start && is_empty d.buffer)
    then (none, d)
    else if ltb max_video_frame_bytes (length marked.buffer + length frame_payload)
    then (
      none,
      record { timestamp = none; buffer = []; keyframe = false; saw_partition_start = false },
    )
    else if marker && not (is_empty full.buffer)
    then (
      some (full.buffer, full.keyframe),
      record { timestamp = none; buffer = []; keyframe = false; saw_partition_start = false },
    )
    else (none, full)

unfoldable pub push : Vp8Depacketizer → ℕ → Bool → List ℕ → Outcome (Option Frame × Vp8Depacketizer)
push d timestamp marker payload = do
  descriptor ← parse_vp8_payload_descriptor payload
  elim descriptor [
    | none ↦ ok (none, d)
    | some (descriptor_len, start_of_partition) ↦
        slice_from payload descriptor_len >>= λ frame_payload. ok (
          if is_empty frame_payload
          then (none, d)
          else append_payload (prepare d timestamp) start_of_partition marker frame_payload)
  ]
