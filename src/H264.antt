-- ===== src/H264.antt =====
-- src/h264.rs: the H.264 depacketizer. A method returns what it returns beside the new state; the
-- `Bool` of a helper says whether `push` goes on (`false` is an early `return None`).
pub mod Bounded
use clankvox.Base.{
  ℕ, zero, suc, ◌+◌, ◌*◌, ◌/◌, ◌%◌, Bool, true, false, not, ◌&&◌, ◌||◌, Option, none, some, List,
  [], ◌∷◌, ◌++◌, ltb, leb, ◌==◌, if◌then◌else◌, is_some_eq, is_none, length, is_empty,
}
use clankvox.Base.Bytes.{bit7, bit6, of_u16_be}
use clankvox.Base.Outcome.{Outcome, ok, panic, ◌>>=◌, index, slice, slice_from}
use clankvox.AnnexB.{h264_annexb_has_idr_slice, annexb_contains_nal_type}

-- 8 MiB
abbrev pub max_video_frame_bytes : ℕ
max_video_frame_bytes = 8388608

pub record H264Depacketizer : Type 0 where
  pub timestamp : Option ℕ
  pub buffer : List ℕ
  pub keyframe : Bool
  pub in_fu : Bool
  pub cached_sps : Option (List ℕ)
  pub cached_pps : Option (List ℕ)

abbrev pub default : H264Depacketizer
default = record {
  timestamp = none;
  buffer = [];
  keyframe = false;
  in_fu = false;
  cached_sps = none;
  cached_pps = none;
}

unfoldable pub reset : H264Depacketizer → H264Depacketizer
reset d = record d { timestamp = none; buffer = []; keyframe = false; in_fu = false }

unfoldable pub prepare_timestamp : H264Depacketizer → ℕ → H264Depacketizer
prepare_timestamp d timestamp =
    if is_some_eq d.timestamp timestamp
    then d
    else record d { timestamp = some timestamp; buffer = []; keyframe = false; in_fu = false }

unfoldable pub append_start_code : H264Depacketizer → H264Depacketizer
append_start_code d = record d { buffer = d.buffer ++ (0 ∷ 0 ∷ 0 ∷ 1 ∷ []) }

unfoldable pub extend : H264Depacketizer → List ℕ → Bool × H264Depacketizer
unfolding reset
extend d bytes =
    if ltb max_video_frame_bytes (length d.buffer + length bytes)
    then (false, reset d)
    else (true, record d { buffer = d.buffer ++ bytes })

unfoldable pub cache_parameter_set : H264Depacketizer → ℕ → List ℕ → H264Depacketizer
cache_parameter_set d nal_type nalu =
    if nal_type == 7
    then record d { cached_sps = some nalu }
    else if nal_type == 8
    then record d { cached_pps = some nalu }
    else d

abbrev pub mark_keyframe : H264Depacketizer → ℕ → H264Depacketizer
mark_keyframe d nal_type = if nal_type == 5 then record d { keyframe = true } else d

-- The arm `1..=23`: a whole NAL unit.
unfoldable pub push_single : H264Depacketizer → ℕ → List ℕ → Bool × H264Depacketizer
push_single d nal_type payload =
    let (fits, d') = extend (append_start_code (cache_parameter_set d nal_type payload)) payload in
    if fits then (true, record (mark_keyframe d' nal_type) { in_fu = false }) else (false, d')

-- One unit of the arm `24`, `if !nalu.is_empty()`.
unfoldable pub push_stap_nalu : H264Depacketizer → List ℕ → Bool × H264Depacketizer
push_stap_nalu d [] = (true, d)
push_stap_nalu d (byte ∷ bytes) =
    let stap_nal_type = byte % 32 in
    let d' = mark_keyframe (cache_parameter_set d stap_nal_type (byte ∷ bytes)) stap_nal_type in
    extend (append_start_code d') (byte ∷ bytes)

-- The unit behind the length field at `cursor`; `none` for a length of 0 or past the end.
unfoldable pub stap_nalu_at : List ℕ → ℕ → Outcome (Option (List ℕ))
stap_nalu_at payload cursor = do
  high ← index payload cursor
  low ← index payload (cursor + 1)
  let nalu_len = of_u16_be high low
  if nalu_len == 0 || ltb (length payload) (cursor + 2 + nalu_len)
      then ok none
      else (slice payload (cursor + 2) (cursor + 2 + nalu_len) >>= λ nalu. ok (some nalu))

-- The arm `24`: a STAP-A aggregate. The `while` loop has fuel, and panics without.
unfoldable pub push_stap : ℕ → H264Depacketizer → List ℕ → ℕ → Outcome (Bool × H264Depacketizer)
unfolding reset
push_stap zero d payload cursor = panic
push_stap (suc fuel) d payload cursor =
    if leb (cursor + 2) (length payload)
    then (stap_nalu_at payload cursor >>= elim [
      | none ↦ ok (false, reset d)
      | some nalu ↦
          let (fits, d') = push_stap_nalu d nalu in
          let rest = push_stap fuel d' payload (cursor + 2 + length nalu) in
          if fits then rest else ok (false, d')
    ])
    else ok (true, d)

-- The arm `28`: an FU-A fragment.
unfoldable pub push_fu : H264Depacketizer → List ℕ → Outcome (Bool × H264Depacketizer)
push_fu d payload = if ltb (length payload) 2 then ok (false, d) else do
  indicator ← index payload 0
  fu_header ← index payload 1
  fragment ← slice_from payload 2
  let start = bit7 fu_header
  let nal_type = fu_header % 32
  let reconstructed_header = indicator / 32 * 32 + nal_type
  let (fits_header, opened) = extend (append_start_code d) (reconstructed_header ∷ [])
  let (fits_start, started) = extend opened fragment
  let (fits_more, continued) = extend d fragment
  ok (
      if start
      then if fits_header
        then if fits_start
          then (true, mark_keyframe (record started { in_fu = true }) nal_type)
          else (false, started)
        else (false, opened)
      else if not d.in_fu
      then (false, d)
      else if fits_more
      then (true, if bit6 fu_header then record continued { in_fu = false } else continued)
      else (false, continued))

unfoldable pub assemble : H264Depacketizer → ℕ → List ℕ → Outcome (Bool × H264Depacketizer)
assemble d nal_type payload =
    if leb 1 nal_type && leb nal_type 23
    then ok (push_single d nal_type payload)
    else if nal_type == 24
    then push_stap (length payload) d payload 1
    else if nal_type == 28
    then push_fu d payload
    else ok (false, d)

-- A frame and its keyframe flag.
abbrev pub Frame : Type 0
Frame = List ℕ × Bool

unfoldable pub emit : H264Depacketizer → Bool → Option Frame × H264Depacketizer
emit d marker =
    if marker && not (is_empty d.buffer)
    then (
      some (d.buffer, d.keyframe || h264_annexb_has_idr_slice d.buffer),
      record d { timestamp = none; buffer = []; keyframe = false; in_fu = false },
    )
    else (none, d)

unfoldable pub push :
    H264Depacketizer → ℕ → Bool → List ℕ → Outcome (Option Frame × H264Depacketizer)
push d timestamp marker payload = if is_empty payload then ok (none, d) else do
  first ← index payload 0
  step ← assemble (prepare_timestamp d timestamp) (first % 32) payload
  let (goes_on, d') = step
  ok (if goes_on then emit d' marker else (none, d'))

abbrev pub with_start_code : Option (List ℕ) → List ℕ
with_start_code none = []
with_start_code (some bytes) = 0 ∷ 0 ∷ 0 ∷ 1 ∷ bytes

-- The early returns of the code give the frame itself, as an empty prefix does.
unfoldable pub prepend_cached_parameter_sets : H264Depacketizer → List ℕ → List ℕ
prepend_cached_parameter_sets d frame =
    let has_sps = annexb_contains_nal_type frame 7 in
    let has_pps = annexb_contains_nal_type frame 8 in
    let sps = if not has_sps then d.cached_sps else none in
    let pps = if not has_pps then d.cached_pps else none in
    if has_sps && has_pps
    then frame
    else if is_none sps && is_none pps
    then frame
    else with_start_code sps ++ (with_start_code pps ++ frame)
