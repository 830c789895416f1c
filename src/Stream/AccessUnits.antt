-- ===== src/Stream/AccessUnits.antt =====
-- src/stream_publish.rs: `find_next_aud_start` and `drain_h264_access_units`, which cut the encoder's
-- byte stream at its access unit delimiters.
use clankvox.Base.{
  ℕ, zero, suc, ◌+◌, ◌%◌, Bool, not, ◌&&◌, Option, none, some, List, [], ◌∷◌, ◌++◌, ◌==◌,
  if◌then◌else◌, length, take, drop, get_or, is_empty,
}
use clankvox.AnnexB.{find_next_start_code}

-- The header byte of a NAL unit says access unit delimiter; a missing byte does not.
abbrev pub is_aud : List ℕ → ℕ → Bool
is_aud bytes nal_start = get_or bytes nal_start 0 % 32 == 9

-- One round over the start codes, and how the search goes on.
abbrev pub take_aud : List ℕ → Option (ℕ × ℕ) → (ℕ → Option ℕ) → Option ℕ
take_aud bytes none next = none
take_aud bytes (some (index, start_code_len)) next =
    if is_aud bytes (index + start_code_len) then some index else next (index + start_code_len)

-- The loop over the start codes.
unfoldable pub find_aud_from : ℕ → List ℕ → ℕ → Option ℕ
find_aud_from zero bytes search_from = none
find_aud_from (suc fuel) bytes search_from =
    take_aud bytes (find_next_start_code bytes search_from) (find_aud_from fuel bytes)

unfoldable pub find_next_aud_start : List ℕ → ℕ → Option ℕ
unfolding find_aud_from
find_next_aud_start bytes from = find_aud_from (suc (length bytes)) bytes from

-- One round of the loop that drains whole access units, and how the loop goes on.
abbrev pub drain_next :
    List ℕ → Option ℕ → (List ℕ → List (List ℕ) × List ℕ) → List (List ℕ) × List ℕ
drain_next buffer none next = ([], buffer)
drain_next buffer (some next_aud) next =
    if next_aud == 0
    then ([], buffer)
    else (take next_aud buffer ∷ (next (drop next_aud buffer)).0, (next (drop next_aud buffer)).1)

-- The loop; the fuel is the length of the buffer.
unfoldable pub drain_from : ℕ → List ℕ → List (List ℕ) × List ℕ
unfolding find_next_aud_start
drain_from zero buffer = ([], buffer)
drain_from (suc fuel) buffer = drain_next buffer (find_next_aud_start buffer 4) (drain_from fuel)

-- The tail is taken too when the stream has ended.
abbrev pub flush : Bool → List (List ℕ) × List ℕ → List (List ℕ) × List ℕ
flush flush_tail (out, buffer) =
    if flush_tail && not (is_empty buffer) then (out ++ (buffer ∷ []), []) else (out, buffer)

-- The bytes before the first delimiter are dropped; without one, nothing happens.
abbrev pub drain_start : List ℕ → Bool → Option ℕ → List (List ℕ) × List ℕ
drain_start buffer flush_tail none = ([], buffer)
drain_start buffer flush_tail (some first_aud) =
    flush flush_tail (drain_from (length (drop first_aud buffer)) (drop first_aud buffer))

unfoldable pub drain_h264_access_units : List ℕ → Bool → List (List ℕ) × List ℕ
unfolding drain_from find_next_aud_start
drain_h264_access_units buffer flush_tail =
    drain_start buffer flush_tail (find_next_aud_start buffer 0)
