-- ===== src/Ipc/Payload.antt =====
-- src/ipc.rs: a reader of the audio payload, against `encode_user_audio_payload`.
use Prim.Native.String.{String}
use clankvox.Base.{ℕ, ◌+◌, ◌*◌, ◌<◌, Option, some, List, ◌++◌, ◌≡◌, arith, drop}
use clankvox.Base.Bytes.{u32_mod}
use clankvox.Rtp.Pure.{byte}
use clankvox.Ipc.{u16_le, u32_le, u64_le, encode_user_audio_payload}

abbrev pub le_16 : List ℕ → ℕ → ℕ
le_16 xs at = byte xs at + byte xs (at + 1) * 256

abbrev pub le_32 : List ℕ → ℕ → ℕ
le_32 xs at = le_16 xs at + le_16 xs (at + 2) * 65536

-- User id, peak, active samples, samples and the PCM bytes, at their offsets in the frame.
abbrev pub read_user_audio : List ℕ → ℕ × ℕ × ℕ × ℕ × List ℕ
read_user_audio xs =
    (le_32 xs 0 + le_32 xs 4 * u32_mod, le_16 xs 8, le_32 xs 10, le_32 xs 14, drop 18 xs)

-- For a numeric user id and counts below 2^32, the payload is built, and a reader of little-endian
-- fields at the offsets 0, 8, 10, 14 and 18 gets back the user id, the peak, both counts and the PCM.
pub read-encode_user_audio_payload :
    (parse_u64 : String → Option ℕ) (user : String) (pcm : List ℕ) (uid peak active count : ℕ)
    → parse_u64 user ≡ some uid
    → uid < 18446744073709551616
    → peak < 65536
    → active < u32_mod
    → count < u32_mod
    → (payload : List ℕ) × (encode_user_audio_payload parse_u64 user pcm peak active count
        ≡ some payload)
      × (read_user_audio payload ≡ (uid, peak, active, count, pcm))
unfolding encode_user_audio_payload u64_le u32_le u16_le
read-encode_user_audio_payload parse_u64 user pcm uid peak active count e h k l m = (
  u64_le uid ++ (u16_le peak ++ (u32_le active ++ (u32_le count ++ pcm))),
  ground (arith, e),
  ground arith,
)
