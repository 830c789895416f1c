-- ===== src/Ipc.antt =====
-- src/ipc.rs: the binary payload of captured audio, and the two lanes between the reader of standard
-- input and the main loop. `str::parse::<u64>` is a parameter; a message is a value of any type, with
-- the test `is_lossy_inbound_msg`.
pub mod Lanes
pub mod Payload
use Prim.Native.String.{String}
use clankvox.Base.{
  ℕ, ◌+◌, ◌/◌, ◌%◌, ◌^◌, min, Bool, true, false, Option, none, some, List, [], ◌∷◌, ◌++◌, ltb, leb,
  if◌then◌else◌, length,
}
use clankvox.Base.Bytes.{u32_mod}

unfoldable pub u16_le : ℕ → List ℕ
u16_le x = x % 256 ∷ x / 256 % 256 ∷ []

unfoldable pub u32_le : ℕ → List ℕ
u32_le x = x % 256 ∷ x / 256 % 256 ∷ x / 65536 % 256 ∷ x / 16777216 % 256 ∷ []

-- the low half, then the high half
unfoldable pub u64_le : ℕ → List ℕ
unfolding u32_le
u64_le x = u32_le (x % u32_mod) ++ u32_le (x / u32_mod)

unfoldable pub encode_user_audio_payload :
    (String → Option ℕ) → String → List ℕ → ℕ → ℕ → ℕ → Option (List ℕ)
encode_user_audio_payload parse_u64 user_id pcm peak active_count count = elim (parse_u64 user_id) [
  | none ↦ none
  | some uid ↦
      if leb u32_mod active_count
      then none
      else if leb u32_mod count
      then none
      else some (u64_le uid ++ (u16_le peak ++ (u32_le active_count ++ (u32_le count ++ pcm))))
]

abbrev pub audio_lane_size : ℕ
audio_lane_size = 256

-- A line of standard input, as the reader classifies it; `end_of_input` is the end or a read error.
pub data Line (A : Type 0) : Type 0 where
  oversized blank invalid_json end_of_input : Line A
  message : A → Line A

pub data IpcError : Type 0 where
  input_too_large invalid_json_message : IpcError

-- The channels `control` and `audio` hold what is not yet received, oldest first; `received_control` and
-- `received_audio` record what `recv` has returned from each of them.
pub record InboundIpc (A : Type 0) : Type 0 where
  pub reading : Bool
  pub control : List A
  pub audio : List A
  pub dropped_audio_messages : ℕ
  pub errors : List IpcError
  pub received_control : List A
  pub received_audio : List A

module _ {A : Type 0} (is_lossy : A → Bool) (destroy : A) where
  abbrev pub send_audio : InboundIpc A → A → InboundIpc A
  send_audio s m =
      if ltb (length s.audio) audio_lane_size
      then record s { audio = s.audio ++ (m ∷ []); dropped_audio_messages = 0 }
      else record s {
        dropped_audio_messages = min (s.dropped_audio_messages + 1) 18446744073709551615;
      }

  -- One round of the reader's loop, while it runs.
  unfoldable pub read_line : InboundIpc A → Line A → InboundIpc A
  read_line s oversized = record s { errors = s.errors ++ (input_too_large ∷ []) }
  read_line s blank = s
  read_line s invalid_json = record s { errors = s.errors ++ (invalid_json_message ∷ []) }
  read_line s end_of_input = record s { reading = false; control = s.control ++ (destroy ∷ []) }
  read_line s (message m) =
      if is_lossy m then send_audio s m else record s { control = s.control ++ (m ∷ []) }

  abbrev pub recv_audio : InboundIpc A → List A → InboundIpc A
  recv_audio s [] = s
  recv_audio s (m ∷ rest) = record s { audio = rest; received_audio = s.received_audio ++ (m ∷ []) }

  abbrev pub recv_from : InboundIpc A → List A → InboundIpc A
  recv_from s [] = recv_audio s s.audio
  recv_from s (m ∷ rest) = record s {
    control = rest;
    received_control = s.received_control ++ (m ∷ []);
  }

  -- `recv`, biased to the control lane; it waits while both are empty.
  unfoldable pub recv : InboundIpc A → InboundIpc A
  recv s = recv_from s s.control
