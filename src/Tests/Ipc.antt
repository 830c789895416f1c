-- ===== src/Tests/Ipc.antt =====
-- The properties of the IPC layer at concrete inputs.
use Prim.Native.String.{String}
use clankvox.Base.{ℕ, Bool, true, Option, some, List, [], ◌∷◌, ◌≡◌, refl, arith, leb}
use clankvox.Ipc.{InboundIpc, message, end_of_input, oversized, encode_user_audio_payload}
use clankvox.Ipc.Payload.{read_user_audio, read-encode_user_audio_payload}
use clankvox.Ipc.Lanes.{Event, line, receive}

abbrev always_42 : String → Option ℕ
always_42 text = some 42

read-encode_user_audio_payload_example :
    (payload : List ℕ) × (encode_user_audio_payload always_42 "42" (1 ∷ 2 ∷ []) 300 70000 96000
      ≡ some payload)
    × (read_user_audio payload ≡ (42, 300, 70000, 96000, 1 ∷ 2 ∷ []))
read-encode_user_audio_payload_example =
    read-encode_user_audio_payload always_42 "42" (1 ∷ 2 ∷ []) 42 300 70000 96000 refl (omega arith)
      (omega arith) (omega arith) (omega arith)

-- Messages are numbers, audio from 100 on, and 0 is `Destroy`.
abbrev is_audio : ℕ → Bool
is_audio m = leb 100 m

abbrev lanes : InboundIpc ℕ
lanes = record {
  reading = true;
  control = [];
  audio = [];
  dropped_audio_messages = 0;
  errors = [];
  received_control = [];
  received_audio = [];
}

abbrev traffic : List (Event ℕ)
traffic =
    line (message 100)
    ∷ line (message 7)
    ∷ receive
    ∷ line oversized
    ∷ line (message 8)
    ∷ receive
    ∷ line end_of_input
    ∷ receive
    ∷ []
