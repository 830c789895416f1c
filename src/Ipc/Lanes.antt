-- ===== src/Ipc/Lanes.antt =====
-- src/ipc.rs: interleavings of the reader thread and the main loop.
use clankvox.Base.{◌≤◌, Bool, true, false, List, [], ◌∷◌, ◌++◌, ◌≡◌, if◌then◌else◌, length}
use clankvox.Ipc.{
  InboundIpc, Line, oversized, blank, invalid_json, end_of_input, message, read_line, recv,
}

pub data Event (A : Type 0) : Type 0 where
  line : Line A → Event A
  receive : Event A

module _ {A : Type 0} (is_lossy : A → Bool) (destroy : A) where
  -- After the end of the input the reader is gone.
  abbrev pub line_step : Bool → InboundIpc A → Line A → InboundIpc A
  line_step true s l = read_line is_lossy destroy s l
  line_step false s l = s

  unfoldable pub step : InboundIpc A → Event A → InboundIpc A
  step s (line l) = line_step s.reading s l
  step s receive = recv is_lossy destroy s

  unfoldable pub run : InboundIpc A → List (Event A) → InboundIpc A
  run s [] = s
  run s (event ∷ events) = run (step s event) events

  -- The control messages of the input, and `Destroy` where it ends.
  abbrev pub sent_by : Line A → List A
  sent_by (message m) = if is_lossy m then [] else m ∷ []
  sent_by end_of_input = destroy ∷ []
  sent_by oversized = []
  sent_by blank = []
  sent_by invalid_json = []

  abbrev pub still_reading : Line A → Bool
  still_reading end_of_input = false
  still_reading (message m) = true
  still_reading oversized = true
  still_reading blank = true
  still_reading invalid_json = true

  abbrev pub sent_control : Bool → List (Event A) → List A
  sent_control reading [] = []
  sent_control reading (receive ∷ events) = sent_control reading events
  sent_control false (line l ∷ events) = sent_control false events
  sent_control true (line l ∷ events) = sent_by l ++ sent_control (still_reading l) events

  -- The control messages that have gone through the lane, received or waiting.
  abbrev pub control_messages : InboundIpc A → List A
  control_messages s = s.received_control ++ s.control

  -- What `run` from `next` keeps of the control messages of `s` and adds to them.
  abbrev Kept : InboundIpc A → List (Event A) → List A → InboundIpc A → Type 0
  Kept s events more next =
      (control_messages (run next events) ≡ control_messages s ++ more)
      × (length (run next events).audio ≤ 256)
