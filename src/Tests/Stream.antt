-- ===== src/Tests/Stream.antt =====
-- The properties of the publisher at concrete inputs.
use clankvox.Base.{ℕ, true, false, none, some, List, [], ◌∷◌, refl, drop, ◌≡◌, ◌⊎◌}
use clankvox.Base.Track.{track}
use clankvox.Stream.AccessUnits.{drain_h264_access_units}
use clankvox.Stream.Search.{BeginsAud}
use clankvox.Stream.Drain.{Drained, FirstAud, drain_h264_access_units-Drained}
use clankvox.Stream.Command.{
  Machine, Publisher, play, browser_start, pause_publish, resume_publish, player_idle,
}
use clankvox.Stream.Observer.{OneRuns, running}
use clankvox.Stream.Running.{Event, command, event, run, run-OneRuns}
use clankvox.Tests.Session.{joined_state}

-- A byte of an older unit, two delimiters, each with a unit behind it.
abbrev byte_stream : List ℕ
byte_stream =
    7 ∷ 0 ∷ 0 ∷ 0 ∷ 1 ∷ 9 ∷ 240 ∷ 0 ∷ 0 ∷ 1 ∷ 103 ∷ 1 ∷ 0 ∷ 0 ∷ 0 ∷ 1 ∷ 9 ∷ 240 ∷ 0 ∷ 0 ∷ 1 ∷ 101
    ∷ []

drain_h264_access_units-Drained_example :
    (((j : ℕ) → ¬ BeginsAud (drop j byte_stream))
      × (drain_h264_access_units byte_stream false ≡ ([], byte_stream)))
    ⊎ ((first : ℕ) × FirstAud byte_stream first
        × Drained (drop first byte_stream) (drain_h264_access_units byte_stream false))
drain_h264_access_units-Drained_example = drain_h264_access_units-Drained byte_stream

abbrev machine : Machine
machine = record {
  decode_base64 = λ text. some (1 ∷ []);
  suspend = λ pid. true;
  continue = λ pid. false;
  write = λ bytes. true;
}

abbrev publisher : Publisher
publisher = record {
  app = record joined_state { stream_publish_conn = some 102 };
  players = λ handle. record { paused = false; child_pid = 77; mode = none };
  next_player = 1;
}

abbrev events : List Event
events =
    command (play "https://a.example/video" true)
    ∷ command (browser_start " image/PNG ")
    ∷ command pause_publish
    ∷ command resume_publish
    ∷ event player_idle
    ∷ []

run-OneRuns_example : OneRuns (run machine publisher events)
run-OneRuns_example = run-OneRuns machine publisher events (unfold OneRuns running track in refl)
