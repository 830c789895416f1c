-- ===== src/Stream/Player.antt =====
-- src/stream_publish.rs: `StreamPublishPlayer`, and the frames that a browser supplies. The threads
-- and the processes of a player are not modelled: they set `child_pid` and the pipe.
use Prim.Native.Char.{code}
use Prim.Native.String.{String}
use text.Mathlib.Text.{◌==◌ as str_eq}
use clankvox.Base.{
  ℕ, ◌+◌, ◌-◌, ◌*◌, ◌/◌, min, max, Bool, true, false, not, ◌&&◌, ◌||◌, Option, none, some, List, [],
  ◌∷◌, ◌++◌, ltb, leb, if◌then◌else◌, ◌==◌, length, is_empty, ◌⊎◌, inl, inr,
}
use clankvox.Playback.Trim.{trim, is_empty_text}
use clankvox.Publish.{StreamPublishSource, url, visualizer, browser_frames}

abbrev pub stream_publish_target_fps : ℕ
stream_publish_target_fps = 30

abbrev pub stream_publish_browser_frame_max_bytes : ℕ
stream_publish_browser_frame_max_bytes = 6291456

-- `BrowserFrames`: the pipe is open or not; the increments wait for the frames of the encoder.
pub record BrowserMode : Type 0 where
  pub mime_type : String
  pub stdin_open : Bool
  pub timestamp_increments : List ℕ
  pub last_captured_at_ms : ℕ

-- `mode` is `none` for the mode `Url`.
pub record StreamPublishPlayer : Type 0 where
  pub paused : Bool
  pub child_pid : ℕ
  pub mode : Option BrowserMode

unfoldable pub is_alive : StreamPublishPlayer → Bool
is_alive player = not (player.child_pid == 0)

unfoldable pub pause : (ℕ → Bool) → StreamPublishPlayer → Bool × StreamPublishPlayer
unfolding is_alive
pause suspend player =
    if player.paused
    then (is_alive player, player)
    else if player.child_pid == 0
    then (false, player)
    else if suspend player.child_pid
    then (true, record player { paused = true })
    else (false, player)

unfoldable pub resume : (ℕ → Bool) → StreamPublishPlayer → Bool × StreamPublishPlayer
unfolding is_alive
resume continue player =
    if not player.paused
    then (is_alive player, player)
    else if player.child_pid == 0
    then (false, player)
    else if continue player.child_pid
    then (true, record player { paused = false })
    else (false, player)

-- The player of a source as it is started, before its thread has spawned the process.
abbrev pub started_mode : StreamPublishSource → Option BrowserMode
started_mode (url u direct) = none
started_mode (visualizer u direct mode) = none
started_mode (browser_frames mime) = some (record {
  mime_type = mime;
  stdin_open = false;
  timestamp_increments = [];
  last_captured_at_ms = 0;
})

-- `to_ascii_lowercase` of the code points.
abbrev pub lower : ℕ → ℕ
lower c = if leb 65 c && leb c 90 then c + 32 else c

-- Whether a text is another one, up to the case of ASCII letters in the first.
unfoldable pub is_lowered : String → String → Bool
is_lowered String.[] String.[] = true
is_lowered String.[] (String.◌∷◌ d t) = false
is_lowered (String.◌∷◌ c s) String.[] = false
is_lowered (String.◌∷◌ c s) (String.◌∷◌ d t) =
    let rest = is_lowered s t in if lower (code c) == code d then rest else false

unfoldable pub normalize_browser_frame_mime_type : String → Option String
unfolding trim is_lowered
normalize_browser_frame_mime_type mime_type =
    if is_lowered (trim mime_type) "image/png" then some "image/png" else none

-- The reasons of the errors, up to the colon that some have.
unfoldable pub decode_stream_publish_browser_frame :
    (String → Option (List ℕ)) → String → String ⊎ List ℕ
unfolding trim
decode_stream_publish_browser_frame decode_base64 frame_base64 =
    let normalized = trim frame_base64 in
    if is_empty_text normalized
    then inl "stream_publish_browser_frame_missing_bytes"
    else elim (decode_base64 normalized) [
      | none ↦ inl "stream_publish_browser_frame_invalid_base64"
      | some decoded ↦
          if is_empty decoded
          then inl "stream_publish_browser_frame_empty"
          else if ltb stream_publish_browser_frame_max_bytes (length decoded)
          then inl "stream_publish_browser_frame_too_large"
          else inr decoded
    ]

-- The increment, and the new `last_captured_at_ms`.
unfoldable pub compute_browser_frame_timestamp_increment : ℕ → ℕ → ℕ × ℕ
compute_browser_frame_timestamp_increment previous captured_at_ms =
    let default_increment = 90000 / stream_publish_target_fps in
    if captured_at_ms == 0
    then (default_increment, previous)
    else if previous == 0 || leb captured_at_ms previous
    then (default_increment, captured_at_ms)
    else (let delta_ms = min (max (captured_at_ms - previous) 1) 5000 in
        (min (max (delta_ms * 90000 / 1000) 1) 4294967295, captured_at_ms))

-- The frame is written to the pipe; `write` says whether the system takes it. A queued increment is
-- taken back when the write fails, and only then.
abbrev pub push_to : (List ℕ → Bool) → BrowserMode → List ℕ → ℕ → Bool × BrowserMode
push_to write m frame_bytes captured_at_ms =
    let (increment, last) =
      compute_browser_frame_timestamp_increment m.last_captured_at_ms captured_at_ms in
    let queued = record m {
      timestamp_increments = m.timestamp_increments ++ (increment ∷ []);
      last_captured_at_ms = last;
    } in
    if not m.stdin_open
    then (false, queued)
    else if write frame_bytes
    then (true, queued)
    else (false, record m { last_captured_at_ms = last })

abbrev pub push_mode :
    (List ℕ → Bool)
    → StreamPublishPlayer
    → Option BrowserMode
    → String
    → List ℕ
    → ℕ
    → Bool × StreamPublishPlayer
push_mode write player none mime_type frame_bytes captured_at_ms = (false, player)
push_mode write player (some m) mime_type frame_bytes captured_at_ms =
    if not (str_eq m.mime_type mime_type) || is_empty frame_bytes || not (is_alive player)
    then (false, player)
    else (let (done, m') = push_to write m frame_bytes captured_at_ms in
        (done, record player { mode = some m' }))

unfoldable pub push_browser_frame :
    (List ℕ → Bool) → StreamPublishPlayer → String → List ℕ → ℕ → Bool × StreamPublishPlayer
unfolding compute_browser_frame_timestamp_increment is_alive
push_browser_frame write player mime_type frame_bytes captured_at_ms =
    push_mode write player player.mode mime_type frame_bytes captured_at_ms
