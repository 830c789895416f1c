-- ===== src/Stream/Command.antt =====
-- src/stream_publish.rs: `handle_stream_publish_command`, the events of the player, and what they
-- share. Base64, the signals and the pipe of the operating system are parameters.
use Prim.Native.String.{String}
use text.Mathlib.Text.{◌==◌ as str_eq}
use clankvox.Base.{
  ℕ, ◌+◌, Bool, true, false, not, ◌&&◌, ◌||◌, Option, none, some, List, [], ◌∷◌, ◌++◌, is_none,
  is_some, if◌then◌else◌, ◌==◌, ◌⊎◌, inl, inr,
}
use clankvox.Publish
use clankvox.Publish.{StreamPublishSource, url, visualizer, browser_frames}
use clankvox.Session.State.{
  AppState, Effect, stream_publish, transport_state, start_publish_player,
  set_stream_publish_speaking, set_stream_publish_video_active,
}
use clankvox.Session.Clear.{emit, stop_stream_publish_runtime}
use clankvox.Playback.Trim.{trim, is_empty_text}
use clankvox.Stream.Player.{
  StreamPublishPlayer, started_mode, pause, resume, push_browser_frame,
  normalize_browser_frame_mime_type, decode_stream_publish_browser_frame,
}

pub data StreamPublishCommand : Type 0 where
  play : String → Bool → StreamPublishCommand
  play_visualizer : String → Bool → String → StreamPublishCommand
  browser_start : String → StreamPublishCommand
  browser_frame : String → String → ℕ → StreamPublishCommand
  stop : StreamPublishCommand
  pause_publish : StreamPublishCommand
  resume_publish : StreamPublishCommand

pub data StreamPublishEvent : Type 0 where
  player_idle : StreamPublishEvent
  player_error : String → StreamPublishEvent
  first_frame : ℕ → ℕ → StreamPublishEvent

-- What the machine around the handlers supplies.
pub record Machine : Type 0 where
  pub decode_base64 : String → Option (List ℕ)
  pub suspend : ℕ → Bool
  pub continue : ℕ → Bool
  pub write : List ℕ → Bool

-- The state of the process, with what stands behind the handles of the players.
pub record Publisher : Type 0 where
  pub app : AppState
  pub players : ℕ → StreamPublishPlayer
  pub next_player : ℕ

abbrev pub bool_eq : Bool → Bool → Bool
bool_eq true b = b
bool_eq false b = not b

abbrev pub source_eq : StreamPublishSource → StreamPublishSource → Bool
source_eq (url u d) (url v e) = str_eq u v && bool_eq d e
source_eq (visualizer u d m) (visualizer v e n) = str_eq u v && bool_eq d e && str_eq m n
source_eq (browser_frames m) (browser_frames n) = str_eq m n
source_eq _ _ = false

abbrev pub is_source : Option StreamPublishSource → StreamPublishSource → Bool
is_source none source = false
is_source (some other) source = source_eq other source

abbrev pub say : String → Option String → Publisher → Publisher
say status reason p = record p {
  app = emit p.app (transport_state stream_publish status reason ∷ []);
}

abbrev pub stop_runtime : Publisher → Publisher
stop_runtime p = record p { app = stop_stream_publish_runtime p.app }

abbrev pub announce : Bool → Option ℕ → List Effect
announce on none = []
announce true (some conn) =
    set_stream_publish_video_active conn true ∷ set_stream_publish_speaking conn true ∷ []
announce false (some conn) =
    set_stream_publish_speaking conn false ∷ set_stream_publish_video_active conn false ∷ []

-- The start proper: a new player takes the slot that was stopped.
abbrev pub start_source : StreamPublishSource → Publisher → Publisher
start_source source p =
    let q = stop_runtime p in
    let handle = q.next_player in
    record q {
      app =
          emit
            (record q.app {
              stream_publish = record q.app.stream_publish {
                player = some handle;
                active = true;
                paused = false;
                active_source = some source;
                pending_source = none;
              };
            })
            (start_publish_player handle
              ∷ (announce true q.app.stream_publish_conn
                  ++ (transport_state stream_publish "playing" none ∷ [])));
      players = λ other.
          if other == handle
          then record { paused = false; child_pid = 0; mode = started_mode source }
          else q.players other;
      next_player = handle + 1;
    }

abbrev pub start_pending : Option StreamPublishSource → Publisher → Publisher
start_pending none p = p
start_pending (some source) p = start_source source p

unfoldable pub maybe_start_stream_publish_pipeline : Publisher → Publisher
unfolding stop_stream_publish_runtime
maybe_start_stream_publish_pipeline p =
    if is_none p.app.stream_publish_conn
      || p.app.stream_publish.active
      || p.app.stream_publish.paused
    then p
    else start_pending p.app.stream_publish.pending_source p

abbrev pub with_publish :
    (Publish.StreamPublishState → Publish.StreamPublishState) → Publisher → Publisher
with_publish f p = record p { app = record p.app { stream_publish = f p.app.stream_publish } }

-- What the three commands do that bring a source: nothing new while it plays; otherwise it is queued,
-- after another source is stopped, and started if there is a transport.
unfoldable pub play_source : StreamPublishSource → Publisher → Publisher
unfolding stop_stream_publish_runtime Publish.queue_pending_start
    maybe_start_stream_publish_pipeline
play_source source p =
    let same = is_source p.app.stream_publish.active_source source in
    if p.app.stream_publish.active && not p.app.stream_publish.paused && same
    then say "playing" none p
    else (let q = if same then p else stop_runtime p in
        let r = with_publish (λ s. Publish.queue_pending_start s source) q in
        if is_some r.app.stream_publish_conn
        then maybe_start_stream_publish_pipeline r
        else say "waiting_for_transport" none r)

unfoldable pub handle_play : String → Bool → Publisher → Publisher
unfolding trim play_source
handle_play u direct p =
    if is_empty_text (trim u)
    then say "failed" (some "stream_publish_play_missing_url") p
    else play_source (url (trim u) direct) p

unfoldable pub normalize_mode : String → String
unfolding trim
normalize_mode mode =
    if str_eq (trim mode) "spectrum"
    then "spectrum"
    else if str_eq (trim mode) "waves"
    then "waves"
    else if str_eq (trim mode) "vectorscope"
    then "vectorscope"
    else "cqt"

unfoldable pub handle_play_visualizer : String → Bool → String → Publisher → Publisher
unfolding trim play_source normalize_mode
handle_play_visualizer u direct mode p =
    if is_empty_text (trim u)
    then say "failed" (some "stream_publish_play_visualizer_missing_url") p
    else play_source (visualizer (trim u) direct (normalize_mode mode)) p

abbrev pub start_browser : Option String → Publisher → Publisher
start_browser none p = say "failed" (some "stream_publish_browser_start_unsupported_mime_type") p
start_browser (some mime) p = play_source (browser_frames mime) p

unfoldable pub handle_browser_start : String → Publisher → Publisher
unfolding normalize_browser_frame_mime_type play_source
handle_browser_start mime_type p = start_browser (normalize_browser_frame_mime_type mime_type) p

module _ (machine : Machine) where
  -- The frame goes to the player of the slot.
  abbrev pub push_to_player : Option ℕ → String → List ℕ → ℕ → Publisher → Publisher
  push_to_player none mime bytes at p =
      say "waiting_for_transport" (some "stream_publish_browser_source_not_started") p
  push_to_player (some handle) mime bytes at p =
      if not (is_source p.app.stream_publish.active_source (browser_frames mime))
      then say "failed" (some "stream_publish_browser_frame_source_mismatch") p
      else (let (done, player) =
            push_browser_frame machine.write (p.players handle) mime bytes at in
          let q = record p {
            players = λ other. if other == handle then player else p.players other;
          } in
          if done then q else say "failed" (some "stream_publish_browser_frame_write_failed") q)

  abbrev pub push_decoded : String → String ⊎ List ℕ → ℕ → Publisher → Publisher
  push_decoded mime (inl reason) at p = say "failed" (some reason) p
  push_decoded mime (inr bytes) at p =
      let waiting =
        is_some p.app.stream_publish_conn
        && not p.app.stream_publish.active
        && is_source p.app.stream_publish.pending_source (browser_frames mime) in
      let q = if waiting then maybe_start_stream_publish_pipeline p else p in
      push_to_player q.app.stream_publish.player mime bytes at q

  abbrev pub push_mime : Option String → String → ℕ → Publisher → Publisher
  push_mime none frame_base64 at p =
      say "failed" (some "stream_publish_browser_frame_unsupported_mime_type") p
  push_mime (some mime) frame_base64 at p =
      push_decoded mime (decode_stream_publish_browser_frame machine.decode_base64 frame_base64) at
        p

  unfoldable pub handle_browser_frame : String → String → ℕ → Publisher → Publisher
  unfolding normalize_browser_frame_mime_type decode_stream_publish_browser_frame push_browser_frame
      maybe_start_stream_publish_pipeline
  handle_browser_frame mime_type frame_base64 at p =
      push_mime (normalize_browser_frame_mime_type mime_type) frame_base64 at p

  unfoldable pub handle_stop : Publisher → Publisher
  unfolding stop_stream_publish_runtime Publish.clear_pending_start
  handle_stop p =
      say "ready" (some "stream_publish_stopped")
        (with_publish Publish.clear_pending_start (stop_runtime p))

  -- A signal to the player of the slot, and whether it worked.
  abbrev pub signal_player :
      (StreamPublishPlayer → Bool × StreamPublishPlayer) → Option ℕ → Publisher → Bool × Publisher
  signal_player signal none p = (false, p)
  signal_player signal (some handle) p =
      let (done, player) = signal (p.players handle) in
      (done, record p { players = λ other. if other == handle then player else p.players other })

  abbrev pub announced : Bool → Publisher → Publisher
  announced on p = record p { app = emit p.app (announce on p.app.stream_publish_conn) }

  unfoldable pub handle_pause : Publisher → Publisher
  unfolding pause
  handle_pause p =
      let q = with_publish (λ s. record s { paused = true }) p in
      let r = (signal_player (pause machine.suspend) q.app.stream_publish.player q).1 in
      say "paused" none (announced false r)

  abbrev pub requeue : Option StreamPublishSource → Publisher → Publisher
  requeue none p = p
  requeue (some source) p =
      with_publish
        (λ s. record (Publish.queue_pending_start s source) {
          active = false;
          active_source = none;
        })
        p

  unfoldable pub handle_resume : Publisher → Publisher
  unfolding resume Publish.queue_pending_start maybe_start_stream_publish_pipeline
  handle_resume p =
      let q = with_publish (λ s. record s { paused = false }) p in
      let (resumed, r) = signal_player (resume machine.continue) q.app.stream_publish.player q in
      if resumed
      then say "playing" none (announced true r)
      else maybe_start_stream_publish_pipeline (requeue r.app.stream_publish.active_source r)

  unfoldable pub handle_stream_publish_command : StreamPublishCommand → Publisher → Publisher
  unfolding handle_play handle_play_visualizer handle_browser_start handle_browser_frame handle_stop
      handle_pause handle_resume
  handle_stream_publish_command (play u direct) p = handle_play u direct p
  handle_stream_publish_command (play_visualizer u direct mode) p =
      handle_play_visualizer u direct mode p
  handle_stream_publish_command (browser_start mime) p = handle_browser_start mime p
  handle_stream_publish_command (browser_frame mime frame at) p =
      handle_browser_frame mime frame at p
  handle_stream_publish_command stop p = handle_stop p
  handle_stream_publish_command pause_publish p = handle_pause p
  handle_stream_publish_command resume_publish p = handle_resume p

unfoldable pub handle_stream_publish_event : StreamPublishEvent → Publisher → Publisher
unfolding stop_stream_publish_runtime
handle_stream_publish_event player_idle p =
    say "ready" (some "stream_publish_idle") (stop_runtime p)
handle_stream_publish_event (player_error message) p = say "failed" (some message) (stop_runtime p)
handle_stream_publish_event (first_frame startup_ms fps) p = p
