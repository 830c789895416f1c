-- ===== src/Stream/Running.antt =====
-- src/stream_publish.rs: the pipelines that the publisher starts and stops, over any sequence of
-- commands and events.
use Prim.Native.String.{String}
use clankvox.Base.{
  ℕ, ◌⊎◌, inl, inr, refl, Bool, true, false, not, ◌&&◌, Option, none, some, List, [], ◌∷◌, is_some,
  if◌then◌else◌, ◌==◌,
}
use clankvox.Base.Track.{track-Follows}
use clankvox.Publish
use clankvox.Publish.{StreamPublishSource, browser_frames}
use clankvox.Playback.Trim.{trim, is_empty_text}
use clankvox.Stream.Player.{
  StreamPublishPlayer, pause, resume, push_browser_frame, normalize_browser_frame_mime_type,
  decode_stream_publish_browser_frame,
}
use clankvox.Stream.Command.{
  StreamPublishCommand, play, play_visualizer, browser_start, browser_frame, stop, pause_publish,
  resume_publish, StreamPublishEvent, player_idle, player_error, first_frame, Machine, Publisher,
  stop_runtime, maybe_start_stream_publish_pipeline, with_publish, handle_play,
  handle_play_visualizer, handle_browser_start, push_to_player, push_decoded, push_mime,
  handle_browser_frame, signal_player, announced, handle_pause, requeue, handle_resume,
  handle_stream_publish_command, handle_stream_publish_event, is_source,
}
use clankvox.Stream.Observer.{
  observed, OneRuns, running, OneRuns, Runs, keep, Runs-trans, if-Runs, say-Runs, announced-Runs,
  stop_runtime-Runs, maybe_start-Runs, play_source-Runs, start_browser-Runs, handle_stop-Runs,
}

module _ (machine : Machine) where
  push_to_player-Runs :
      (o : Option ℕ) (mime : String) (bytes : List ℕ) (at : ℕ) (p : Publisher)
      → Runs p (push_to_player machine o mime bytes at p)
  push_to_player-Runs none mime bytes at p =
      say-Runs "waiting_for_transport" (some "stream_publish_browser_source_not_started") p
  push_to_player-Runs (some handle) mime bytes at p =
      let (done, player) = push_browser_frame machine.write (p.players handle) mime bytes at in
      let q = record p { players = λ other. if other == handle then player else p.players other } in
      if-Runs (not (is_source p.app.stream_publish.active_source (browser_frames mime))) p _ _
        (say-Runs "failed" (some "stream_publish_browser_frame_source_mismatch") p)
        (if-Runs done p q _ (keep p q refl refl) (
          Runs-trans p q _ (keep p q refl refl)
            (say-Runs "failed" (some "stream_publish_browser_frame_write_failed") q)))

  push_decoded-Runs :
      (mime : String) (frame : String ⊎ List ℕ) (at : ℕ) (p : Publisher)
      → Runs p (push_decoded machine mime frame at p)
  push_decoded-Runs mime (inl reason) at p = say-Runs "failed" (some reason) p
  push_decoded-Runs mime (inr bytes) at p =
      let waiting =
        is_some p.app.stream_publish_conn
        && not p.app.stream_publish.active
        && is_source p.app.stream_publish.pending_source (browser_frames mime) in
      let q = if waiting then maybe_start_stream_publish_pipeline p else p in
      Runs-trans p q _ (if-Runs waiting p _ p (maybe_start-Runs p) (keep p p refl refl))
        (push_to_player-Runs q.app.stream_publish.player mime bytes at q)

  push_mime-Runs :
      (o : Option String) (frame : String) (at : ℕ) (p : Publisher)
      → Runs p (push_mime machine o frame at p)
  push_mime-Runs none frame at p =
      say-Runs "failed" (some "stream_publish_browser_frame_unsupported_mime_type") p
  push_mime-Runs (some mime) frame at p =
      push_decoded-Runs mime (decode_stream_publish_browser_frame machine.decode_base64 frame) at p

  signal_player-Runs :
      (signal : StreamPublishPlayer → Bool × StreamPublishPlayer) (o : Option ℕ) (p : Publisher)
      → Runs p (signal_player machine signal o p).1
  signal_player-Runs signal none p = keep p p refl refl
  signal_player-Runs signal (some handle) p = keep p _ refl refl

  handle_pause-Runs : (p : Publisher) → Runs p (handle_pause machine p)
  unfolding handle_pause
  handle_pause-Runs p =
      let q = with_publish (λ s. record s { paused = true }) p in
      let r = (signal_player machine (pause machine.suspend) q.app.stream_publish.player q).1 in
      Runs-trans p q _ (keep p q refl refl) (
        Runs-trans q r _ (signal_player-Runs (pause machine.suspend) q.app.stream_publish.player q)
          (Runs-trans r (announced machine false r) _ (announced-Runs machine false r)
            (say-Runs "paused" none (announced machine false r))))

  requeue-Runs : (o : Option StreamPublishSource) (p : Publisher) → Runs p (requeue machine o p)
  unfolding Publish.queue_pending_start
  requeue-Runs none p = keep p p refl refl
  requeue-Runs (some source) p = keep p _ refl refl

  handle_resume-Runs : (p : Publisher) → Runs p (handle_resume machine p)
  unfolding handle_resume
  handle_resume-Runs p =
      let q = with_publish (λ s. record s { paused = false }) p in
      let resumed = signal_player machine (resume machine.continue) q.app.stream_publish.player q in
      let r = resumed.1 in
      let to_r =
        Runs-trans p q r (keep p q refl refl)
          (signal_player-Runs (resume machine.continue) q.app.stream_publish.player q) in
      let queued = requeue machine r.app.stream_publish.active_source r in
      if-Runs resumed.0 p _ _
        (Runs-trans p r _ to_r (
          Runs-trans r (announced machine true r) _ (announced-Runs machine true r)
            (say-Runs "playing" none (announced machine true r))))
        (Runs-trans p r _ to_r (
          Runs-trans r queued _ (requeue-Runs r.app.stream_publish.active_source r)
            (maybe_start-Runs queued)))

  handle_stream_publish_command-Runs :
      (command : StreamPublishCommand) (p : Publisher)
      → Runs p (handle_stream_publish_command machine command p)
  unfolding handle_stream_publish_command handle_play handle_play_visualizer handle_browser_start
      handle_browser_frame
  handle_stream_publish_command-Runs (play u direct) p =
      if-Runs (is_empty_text (trim u)) p _ _ (say-Runs _ _ p) (play_source-Runs _ p)
  handle_stream_publish_command-Runs (play_visualizer u direct mode) p =
      if-Runs (is_empty_text (trim u)) p _ _ (say-Runs _ _ p) (play_source-Runs _ p)
  handle_stream_publish_command-Runs (browser_start mime) p =
      start_browser-Runs (normalize_browser_frame_mime_type mime) p
  handle_stream_publish_command-Runs (browser_frame mime frame at) p =
      push_mime-Runs (normalize_browser_frame_mime_type mime) frame at p
  handle_stream_publish_command-Runs stop p = handle_stop-Runs machine p
  handle_stream_publish_command-Runs pause_publish p = handle_pause-Runs p
  handle_stream_publish_command-Runs resume_publish p = handle_resume-Runs p

handle_stream_publish_event-Runs :
    (event : StreamPublishEvent) (p : Publisher) → Runs p (handle_stream_publish_event event p)
unfolding handle_stream_publish_event
handle_stream_publish_event-Runs player_idle p =
    Runs-trans p (stop_runtime p) _ (stop_runtime-Runs p) (say-Runs _ _ (stop_runtime p))
handle_stream_publish_event-Runs (player_error message) p =
    Runs-trans p (stop_runtime p) _ (stop_runtime-Runs p) (say-Runs _ _ (stop_runtime p))
handle_stream_publish_event-Runs (first_frame startup_ms fps) p = keep p p refl refl

-- What happens to the publisher.
pub data Event : Type 0 where
  command : StreamPublishCommand → Event
  event : StreamPublishEvent → Event

unfoldable pub step : Machine → Publisher → Event → Publisher
step machine p (command c) = handle_stream_publish_command machine c p
step machine p (event e) = handle_stream_publish_event e p

unfoldable pub run : Machine → Publisher → List Event → Publisher
unfolding step
run machine p [] = p
run machine p (e ∷ events) = run machine (step machine p e) events

step-OneRuns :
    (machine : Machine) (p : Publisher) (e : Event) → OneRuns p → OneRuns (step machine p e)
unfolding step OneRuns Runs
step-OneRuns machine p (command c) h =
    track-Follows running none (observed p) (observed (handle_stream_publish_command machine c p))
      (handle_stream_publish_command-Runs machine c p) h
step-OneRuns machine p (event e) h =
    track-Follows running none (observed p) (observed (handle_stream_publish_event e p))
      (handle_stream_publish_event-Runs e p) h

-- Over any sequence of publish commands and events of the player, at most one pipeline runs: none is
-- started before the one before it was stopped, only a running one is stopped, and the one that runs
-- is the player of the slot, so no pipeline is lost.
pub run-OneRuns :
    (machine : Machine) (p : Publisher) (events : List Event)
    → OneRuns p
    → OneRuns (run machine p events)
unfolding run
run-OneRuns machine p [] h = h
run-OneRuns machine p (e ∷ events) h =
    run-OneRuns machine (step machine p e) events (step-OneRuns machine p e h)
