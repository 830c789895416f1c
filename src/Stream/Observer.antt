-- ===== src/Stream/Observer.antt =====
-- src/stream_publish.rs: the pipelines that the publisher starts and stops, as its log shows them, and
-- what starts and stops them.
use Prim.Native.String.{String}
use clankvox.Base.{
  ℕ, ◌≡◌, refl, Bool, true, false, not, ◌&&◌, ◌||◌, Option, none, some, List, [], ◌∷◌, ◌++◌,
  is_none, is_some, if◌then◌else◌, ◌==◌, arith,
}
use clankvox.Base.Track.{track, Follows, follows, Follows-refl, Follows-trans}
use clankvox.Publish
use clankvox.Publish.{StreamPublishSource, browser_frames}
use clankvox.Session.State.{
  Effect, stream_publish, start_publish_player, stop_publish_player, transport_state,
  set_stream_publish_speaking, set_stream_publish_video_active,
}
use clankvox.Session.Clear.{stops, stop_stream_publish_runtime}
use clankvox.Stream.Command.{
  Machine, Publisher, say, stop_runtime, announce, start_source, start_pending,
  maybe_start_stream_publish_pipeline, with_publish, play_source, start_browser, handle_stop,
  announced, is_source,
}

-- The pipeline that runs, after one more entry of the log; `none` if one is started while another
-- runs, or one is stopped that does not run.
abbrev start_at : ℕ → Option ℕ → Option (Option ℕ)
start_at handle none = some (some handle)
start_at handle (some other) = none

abbrev stop_at : ℕ → Option ℕ → Option (Option ℕ)
stop_at handle none = none
stop_at handle (some other) = if other == handle then some none else none

unfoldable pub running : Effect → Option ℕ → Option (Option ℕ)
running (start_publish_player handle) o = start_at handle o
running (stop_publish_player handle) o = stop_at handle o
running _ o = some o

abbrev pub observed : Publisher → List Effect × Option ℕ
observed p = (p.app.out, p.app.stream_publish.player)

-- The log so far starts and stops one pipeline at a time, and the one that runs is that of the slot.
unfoldable pub OneRuns : Publisher → Type 0
OneRuns p = track running p.app.out none ≡ some p.app.stream_publish.player

unfoldable pub Runs : Publisher → Publisher → Type 0
Runs p q = Follows running (observed p) (observed q)

pub keep :
    (p q : Publisher)
    → q.app.out ≡ p.app.out
    → q.app.stream_publish.player ≡ p.app.stream_publish.player
    → Runs p q
unfolding Runs
keep p q out player = Follows-refl running (observed p) (observed q) out player

pub Runs-trans : (p q r : Publisher) → Runs p q → Runs q r → Runs p r
unfolding Runs
Runs-trans p q r h k = Follows-trans running (observed p) (observed q) (observed r) h k

pub if-Runs : (b : Bool) (p q r : Publisher) → Runs p q → Runs p r → Runs p (if b then q else r)
if-Runs true p q r hq hr = hq
if-Runs false p q r hq hr = hr

track-announce :
    (on : Bool) (o : Option ℕ) (s : Option ℕ) → track running (announce on o) s ≡ some s
unfolding track running
track-announce on none s = refl
track-announce true (some conn) s = refl
track-announce false (some conn) s = refl

track-stops : (o : Option ℕ) → track running (stops stop_publish_player o) o ≡ some none
unfolding track running
track-stops none = refl
track-stops (some handle) = ground arith

pub say-Runs :
    (status : String) (reason : Option String) (p : Publisher) → Runs p (say status reason p)
unfolding Runs track running
say-Runs status reason p =
    follows running (observed p) (observed (say status reason p))
      (transport_state stream_publish status reason ∷ []) refl refl

pub announced-Runs :
    (machine : Machine) (on : Bool) (p : Publisher) → Runs p (announced machine on p)
unfolding Runs
announced-Runs machine on p =
    follows running (observed p) (observed (announced machine on p))
      (announce on p.app.stream_publish_conn) refl
      (track-announce on p.app.stream_publish_conn p.app.stream_publish.player)

abbrev silenced : Option ℕ → List Effect
silenced o = elim o [
  | none ↦ []
  | some conn ↦
      set_stream_publish_speaking conn false ∷ set_stream_publish_video_active conn false ∷ []
]

track-silenced :
    (o player : Option ℕ)
    → track running (silenced o ++ stops stop_publish_player player) player ≡ some none
track-silenced none player = track-stops player
track-silenced (some conn) player = unfold track running in track-stops player

pub stop_runtime-Runs : (p : Publisher) → Runs p (stop_runtime p)
unfolding Runs stop_stream_publish_runtime Publish.stop_player
stop_runtime-Runs p =
    follows running (observed p) (observed (stop_runtime p))
      (silenced p.app.stream_publish_conn ++ stops stop_publish_player p.app.stream_publish.player)
      refl (track-silenced p.app.stream_publish_conn p.app.stream_publish.player)

track-started :
    (o : Option ℕ) (handle : ℕ)
    → track running
        (start_publish_player handle
          ∷ (announce true o ++ (transport_state stream_publish "playing" none ∷ [])))
        none
      ≡ some (some handle)
unfolding track running
track-started none handle = refl
track-started (some conn) handle = refl

restarted :
    (source : StreamPublishSource) (p : Publisher) → Runs (stop_runtime p) (start_source source p)
unfolding Runs stop_stream_publish_runtime Publish.stop_player
restarted source p =
    follows running (observed (stop_runtime p)) (observed (start_source source p))
      (start_publish_player p.next_player
        ∷ (announce true p.app.stream_publish_conn
            ++ (transport_state stream_publish "playing" none ∷ [])))
      refl (track-started p.app.stream_publish_conn p.next_player)

pub start_source-Runs :
    (source : StreamPublishSource) (p : Publisher) → Runs p (start_source source p)
start_source-Runs source p =
    Runs-trans p (stop_runtime p) (start_source source p) (stop_runtime-Runs p) (restarted source p)

pub start_pending-Runs :
    (o : Option StreamPublishSource) (p : Publisher) → Runs p (start_pending o p)
start_pending-Runs none p = keep p p refl refl
start_pending-Runs (some source) p = start_source-Runs source p

pub maybe_start-Runs : (p : Publisher) → Runs p (maybe_start_stream_publish_pipeline p)
unfolding maybe_start_stream_publish_pipeline
maybe_start-Runs p =
    if-Runs
      (is_none p.app.stream_publish_conn
        || p.app.stream_publish.active
        || p.app.stream_publish.paused)
      p p _ (keep p p refl refl) (start_pending-Runs p.app.stream_publish.pending_source p)

pub play_source-Runs :
    (source : StreamPublishSource) (p : Publisher) → Runs p (play_source source p)
unfolding play_source Publish.queue_pending_start
play_source-Runs source p =
    let same = is_source p.app.stream_publish.active_source source in
    let q = if same then p else stop_runtime p in
    let r = with_publish (λ s. Publish.queue_pending_start s source) q in
    let to_q = if-Runs same p p (stop_runtime p) (keep p p refl refl) (stop_runtime-Runs p) in
    let to_r = Runs-trans p q r to_q (keep q r refl refl) in
    if-Runs (p.app.stream_publish.active && not p.app.stream_publish.paused && same) p _ _
      (say-Runs "playing" none p)
      (if-Runs (is_some r.app.stream_publish_conn) p _ _
        (Runs-trans p r _ to_r (maybe_start-Runs r))
        (Runs-trans p r _ to_r (say-Runs "waiting_for_transport" none r)))

pub start_browser-Runs : (o : Option String) (p : Publisher) → Runs p (start_browser o p)
start_browser-Runs none p =
    say-Runs "failed" (some "stream_publish_browser_start_unsupported_mime_type") p
start_browser-Runs (some mime) p = play_source-Runs (browser_frames mime) p

pub handle_stop-Runs : (machine : Machine) (p : Publisher) → Runs p (handle_stop machine p)
unfolding handle_stop Publish.clear_pending_start
handle_stop-Runs machine p =
    let q = stop_runtime p in
    let r = with_publish Publish.clear_pending_start q in
    Runs-trans p q _ (stop_runtime-Runs p)
      (Runs-trans q r _ (keep q r refl refl) (say-Runs "ready" (some "stream_publish_stopped") r))
