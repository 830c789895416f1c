-- ===== src/Publish.antt =====
-- src/stream_publish.rs: `StreamPublishState`. A player is a handle; a method returns the handle of
-- the player that it stopped beside the new state.
use Prim.Native.String.{String}
use clankvox.Base.{ℕ, Bool, false, Option, none, some}

pub data StreamPublishSource : Type 0 where
  url : String → Bool → StreamPublishSource
  visualizer : String → Bool → String → StreamPublishSource
  browser_frames : String → StreamPublishSource

pub record StreamPublishState : Type 0 where
  pub player : Option ℕ
  pub pending_source : Option StreamPublishSource
  pub active_source : Option StreamPublishSource
  pub active : Bool
  pub paused : Bool

unfoldable pub queue_pending_start : StreamPublishState → StreamPublishSource → StreamPublishState
queue_pending_start s source = record s { pending_source = some source }

unfoldable pub clear_pending_start : StreamPublishState → StreamPublishState
clear_pending_start s = record s { pending_source = none }

unfoldable pub stop_player : StreamPublishState → Option ℕ × StreamPublishState
stop_player s = (s.player, record s { player = none })

unfoldable pub reset : StreamPublishState → Option ℕ × StreamPublishState
unfolding stop_player
reset s = (
  (stop_player s).0,
  record (stop_player s).1 {
    pending_source = none;
    active_source = none;
    active = false;
    paused = false;
  },
)
