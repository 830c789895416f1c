-- ===== src/Music.antt =====
-- src/music.rs: `MusicState`. A player is a handle, an instant is a number of milliseconds; a method
-- returns the handle of the player that it stopped beside the new state.
use Prim.Native.String.{String}
use clankvox.Base.{ℕ, Bool, false, Option, none, some}

pub record MusicState : Type 0 where
  pub player : Option ℕ
  pub active : Bool
  pub paused : Bool
  pub finishing : Bool
  pub active_url : Option String
  pub active_resolved_direct_url : Bool
  pub pending_url : Option String
  pub pending_received_at : Option ℕ
  pub pending_audio_seen : Bool
  pub pending_last_audio_at : Option ℕ
  pub pending_waiting_for_drain : Bool
  pub pending_drain_started_at : Option ℕ
  pub pending_first_pcm_at : Option ℕ
  pub pending_resolved_direct_url : Bool
  pub pending_stop : Bool

abbrev pub default : MusicState
default = record {
  player = none;
  active = false;
  paused = false;
  finishing = false;
  active_url = none;
  active_resolved_direct_url = false;
  pending_url = none;
  pending_received_at = none;
  pending_audio_seen = false;
  pending_last_audio_at = none;
  pending_waiting_for_drain = false;
  pending_drain_started_at = none;
  pending_first_pcm_at = none;
  pending_resolved_direct_url = false;
  pending_stop = false;
}

unfoldable pub stop_player : MusicState → Option ℕ × MusicState
stop_player s = (s.player, record s { player = none })

unfoldable pub clear_pending_start : MusicState → MusicState
clear_pending_start s = record s {
  pending_url = none;
  pending_received_at = none;
  pending_audio_seen = false;
  pending_last_audio_at = none;
  pending_waiting_for_drain = false;
  pending_drain_started_at = none;
  pending_first_pcm_at = none;
  pending_resolved_direct_url = false;
}

unfoldable pub reset : MusicState → Option ℕ × MusicState
unfolding stop_player
reset s =
    let (stopped, s') = stop_player s in
    (
      stopped,
      clear_pending_start (record s' {
        active = false;
        paused = false;
        finishing = false;
        active_url = none;
        active_resolved_direct_url = false;
        pending_stop = false;
      }),
    )

unfoldable pub queue_pending_start : MusicState → ℕ → String → Bool → Option ℕ × MusicState
unfolding stop_player
queue_pending_start s now url resolved_direct_url =
    let (stopped, s') = stop_player s in
    (
      stopped,
      record s' {
        active = false;
        paused = false;
        finishing = false;
        pending_stop = false;
        active_url = some url;
        active_resolved_direct_url = resolved_direct_url;
        pending_url = some url;
        pending_received_at = some now;
        pending_audio_seen = false;
        pending_last_audio_at = none;
        pending_waiting_for_drain = false;
        pending_drain_started_at = none;
        pending_first_pcm_at = none;
        pending_resolved_direct_url = resolved_direct_url;
      },
    )
