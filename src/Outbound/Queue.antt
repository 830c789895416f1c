-- ===== src/Outbound/Queue.antt =====
-- src/stream_publish.rs: which frames a publish tick sends.
use clankvox.Base.{
  ℕ, zero, suc, ◌+◌, ◌≡◌, Bool, true, false, not, ◌&&◌, List, [], ◌∷◌, take, drop, length,
  if◌then◌else◌, arith,
}
use clankvox.Dave.{DaveSession}
use clankvox.Outbound.{
  Transport, max_frames_per_tick, send_published, send_frames, send_pending_stream_publish_frame,
}

module _ {S : Type 0} (session : DaveSession S) (udp_send : List ℕ → Bool) where
  -- Frames sent one after the other.
  unfoldable pub send_all : List (List ℕ × ℕ) → Transport S → Transport S
  send_all [] t = t
  send_all ((access_unit, increment) ∷ frames) t =
      send_all frames (send_published session udp_send access_unit increment t)

  send_frames_lem :
      (rounds : ℕ) (queue : List (List ℕ × ℕ)) (sent : ℕ) (t : Transport S)
      → send_frames session udp_send rounds queue sent t
        ≡ (drop rounds queue, sent + length (take rounds queue), send_all (take rounds queue) t)
  unfolding send_frames send_all
  send_frames_lem zero queue sent t = ground arith
  send_frames_lem (suc rounds) [] sent t = ground arith
  send_frames_lem (suc rounds) ((access_unit, increment) ∷ queue) sent t =
      let t' = send_published session udp_send access_unit increment t in
      ground (arith, send_frames_lem rounds queue (sent + 1) t')

  -- A publish tick takes frames from the front of the queue, up to four, and none when the publisher is
  -- inactive or paused. It counts each that it takes, and sends them in their order.
  pub send_pending_stream_publish_frame_lem :
      (active paused : Bool) (queue : List (List ℕ × ℕ)) (sent : ℕ) (t : Transport S)
      → let k : ℕ = if active && not paused then 4 else 0 in
        send_pending_stream_publish_frame session udp_send active paused queue sent t
        ≡ (drop k queue, sent + length (take k queue), send_all (take k queue) t)
  unfolding send_pending_stream_publish_frame send_all
  send_pending_stream_publish_frame_lem true false queue sent t =
      send_frames_lem max_frames_per_tick queue sent t
  send_pending_stream_publish_frame_lem true true queue sent t = ground arith
  send_pending_stream_publish_frame_lem false paused queue sent t = ground arith
