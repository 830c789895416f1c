-- ===== src/Outbound.antt =====
-- src/playback_supervisor.rs and src/stream_publish.rs: the ends of the audio tick and of the publish
-- tick, where a frame is encrypted by DAVE and sent on the connection. A failed encryption falls back
-- to the frame itself, and a failed send is logged only.
pub mod Heard
pub mod Queue
use clankvox.Base.{
  ℕ, zero, suc, ◌+◌, Bool, true, false, not, ◌||◌, Option, none, some, List, [], ◌∷◌, if◌then◌else◌,
}
use clankvox.Base.Int.{ℤ}
use clankvox.Dave.{DaveSession, DaveManager, encrypt_opus, encrypt_video}
use clankvox.Voice.Send.{VoiceConnection, send_rtp_frame, send_h264_frame}
use clankvox.Audio.Floats.{Floats}
use clankvox.Playback.State.{Playback}
use clankvox.Playback.Tick.{on_audio_tick}

pub record Transport (S : Type 0) : Type 0 where
  pub dave : Option (DaveManager S)
  pub conn : Option VoiceConnection

abbrev pub max_frames_per_tick : ℕ
max_frames_per_tick = 4

abbrev pub or_plain : {A : Type 0} → List ℕ → Option (List ℕ) × A → List ℕ × Option A
or_plain frame (none, m) = (frame, some m)
or_plain frame (some encrypted, m) = (encrypted, some m)

module _ {S : Type 0} (session : DaveSession S) (udp_send : List ℕ → Bool) where
  abbrev pub protect_opus : Option (DaveManager S) → List ℕ → List ℕ × Option (DaveManager S)
  protect_opus none opus = (opus, none)
  protect_opus (some m) opus =
      if m.ready then or_plain opus (encrypt_opus session m opus) else (opus, some m)

  abbrev pub send_on : Option VoiceConnection → List ℕ → Option VoiceConnection
  send_on none payload = none
  send_on (some c) payload = some (send_rtp_frame udp_send c payload).1

  -- The end of `on_audio_tick`.
  unfoldable pub send_opus : Option (List ℕ) → Transport S → Transport S
  unfolding encrypt_opus send_rtp_frame
  send_opus none t = t
  send_opus (some opus) t =
      let (payload, dave) = protect_opus t.dave opus in
      record { dave = dave; conn = send_on t.conn payload }

  abbrev pub protect_video : Option (DaveManager S) → List ℕ → List ℕ × Option (DaveManager S)
  protect_video none access_unit = (access_unit, none)
  protect_video (some m) access_unit =
      if m.ready
      then or_plain access_unit (encrypt_video session m access_unit)
      else (access_unit, some m)

  abbrev pub send_video_on : Option VoiceConnection → List ℕ → ℕ → Option VoiceConnection
  send_video_on none payload increment = none
  send_video_on (some c) payload increment = some (send_h264_frame udp_send c payload increment).1

  unfoldable pub send_published : List ℕ → ℕ → Transport S → Transport S
  unfolding encrypt_video send_h264_frame
  send_published access_unit increment t =
      let (payload, dave) = protect_video t.dave access_unit in
      record { dave = dave; conn = send_video_on t.conn payload increment }

  -- The loop of `send_pending_stream_publish_frame`: the rounds left, the queue, the frames sent so
  -- far.
  unfoldable pub send_frames :
      ℕ → List (List ℕ × ℕ) → ℕ → Transport S → List (List ℕ × ℕ) × ℕ × Transport S
  unfolding send_published
  send_frames zero queue sent t = (queue, sent, t)
  send_frames (suc rounds) [] sent t = ([], sent, t)
  send_frames (suc rounds) ((access_unit, increment) ∷ queue) sent t =
      send_frames rounds queue (sent + 1) (send_published access_unit increment t)

  unfoldable pub send_pending_stream_publish_frame :
      Bool → Bool → List (List ℕ × ℕ) → ℕ → Transport S → List (List ℕ × ℕ) × ℕ × Transport S
  unfolding send_frames
  send_pending_stream_publish_frame active paused queue sent t =
      if not active || paused
      then (queue, sent, t)
      else send_frames max_frames_per_tick queue sent t

  -- The audio tick with its end.
  unfoldable pub tick_and_send :
      {F D E : Type 0}
      → Floats F D
      → (E → List ℤ → Option (List ℕ) × E)
      → ℕ
      → Playback F E
      → Transport S
      → Playback F E × Transport S
  unfolding send_opus
  tick_and_send fl encode now p t =
      let (frame, p') = on_audio_tick fl encode now p in (p', send_opus frame t)
