-- ===== src/Tests/Outbound.antt =====
-- The way of a frame from the audio tick to the listener, at concrete inputs.
use clankvox.Base.{true, false, ℕ, ◌≡◌, refl, some, List, [], ◌∷◌, ◌++◌, ◌+◌, drop, take, arith}
use clankvox.Crypto.{cipher_aead, encrypt}
use clankvox.Dave.{DaveSession, plain}
use clankvox.Voice.Send.{VoiceConnection, transmit, send_rtp_frame}
use clankvox.Playback.Tick.{on_audio_tick}
use clankvox.Outbound.{Transport, tick_and_send, send_pending_stream_publish_frame}
use clankvox.Outbound.Heard.{Agreed, Hears, tick_and_send-Hears}
use clankvox.Outbound.Queue.{send_all, send_pending_stream_publish_frame_lem}
use clankvox.Tests.Audio.{integers, encode}
use clankvox.Tests.Media.{crypto, connection, always, tagging-IsAead}
use clankvox.Tests.Dave.{open_session, manager}
use clankvox.Tests.Playback.{announced}

-- A session whose ends put a byte in front of a frame, and take the first byte away.
abbrev first_byte_session : DaveSession ℕ
first_byte_session = record open_session {
  encrypt_opus = λ frame s. (some (250 ∷ frame), s + 1);
  decrypt = λ sender media frame s. (plain (drop 1 frame), s + 1);
}

abbrev talking : Transport ℕ
talking = record { dave = some manager; conn = some connection }

abbrev after : VoiceConnection
after = (send_rtp_frame always connection (250 ∷ 960 ∷ [])).1

tick_and_send-Hears_example :
    ((tick_and_send first_byte_session always integers encode 2020 announced talking).1.conn
      ≡ some after)
    × ((packet : List ℕ) × (after.sent ≡ [] ++ (packet ∷ []))
        × Hears first_byte_session crypto manager 42 packet (960 ∷ []))
unfolding send_rtp_frame transmit encrypt cipher_aead on_audio_tick
tick_and_send-Hears_example =
    tick_and_send-Hears first_byte_session always integers encode 2020 announced manager manager 42
      (960 ∷ []) (250 ∷ 960 ∷ []) connection crypto refl
      (unfold Agreed in (refl, refl, refl, refl, refl, refl)) tagging-IsAead refl (omega arith)
      (omega arith) refl

abbrev frames : List (List ℕ × ℕ)
frames = (1 ∷ [], 3000) ∷ (2 ∷ [], 3000) ∷ (3 ∷ [], 3000) ∷ (4 ∷ [], 3000) ∷ (5 ∷ [], 3000) ∷ []

send_pending_stream_publish_frame_lem_example :
    send_pending_stream_publish_frame first_byte_session always true false frames 10 talking
    ≡ ((5 ∷ [], 3000) ∷ [], 14, send_all first_byte_session always (take 4 frames) talking)
send_pending_stream_publish_frame_lem_example =
    send_pending_stream_publish_frame_lem first_byte_session always true false frames 10 talking
