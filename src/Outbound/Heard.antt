-- ===== src/Outbound/Heard.antt =====
-- src/playback_supervisor.rs, src/dave.rs, src/voice_conn.rs: from the audio tick to the listener.
use clankvox.Base.{
  ℕ, ◌<◌, ◌≡◌, ap, ◌∙◌, Bool, true, false, Option, some, List, [], ◌∷◌, ◌++◌, ◌==◌, arith,
}
use clankvox.Base.Int.{ℤ}
use clankvox.Base.Bytes.{u32_mod}
use clankvox.Base.Outcome.{ok}
use clankvox.Crypto.{TransportCrypto, cipher_aead}
use clankvox.Crypto.Packet.{IsAead}
use clankvox.Voice.Send.{VoiceConnection, send_rtp_frame}
use clankvox.Voice.Receive.{Media, receive}
use clankvox.Voice.Transport.{receive-send_rtp_frame}
use clankvox.Dave.{DaveSession, DaveManager, audio, plain, encrypt_opus, decrypt_media}
use clankvox.Audio.Floats.{Floats}
use clankvox.Playback.State.{Playback}
use clankvox.Playback.Tick.{on_audio_tick}
use clankvox.Outbound.{Transport, protect_opus, send_on, send_opus, tick_and_send}

module _ {S : Type 0} (session : DaveSession S) where
  -- Both ends of a DAVE session that is on: the sender's turns the frame into `sealed`, from which the
  -- receiver's recovers it.
  unfoldable pub Agreed : DaveManager S → DaveManager S → ℕ → List ℕ → List ℕ → Type 0
  Agreed m n sender opus sealed =
      (m.ready ≡ true)
      × ((m.protocol_version == 0) ≡ false)
      × ((session.encrypt_opus opus m.session).0 ≡ some sealed)
      × (n.ready ≡ true)
      × ((n.protocol_version == 0) ≡ false)
      × ((session.decrypt sender audio sealed n.session).0 ≡ plain opus)

  -- The listener gets the frame: the packet passes the transport, and DAVE gives the frame back.
  pub Hears : TransportCrypto → DaveManager S → ℕ → List ℕ → List ℕ → Type 0
  Hears r n sender packet opus =
      (media : Media) × (receive r packet ≡ ok (some media))
      × ((decrypt_media session n sender audio media.primary_payload).0 ≡ some opus)

  recovered_opus :
      (m n : DaveManager S) (sender : ℕ) (opus sealed : List ℕ)
      → Agreed m n sender opus sealed
      → (decrypt_media session n sender audio sealed).0 ≡ some opus
  unfolding Agreed decrypt_media
  recovered_opus m n sender opus sealed (mr, mv, me, ready, version, e) = ground arith

module _ {S : Type 0} (session : DaveSession S) (udp_send : List ℕ → Bool) where
  protected_opus :
      (m n : DaveManager S) (sender : ℕ) (opus sealed : List ℕ)
      → Agreed session m n sender opus sealed
      → (protect_opus session udp_send (some m) opus).0 ≡ sealed
  unfolding Agreed encrypt_opus
  protected_opus m n sender opus sealed (ready, version, e, nr, nv, d) = ground arith

  sent_opus :
      (m n : DaveManager S) (sender : ℕ) (opus sealed : List ℕ)
      → Agreed session m n sender opus sealed
      → (c : VoiceConnection) {c' : VoiceConnection} → send_rtp_frame udp_send c sealed ≡ (true, c')
      → (send_opus session udp_send (some opus) (record { dave = some m; conn = some c })).conn
        ≡ some c'
  unfolding send_opus
  sent_opus m n sender opus sealed agreed c e =
      ap (send_on session udp_send (some c)) (protected_opus m n sender opus sealed agreed)
      ∙ ap (λ sent. some sent.1) e

  -- When an audio tick has a frame, both ends have an agreed DAVE session, and the connection takes the
  -- encrypted frame, then the tick puts one datagram on the wire, and a receiver with the same transport
  -- key and cipher gets the Opus frame of the tick back from it.
  pub tick_and_send-Hears :
      {F D E : Type 0} (fl : Floats F D) (encode : E → List ℤ → Option (List ℕ) × E) (now : ℕ)
      (p : Playback F E) (m n : DaveManager S) (sender : ℕ) (opus sealed : List ℕ)
      (c : VoiceConnection) {c' : VoiceConnection} (r : TransportCrypto)
      → (on_audio_tick fl encode now p).0 ≡ some opus
      → Agreed session m n sender opus sealed
      → IsAead (cipher_aead c.crypto.cipher)
      → r.cipher ≡ c.crypto.cipher
      → c.timestamp < u32_mod
      → c.ssrc < u32_mod
      → send_rtp_frame udp_send c sealed ≡ (true, c')
      → let t : Transport S = record { dave = some m; conn = some c } in
        ((tick_and_send session udp_send fl encode now p t).1.conn ≡ some c')
        × ((packet : List ℕ) × (c'.sent ≡ c.sent ++ (packet ∷ []))
            × Hears session r n sender packet opus)
  unfolding tick_and_send Hears
  tick_and_send-Hears fl encode now p m n sender opus sealed c r ticked agreed laws same ts ssrc e =
      let t : Transport S = record { dave = some m; conn = some c } in
      let (packet, on_wire, received) =
        receive-send_rtp_frame udp_send c laws r sealed same ts ssrc e in
      (
        ap (λ frame. (send_opus session udp_send frame t).conn) ticked
            ∙ sent_opus m n sender opus sealed agreed c e,
        (packet, on_wire, (_, received, recovered_opus session m n sender opus sealed agreed)),
      )
