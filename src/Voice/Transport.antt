-- ===== src/Voice/Transport.antt =====
-- src/voice_conn.rs: `send_rtp_frame` and the packets of `send_h264_frame` against a receiver.
use clankvox.Base.{
  ℕ, ◌%◌, ◌<◌, ◌≤◌, Bool, true, false, ◌&&◌, Option, none, some, List, [], ◌∷◌, ◌++◌, ◌≡◌, refl, ap,
  inl, inr, arith, leb, if◌then◌else◌, length, Option-cases,
}
use clankvox.Base.Bytes.{or_0x80, u16_mod, u32_mod}
use clankvox.Base.Outcome.{ok, index_in_range}
use clankvox.Rtp.{
  opus_pt, parse_rtp_header, strip_rtp_padding, strip_rtp_extension_payload, is_rtx_payload_type,
  build_rtp_header, build_video_rtp_header, video_rtp_extension_header, video_rtp_extension_payload,
}
use clankvox.Rtp.Pure.{byte, header_size, parse_rtp_header_pure, strip_rtp_extension_payload_pure}
use clankvox.Rtp.Strip.{strip_rtp_padding-unpadded, strip_rtp_extension_payload-body}
use clankvox.Crypto.{TransportCrypto, cipher_aead, encrypt, decrypt}
use clankvox.Crypto.Packet.{IsAead, decrypt-encrypt, length-encrypt}
use clankvox.Voice.Receive.{receive, receive_payload, strip_payload}
use clankvox.Voice.Send.{VoiceConnection, transmit, send_rtp_frame, send_video_packet}

-- The payload type is neither that of multiplexed RTCP nor of a retransmission.
abbrev pub is_media_payload_type : ℕ → Bool
is_media_payload_type pt =
    if leb 72 pt && leb pt 76 then false else if is_rtx_payload_type pt then false else true

-- A packet whose parts are as expected is received.
receive_lem :
    (r : TransportCrypto) (packet decrypted primary : List ℕ) (fallback : Option (List ℕ))
    (pt seq ts ssrc hs : ℕ) (marker : Bool)
    → 1 < length packet
    → byte packet 1 % 128 ≡ pt
    → is_media_payload_type pt ≡ true
    → parse_rtp_header packet ≡ ok (some (seq, ts, ssrc, hs, marker))
    → decrypt r packet hs ≡ ok (some decrypted)
    → strip_rtp_padding packet decrypted ≡ ok decrypted
    → strip_rtp_extension_payload packet decrypted ≡ ok (some (primary, fallback))
    → receive r packet
      ≡ ok (
          some (record {
            payload_type = pt;
            sequence = seq;
            timestamp = ts;
            ssrc = ssrc;
            marker = marker;
            primary_payload = primary;
            fallback_payload = fallback;
          }))
unfolding receive receive_payload strip_payload
receive_lem r packet decrypted primary fallback pt seq ts ssrc hs marker long b media p d s x =
    ground (arith, index_in_range packet 1)

module _ (udp_send : List ℕ → Bool) where
  -- A successful `transmit` puts the associated data and what `encrypt` returned on the wire, and
  -- leaves the rest of the connection as it is.
  transmit_lem :
      (c : VoiceConnection) (aad payload : List ℕ) {c' : VoiceConnection}
      → transmit udp_send c aad payload ≡ (true, c')
      → (out : List ℕ) × ((encrypt c.crypto aad payload).0 ≡ some out)
        × (c' ≡ record c {
          crypto = (encrypt c.crypto aad payload).1;
          sent = c.sent ++ ((aad ++ out) ∷ []);
        })
  unfolding transmit
  transmit_lem c aad payload {c' = c'} e = elim (Option-cases (encrypt c.crypto aad payload).0) [
    | inl failed ↦ absurd (ground arith)
    | inr (out, sealed) ↦ (out, sealed, ground arith)
  ]

-- The header of an audio packet, and of a video packet with its extension prefix.
parse-rtp_header :
    (seq ts ssrc : ℕ) (out : List ℕ)
    → seq < 65536
    → ts < 4294967296
    → ssrc < 4294967296
    → parse_rtp_header (build_rtp_header seq ts ssrc ++ out) ≡ ok (some (seq, ts, ssrc, 12, false))
unfolding build_rtp_header header_size
parse-rtp_header seq ts ssrc out h k l =
    rw (parse_rtp_header_pure (build_rtp_header seq ts ssrc ++ out)) (ground arith)

abbrev video_aad : ℕ → ℕ → ℕ → ℕ → Bool → List ℕ
video_aad pt seq ts ssrc marker =
    build_video_rtp_header pt seq ts ssrc marker ++ video_rtp_extension_header

parse-video_rtp_header :
    (pt seq ts ssrc : ℕ) (marker : Bool) (out : List ℕ)
    → pt < 128
    → seq < 65536
    → ts < 4294967296
    → ssrc < 4294967296
    → 4 ≤ length out
    → parse_rtp_header (video_aad pt seq ts ssrc marker ++ out)
      ≡ ok (some (seq, ts, ssrc, 20, marker))
unfolding build_video_rtp_header header_size
parse-video_rtp_header pt seq ts ssrc marker out p h k l n =
    rw (parse_rtp_header_pure (video_aad pt seq ts ssrc marker ++ out)) (ground arith)

marked_mod : (marker : Bool) (pt : ℕ) → pt < 128 → (if marker then or_0x80 pt else pt) % 128 ≡ pt
marked_mod marker pt h = ground arith

strip_video :
    (pt seq ts ssrc : ℕ) (marker : Bool) (out payload : List ℕ)
    → 0 < length payload
    → strip_rtp_extension_payload
        (video_aad pt seq ts ssrc marker ++ out)
        (video_rtp_extension_payload ++ payload)
      ≡ ok (some (payload, some (video_rtp_extension_payload ++ payload)))
unfolding build_video_rtp_header
strip_video pt seq ts ssrc marker out [] h = absurd (omega arith)
strip_video pt seq ts ssrc marker out (x ∷ xs) h =
    strip_rtp_extension_payload-body (video_aad pt seq ts ssrc marker ++ out)
      video_rtp_extension_payload (x ∷ xs) (omega arith) refl refl

module _ (udp_send : List ℕ → Bool) (c : VoiceConnection)
    (laws : IsAead (cipher_aead c.crypto.cipher)) where
  -- When `send_rtp_frame` returns `Ok` it has put one datagram on the wire, and a receiver with the same
  -- key and cipher reads the Opus payload back from it, with the sequence number, timestamp and SSRC of
  -- the connection and no alternate payload.
  pub receive-send_rtp_frame :
      (r : TransportCrypto) (opus_payload : List ℕ) {c' : VoiceConnection}
      → r.cipher ≡ c.crypto.cipher
      → c.timestamp < u32_mod
      → c.ssrc < u32_mod
      → send_rtp_frame udp_send c opus_payload ≡ (true, c')
      → (packet : List ℕ) × (c'.sent ≡ c.sent ++ (packet ∷ []))
        × (receive r packet
            ≡ ok (
                some (record {
                  payload_type = opus_pt;
                  sequence = c.rtp_sequence % u16_mod;
                  timestamp = c.timestamp;
                  ssrc = c.ssrc;
                  marker = false;
                  primary_payload = opus_payload;
                  fallback_payload = none;
                })))
  unfolding send_rtp_frame build_rtp_header is_rtx_payload_type
  receive-send_rtp_frame r opus_payload same ts ssrc e =
      let seq = c.rtp_sequence % u16_mod in
      let aad = build_rtp_header seq c.timestamp c.ssrc in
      let (out, sealed, after) = transmit_lem udp_send _ aad opus_payload e in
      (
        aad ++ out,
        ap (λ v. v.sent) after,
        receive_lem r (aad ++ out) opus_payload opus_payload none opus_pt seq c.timestamp c.ssrc 12
            false (omega arith) refl refl
            (parse-rtp_header seq c.timestamp c.ssrc out (omega arith) ts ssrc)
            (decrypt-encrypt c.crypto laws aad opus_payload sealed r 12 same (omega arith) refl)
            (strip_rtp_padding-unpadded (aad ++ out) opus_payload (omega arith) (inl refl))
            (strip_rtp_extension_payload_pure (aad ++ out) opus_payload (omega arith)),
      )

  -- A successful `send_video_packet` puts one datagram on the wire, and a receiver with the same key
  -- and cipher reads back the payload without the extension body, the payload type, the sequence
  -- number, the timestamp, the SSRC and the marker; the alternate payload still has the extension body
  -- in front. The payload is not empty and its type is one that the receiver takes for media.
  pub receive-send_video_packet :
      (r : TransportCrypto) (video_ssrc timestamp : ℕ) (marker : Bool) (payload : List ℕ)
      {c' : VoiceConnection}
      → r.cipher ≡ c.crypto.cipher
      → timestamp < u32_mod
      → video_ssrc < u32_mod
      → c.video_payload_type < 128
      → is_media_payload_type c.video_payload_type ≡ true
      → 0 < length payload
      → send_video_packet udp_send video_ssrc timestamp c marker payload ≡ (true, c')
      → (packet : List ℕ) × (c'.sent ≡ c.sent ++ (packet ∷ []))
        × (receive r packet
            ≡ ok (
                some (record {
                  payload_type = c.video_payload_type;
                  sequence = c.video_sequence % u16_mod;
                  timestamp = timestamp;
                  ssrc = video_ssrc;
                  marker = marker;
                  primary_payload = payload;
                  fallback_payload = some (video_rtp_extension_payload ++ payload);
                })))
  unfolding send_video_packet build_video_rtp_header
  receive-send_video_packet r video_ssrc timestamp marker payload same ts ssrc pt media size e =
      let seq = c.video_sequence % u16_mod in
      let aad = video_aad c.video_payload_type seq timestamp video_ssrc marker in
      let body = video_rtp_extension_payload ++ payload in
      let (out, sealed, after) = transmit_lem udp_send _ aad body e in
      (
        aad ++ out,
        ap (λ v. v.sent) after,
        receive_lem r (aad ++ out) body payload (some body) c.video_payload_type seq timestamp
            video_ssrc 20 marker (omega arith) (marked_mod marker c.video_payload_type pt) media
            (parse-video_rtp_header c.video_payload_type seq timestamp video_ssrc marker out pt
              (omega arith) ts ssrc (omega (arith, length-encrypt c.crypto laws aad body sealed)))
            (decrypt-encrypt c.crypto laws aad body sealed r 20 same (omega arith) refl)
            (strip_rtp_padding-unpadded (aad ++ out) body (omega arith) (inl refl))
            (strip_video c.video_payload_type seq timestamp video_ssrc marker out payload size),
      )
