-- ===== src/Tests/Media.antt =====
-- The properties of the media path at concrete inputs, with a cipher that only appends its tag.
use clankvox.Base.{
  ℕ, ◌-◌, Bool, true, false, Option, none, some, List, [], ◌∷◌, ◌++◌, ◌≡◌, ◌≢◌, ◌⊎◌, refl, arith,
  length, take, take-length-append, length-append,
}
use clankvox.Base.Bytes.{u32_be}
use clankvox.Base.Outcome.{ok}
use clankvox.Crypto.{
  Aead, TransportCrypto, aes256_gcm_rtp_size, cipher_aead, cipher_nonce, encrypt, decrypt,
}
use clankvox.Crypto.Packet.{IsAead, decrypt-encrypt}
use clankvox.Crypto.Nonce.{encrypt_all, encrypt_nonce_fresh}
use clankvox.Rtp.{is_rtx_payload_type}
use clankvox.Rtcp.{build_protected_rtcp_packet}
use clankvox.Rtcp.Feedback.{IsProtected, build_protected_rtcp_packet_lem}
use clankvox.Voice.Receive.{Media, receive}
use clankvox.Voice.Send.{VoiceConnection, transmit, send_rtp_frame, send_video_packet}
use clankvox.Voice.Transport.{receive-send_rtp_frame, receive-send_video_packet}
use clankvox.Voice.Total.{receive_total}

abbrev tag : List ℕ
tag = 1 ∷ 2 ∷ 3 ∷ 4 ∷ 5 ∷ 6 ∷ 7 ∷ 8 ∷ 9 ∷ 10 ∷ 11 ∷ 12 ∷ 13 ∷ 14 ∷ 15 ∷ 16 ∷ []

abbrev pub tagging : Aead
tagging = record {
  seal = λ nonce aad msg. some (msg ++ tag);
  unseal = λ nonce aad ct. some (take (length ct - 16) ct);
}

pub tagging-IsAead : IsAead tagging
tagging-IsAead = record {
  unseal-seal = λ nonce aad msg ct e.
      ground (arith, take-length-append msg tag (length ct - 16), length-append msg tag);
  length-seal = λ nonce aad msg ct e. ground (arith, length-append msg tag);
}

abbrev pub crypto : TransportCrypto
crypto = record { cipher = aes256_gcm_rtp_size tagging; send_nonce = 4294967295 }

abbrev packet_header : List ℕ
packet_header = 128 ∷ 120 ∷ 0 ∷ 1 ∷ 0 ∷ 0 ∷ 3 ∷ 192 ∷ 0 ∷ 0 ∷ 0 ∷ 7 ∷ []

decrypt-encrypt_example :
    decrypt crypto (packet_header ++ ((55 ∷ 56 ∷ []) ++ (tag ++ u32_be 4294967295))) 12
    ≡ ok (some (55 ∷ 56 ∷ []))
unfolding cipher_aead encrypt
decrypt-encrypt_example =
    decrypt-encrypt crypto tagging-IsAead packet_header (55 ∷ 56 ∷ []) refl crypto 12 refl
      (omega arith) refl

encrypt_nonce_fresh_example :
    let d = encrypt_all crypto ((packet_header, 55 ∷ []) ∷ []) in
    (d.cipher ≡ aes256_gcm_rtp_size tagging)
    × (cipher_nonce d.cipher (u32_be d.send_nonce)
        ≢ cipher_nonce (aes256_gcm_rtp_size tagging) (u32_be 4294967295))
encrypt_nonce_fresh_example =
    encrypt_nonce_fresh crypto ((packet_header, 55 ∷ []) ∷ []) (omega arith) (omega arith)
      (omega arith)

abbrev pub connection : VoiceConnection
connection = record {
  ssrc = 7;
  crypto = crypto;
  rtp_sequence = 65537;
  timestamp = 960;
  video_payload_type = 103;
  video_ssrc = some 8;
  video_sequence = 70000;
  video_timestamp = 3000;
  sent = [];
}

abbrev pub always : List ℕ → Bool
always packet = true

receive-send_rtp_frame_example :
    (packet : List ℕ) × ((send_rtp_frame always connection (55 ∷ 56 ∷ [])).1.sent
      ≡ [] ++ (packet ∷ []))
    × (receive crypto packet
        ≡ ok (
            some (record {
              payload_type = 120;
              sequence = 1;
              timestamp = 960;
              ssrc = 7;
              marker = false;
              primary_payload = 55 ∷ 56 ∷ [];
              fallback_payload = none;
            })))
unfolding send_rtp_frame transmit encrypt cipher_aead
receive-send_rtp_frame_example =
    receive-send_rtp_frame always connection tagging-IsAead crypto (55 ∷ 56 ∷ []) refl (omega arith)
      (omega arith) refl

receive-send_video_packet_example :
    (packet : List ℕ) × ((send_video_packet always 8 3000 connection true (101 ∷ 9 ∷ [])).1.sent
      ≡ [] ++ (packet ∷ []))
    × (receive crypto packet
        ≡ ok (
            some (record {
              payload_type = 103;
              sequence = 4464;
              timestamp = 3000;
              ssrc = 8;
              marker = true;
              primary_payload = 101 ∷ 9 ∷ [];
              fallback_payload = some (81 ∷ 0 ∷ 0 ∷ 0 ∷ 101 ∷ 9 ∷ []);
            })))
unfolding send_video_packet transmit encrypt cipher_aead is_rtx_payload_type
receive-send_video_packet_example =
    receive-send_video_packet always connection tagging-IsAead crypto 8 3000 true (101 ∷ 9 ∷ [])
      refl (omega arith) (omega arith) (omega arith) refl (omega arith) refl

receive_total_example : (m : Option Media) × (receive crypto (128 ∷ 120 ∷ 0 ∷ []) ≡ ok m)
receive_total_example = receive_total crypto (128 ∷ 120 ∷ 0 ∷ [])

build_protected_rtcp_packet_lem_example :
    (c' : TransportCrypto) × ((build_protected_rtcp_packet crypto 1 206 (u32_be 7) ≡ ok (none, c'))
      ⊎ ((packet : List ℕ) × (build_protected_rtcp_packet crypto 1 206 (u32_be 7)
            ≡ ok (some packet, c'))
          × IsProtected crypto 1 206 (u32_be 7) packet))
unfolding cipher_aead
build_protected_rtcp_packet_lem_example =
    build_protected_rtcp_packet_lem crypto crypto tagging-IsAead refl 1 206 (u32_be 7) refl
      (omega arith)
