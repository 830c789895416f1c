-- ===== src/Voice/Receive.antt =====
-- src/voice_conn.rs, `udp_recv_loop`: from a datagram to the decrypted payload of a media packet.
use clankvox.Base.{ℕ, ◌%◌, Bool, ◌&&◌, Option, none, some, List, leb, if◌then◌else◌}
use clankvox.Base.Outcome.{Outcome, ok, ◌>>=◌, index}
use clankvox.Rtp.{
  ParsedHeader, parse_rtp_header, strip_rtp_padding, strip_rtp_extension_payload,
  is_rtx_payload_type,
}
use clankvox.Crypto.{TransportCrypto, decrypt}

-- A media packet, decrypted and stripped: what the codec branches of the loop start from.
pub record Media : Type 0 where
  pub payload_type : ℕ
  pub sequence : ℕ
  pub timestamp : ℕ
  pub ssrc : ℕ
  pub marker : Bool
  pub primary_payload : List ℕ
  pub fallback_payload : Option (List ℕ)

-- Padding goes first, then the extension body.
unfoldable pub strip_payload : List ℕ → List ℕ → Outcome (Option (List ℕ × Option (List ℕ)))
strip_payload packet decrypted =
    strip_rtp_padding packet decrypted >>= λ media. strip_rtp_extension_payload packet media

-- One round of the loop up to the codec branches; `none` is `continue`, the packet is dropped.
unfoldable pub receive_payload :
    TransportCrypto → List ℕ → ℕ → ParsedHeader → Outcome (Option Media)
receive_payload crypto packet payload_type (sequence, timestamp, ssrc, header_size, marker) = do
  opened ← decrypt crypto packet header_size
  elim opened [
    | none ↦ ok none
    | some decrypted ↦ strip_payload packet decrypted >>= elim [
      | none ↦ ok none
      | some (primary_payload, fallback_payload) ↦ ok (
          some (record {
            payload_type = payload_type;
            sequence = sequence;
            timestamp = timestamp;
            ssrc = ssrc;
            marker = marker;
            primary_payload = primary_payload;
            fallback_payload = fallback_payload;
          }))
    ]
  ]

unfoldable pub receive : TransportCrypto → List ℕ → Outcome (Option Media)
receive crypto packet = do
  parsed ← parse_rtp_header packet
  elim parsed [
    | none ↦ ok none
    | some header ↦ index packet 1 >>= λ second.
        let payload_type = second % 128 in
        let rest = receive_payload crypto packet payload_type header in
        if leb 72 payload_type && leb payload_type 76
        then ok none
        else if is_rtx_payload_type payload_type
        then ok none
        else rest
  ]
