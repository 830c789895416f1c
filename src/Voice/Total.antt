-- ===== src/Voice/Total.antt =====
-- src/voice_conn.rs, `udp_recv_loop`: its transport half on arbitrary datagrams.
use mathlib.Core.Option
use clankvox.Base.{
  ℕ, ◌<◌, ◌%◌, ◌≡◌, refl, Option, none, some, List, inl, inr, arith, length, ◌&&◌, leb,
  if◌then◌else◌, Option-cases, Bool, true, false,
}
use clankvox.Base.Outcome.{ok, index_in_range}
use clankvox.Rtp.{ParsedHeader, is_rtx_payload_type}
use clankvox.Rtp.Pure.{
  byte, header_of, header_size, parse_rtp_header_pure, strip_rtp_padding_pure,
  strip_rtp_extension_payload_pure, without_padding, without_extension,
}
use clankvox.Crypto.{TransportCrypto}
use clankvox.Crypto.Packet.{decrypt_total}
use clankvox.Voice.Receive.{Media, receive, receive_payload, strip_payload}

strip_payload_total :
    (packet payload : List ℕ)
    → 0 < length packet
    → strip_payload packet payload ≡ ok (without_extension packet (without_padding packet payload))
unfolding strip_payload
strip_payload_total packet payload h =
    rw (strip_rtp_padding_pure packet payload h)
      (strip_rtp_extension_payload_pure packet (without_padding packet payload) h)

abbrev media_of : ℕ → ParsedHeader → List ℕ × Option (List ℕ) → Media
media_of pt (sequence, timestamp, ssrc, hs, marker) (primary, fallback) = record {
  payload_type = pt;
  sequence = sequence;
  timestamp = timestamp;
  ssrc = ssrc;
  marker = marker;
  primary_payload = primary;
  fallback_payload = fallback;
}

-- The media of a decrypted payload.
abbrev media_in : List ℕ → ℕ → ParsedHeader → List ℕ → Option Media
media_in packet pt header decrypted =
    Option.map (media_of pt header) (without_extension packet (without_padding packet decrypted))

receive_payload_total :
    (r : TransportCrypto) (packet : List ℕ) (pt : ℕ) (header : ParsedHeader)
    → 0 < length packet
    → (m : Option Media) × (receive_payload r packet pt header ≡ ok m)
unfolding receive_payload
receive_payload_total r packet pt (sequence, timestamp, ssrc, hs, marker) h =
    let (opened, e) = decrypt_total r packet hs h in
    elim (Option-cases opened) [
      | inl dropped ↦ (none, rw (e, dropped) refl)
      | inr (decrypted, got) ↦ (
        media_in packet pt (sequence, timestamp, ssrc, hs, marker) decrypted,
        rw (e, got, strip_payload_total packet decrypted h) (ground arith),
      )
    ]

-- A packet with a header has its twelve fixed bytes.
long_of_header : (xs : List ℕ) {n : ℕ} → header_size xs ≡ some n → 1 < length xs
unfolding header_size
long_of_header xs e = ground arith

guarded :
    (a b : Bool) (m : Option Media)
    → (x : Option Media) × ((if a then ok none else if b then ok none else ok m) ≡ ok x)
guarded true b m = (none, refl)
guarded false true m = (none, refl)
guarded false false m = (m, refl)

-- Whatever bytes arrive, `receive` returns: it drops the packet or gives its media payload, and no
-- index or slice on the way is out of range.
pub receive_total :
    (r : TransportCrypto) (packet : List ℕ) → (m : Option Media) × (receive r packet ≡ ok m)
unfolding receive
receive_total r packet = elim (Option-cases (header_size packet)) [
  | inl short ↦ (none, rw (parse_rtp_header_pure packet, short) refl)
  | inr (n, got) ↦
      let pt = byte packet 1 % 128 in
      let (m, e) =
        receive_payload_total r packet pt (header_of packet n)
          (omega (arith, long_of_header packet got)) in
      rw (parse_rtp_header_pure packet, got, index_in_range packet 1 (long_of_header packet got), e)
        (guarded (leb 72 pt && leb pt 76) (is_rtx_payload_type pt) m)
]
