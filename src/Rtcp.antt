-- ===== src/Rtcp.antt =====
-- src/rtcp.rs: RTCP headers and transport-protected RTCP packets; and src/voice_conn.rs,
-- `send_rtcp_pli`. The socket is the parameter `try_send`.
pub mod Feedback
use clankvox.Base.{
  ℕ, ◌+◌, ◌-◌, ◌/◌, ◌%◌, Bool, true, false, Option, none, some, List, [], ◌∷◌, ◌++◌, ◌==◌,
  if◌then◌else◌, length,
}
use clankvox.Base.Bytes.{u16_be, u32_be, u32_mod}
use clankvox.Base.Outcome.{Outcome, ok, panic, ◌>>=◌}
use clankvox.Crypto.{TransportCrypto, encrypt, transport_tag_len, transport_nonce_len}

abbrev pub rtcp_header_len : ℕ
rtcp_header_len = 4

-- The `expect` panics for a length below one word.
unfoldable pub build_rtcp_header : ℕ → ℕ → ℕ → Outcome (List ℕ)
build_rtcp_header fmt_or_count packet_type packet_len_bytes =
    let word_count = packet_len_bytes / 4 in
    if word_count == 0
    then panic
    else ok ((128 + fmt_or_count % 32) ∷ packet_type ∷ u16_be (word_count - 1))

-- `none` is a failed encryption.
unfoldable pub build_protected_rtcp_packet :
    TransportCrypto → ℕ → ℕ → List ℕ → Outcome (Option (List ℕ) × TransportCrypto)
build_protected_rtcp_packet crypto fmt_or_count packet_type body = do
  let packet_len = rtcp_header_len + length body + transport_tag_len + transport_nonce_len
  header ← build_rtcp_header fmt_or_count packet_type packet_len
  let (encrypted, crypto') = encrypt crypto header body
  ok (elim encrypted [ none ↦ none | some bytes ↦ some (header ++ bytes) ], crypto')

-- The part of a connection that sends feedback, with the packets that the socket took.
pub record FeedbackSender : Type 0 where
  pub ssrc : ℕ
  pub crypto : TransportCrypto
  pub fir_sequence : ℕ
  pub sent : List (List ℕ)

module _ (try_send : List ℕ → Bool) where
  -- What `send_protected_rtcp_packet` does with the packet that was built.
  abbrev pub deliver : FeedbackSender → Option (List ℕ) × TransportCrypto → Bool × FeedbackSender
  deliver c (none, crypto) = (false, record c { crypto = crypto })
  deliver c (some packet, crypto) =
      if try_send packet
      then (true, record c { crypto = crypto; sent = c.sent ++ (packet ∷ []) })
      else (false, record c { crypto = crypto })

  unfoldable pub send_protected_rtcp_packet :
      FeedbackSender → ℕ → ℕ → List ℕ → Outcome (Bool × FeedbackSender)
  send_protected_rtcp_packet c fmt_or_count packet_type body =
      build_protected_rtcp_packet c.crypto fmt_or_count packet_type body >>= λ built.
      ok (deliver c built)

  -- `?` between the three packets.
  abbrev pub and_then :
      Bool × FeedbackSender
      → (FeedbackSender → Outcome (Bool × FeedbackSender))
      → Outcome (Bool × FeedbackSender)
  and_then (true, c) next = next c
  and_then (false, c) next = ok (false, c)

  unfoldable pub send_rtcp_pli : FeedbackSender → ℕ → Outcome (Bool × FeedbackSender)
  send_rtcp_pli c media_ssrc = do
    let fir_seq = c.fir_sequence % 256
    let c' = record c { fir_sequence = (c.fir_sequence + 1) % u32_mod }
    let rr_body = u32_be c.ssrc
    let pli_body = u32_be c.ssrc ++ u32_be media_ssrc
    let fir_body = u32_be c.ssrc ++ (u32_be 0 ++ (u32_be media_ssrc ++ (fir_seq ∷ 0 ∷ 0 ∷ 0 ∷ [])))
    rr ← send_protected_rtcp_packet c' 0 201 rr_body
    pli ← and_then rr (λ d. send_protected_rtcp_packet d 1 206 pli_body)
    and_then pli (λ d. send_protected_rtcp_packet d 4 206 fir_body)
