-- ===== src/Voice/Send.antt =====
-- src/voice_conn.rs: `send_rtp_frame` and `send_h264_frame`. The UDP socket is the parameter
-- `udp_send`, which says of each datagram whether the socket takes it.
use clankvox.Base.{
  ℕ, zero, suc, ◌+◌, ◌-◌, ◌*◌, ◌/◌, ◌%◌, max, Bool, true, false, ◌&&◌, Option, none, some, List, [],
  ◌∷◌, ◌++◌, leb, if◌then◌else◌, length, take, drop, get_or, is_empty,
}
use clankvox.Base.Bytes.{u16_mod, u32_mod}
use clankvox.Rtp.{
  build_rtp_header, build_video_rtp_header, video_rtp_extension_header, video_rtp_extension_payload,
  max_video_rtp_chunk_bytes,
}
use clankvox.AnnexB.{split_h264_annexb_nalus}
use clankvox.Crypto.{TransportCrypto, encrypt}

-- The part of `VoiceConnection` that the senders use, with the datagrams sent so far, oldest first.
-- The four counters are `AtomicU32`s.
pub record VoiceConnection : Type 0 where
  pub ssrc : ℕ
  pub crypto : TransportCrypto
  pub rtp_sequence : ℕ
  pub timestamp : ℕ
  pub video_payload_type : ℕ
  pub video_ssrc : Option ℕ
  pub video_sequence : ℕ
  pub video_timestamp : ℕ
  pub sent : List (List ℕ)

abbrev pub max_single_nal_payload : ℕ
max_single_nal_payload = max_video_rtp_chunk_bytes - length video_rtp_extension_payload

abbrev pub max_fu_payload : ℕ
max_fu_payload = max_video_rtp_chunk_bytes - length video_rtp_extension_payload - 2

-- `chunks(n)` of a slice, for `0 < n`; the fuel is its length.
unfoldable pub chunks_from : ℕ → ℕ → List ℕ → List (List ℕ)
chunks_from zero n xs = []
chunks_from (suc fuel) n [] = []
chunks_from (suc fuel) n (x ∷ xs) = take n (x ∷ xs) ∷ chunks_from fuel n (drop n (x ∷ xs))

abbrev pub fu_header : Bool → Bool → ℕ → ℕ
fu_header is_first is_last nal_type =
    (if is_first then 128 else 0) + (if is_last then 64 else 0) + nal_type

module _ (udp_send : List ℕ → Bool) where
  -- `Ok` is `true`, a failed encryption or send is `false`.
  unfoldable pub transmit : VoiceConnection → List ℕ → List ℕ → Bool × VoiceConnection
  transmit c aad payload =
      let (sealed, crypto) = encrypt c.crypto aad payload in
      let c' = record c { crypto = crypto } in
      elim sealed [
        | none ↦ (false, c')
        | some encrypted ↦
            let packet = aad ++ encrypted in
            if udp_send packet
            then (true, record c' { sent = c.sent ++ (packet ∷ []) })
            else (false, c')
      ]

  unfoldable pub send_rtp_frame : VoiceConnection → List ℕ → Bool × VoiceConnection
  send_rtp_frame c opus_payload =
      let seq = c.rtp_sequence % u16_mod in
      let ts = c.timestamp in
      transmit
        (record c {
          rtp_sequence = (c.rtp_sequence + 1) % u32_mod;
          timestamp = (ts + 960) % u32_mod;
        })
        (build_rtp_header seq ts c.ssrc) opus_payload

  -- One video packet: the next sequence number, the header with its extension prefix as associated
  -- data, and the extension body in front of the payload.
  unfoldable pub send_video_packet :
      ℕ → ℕ → VoiceConnection → Bool → List ℕ → Bool × VoiceConnection
  unfolding transmit
  send_video_packet video_ssrc timestamp c marker payload =
      let seq = c.video_sequence % u16_mod in
      transmit (record c { video_sequence = (c.video_sequence + 1) % u32_mod })
        (build_video_rtp_header c.video_payload_type seq timestamp video_ssrc marker
          ++ video_rtp_extension_header)
        (video_rtp_extension_payload ++ payload)

  -- The `for` loop over the chunks of a large NAL unit; `chunk_index` counts them.
  unfoldable pub send_chunks :
      ℕ → ℕ → Bool → List ℕ → ℕ → VoiceConnection → List (List ℕ) → Bool × VoiceConnection
  send_chunks video_ssrc timestamp is_last_nal nal chunk_index c [] = (true, c)
  send_chunks video_ssrc timestamp is_last_nal nal chunk_index c (chunk ∷ rest) =
      let nal_header = get_or nal 0 0 in
      let is_first_chunk = leb chunk_index 0 in
      let chunk_start = chunk_index * max_fu_payload in
      let is_last_chunk = leb (length nal - 1) (chunk_start + length chunk) in
      let fu_indicator = nal_header / 32 * 32 + 28 in
      let step =
        send_video_packet video_ssrc timestamp c (is_last_nal && is_last_chunk)
          (fu_indicator ∷ fu_header is_first_chunk is_last_chunk (nal_header % 32) ∷ chunk) in
      let others = send_chunks video_ssrc timestamp is_last_nal nal (chunk_index + 1) step.1 rest in
      if step.0 then others else step

  -- One round of the loop over the NAL units.
  unfoldable pub send_nal : ℕ → ℕ → Bool → VoiceConnection → List ℕ → Bool × VoiceConnection
  send_nal video_ssrc timestamp is_last_nal c [] = (true, c)
  send_nal video_ssrc timestamp is_last_nal c (first ∷ rest) =
      let nal = first ∷ rest in
      if leb (length nal) max_single_nal_payload
      then send_video_packet video_ssrc timestamp c is_last_nal nal
      else send_chunks video_ssrc timestamp is_last_nal nal 0 c
          (chunks_from (length rest) max_fu_payload rest)

  unfoldable pub send_nals : ℕ → ℕ → VoiceConnection → List (List ℕ) → Bool × VoiceConnection
  send_nals video_ssrc timestamp c [] = (true, c)
  send_nals video_ssrc timestamp c (nal ∷ nals) =
      let step = send_nal video_ssrc timestamp (is_empty nals) c nal in
      let others = send_nals video_ssrc timestamp step.1 nals in if step.0 then others else step

  unfoldable pub send_h264_frame : VoiceConnection → List ℕ → ℕ → Bool × VoiceConnection
  send_h264_frame c access_unit timestamp_increment = elim c.video_ssrc [
    | none ↦ (false, c)
    | some video_ssrc ↦
        let nalus = split_h264_annexb_nalus access_unit in
        if is_empty nalus
        then (false, c)
        else send_nals video_ssrc c.video_timestamp
            (record c {
              video_timestamp = (c.video_timestamp + max timestamp_increment 1) % u32_mod;
            })
            nalus
  ]
