-- ===== src/Rtcp/Feedback.antt =====
-- src/rtcp.rs: protected RTCP packets: their length field, and what the receiver opens.
use clankvox.Base.{
  ℕ, ◌+◌, ◌-◌, ◌*◌, ◌/◌, ◌%◌, ◌<◌, none, some, List, ◌∷◌, ◌++◌, ◌≡◌, ◌⊎◌, refl, arith, length,
  Option-cases, inl, inr,
}
use clankvox.Base.Bytes.{u16_be, of_u16_be}
use clankvox.Base.Outcome.{ok}
use clankvox.Rtp.Pure.{byte}
use clankvox.Crypto.{TransportCrypto, cipher_aead, encrypt, decrypt_with_aad}
use clankvox.Crypto.Packet.{IsAead, decrypt_with_aad-encrypt, length-encrypt}
use clankvox.Rtcp.{build_rtcp_header, build_protected_rtcp_packet}

-- The header of a packet with a body of `n` bytes.
abbrev header : ℕ → ℕ → ℕ → List ℕ
header fmt pt n = (128 + fmt % 32) ∷ pt ∷ u16_be ((4 + n + 16 + 4) / 4 - 1)

build_rtcp_header_lem :
    (fmt pt n : ℕ) → build_rtcp_header fmt pt (4 + n + 16 + 4) ≡ ok (header fmt pt n)
unfolding build_rtcp_header
build_rtcp_header_lem fmt pt n = ground arith

-- What a receiver may rely on in a protected packet.
pub record IsProtected (d : TransportCrypto) (fmt pt : ℕ) (body packet : List ℕ) : Type 0 where
  pub version_and_count : byte packet 0 ≡ 128 + fmt % 32
  pub packet_type : byte packet 1 ≡ pt
  pub length_field : 4 * (of_u16_be (byte packet 2) (byte packet 3) + 1) ≡ length packet
  pub opens : decrypt_with_aad d packet 4 ≡ ok (some body)

module _ (c d : TransportCrypto) (laws : IsAead (cipher_aead c.cipher))
    (same : d.cipher ≡ c.cipher) where
  header-IsProtected :
      (fmt pt : ℕ) (body out : List ℕ)
      → length body % 4 ≡ 0
      → length body < 262120
      → (encrypt c (header fmt pt (length body)) body).0 ≡ some out
      → IsProtected d fmt pt body (header fmt pt (length body) ++ out)
  header-IsProtected fmt pt body out words small sealed = record {
    version_and_count = refl;
    packet_type = refl;
    length_field = omega (arith, length-encrypt c laws (header fmt pt (length body)) body sealed);
    opens = decrypt_with_aad-encrypt c laws (header fmt pt (length body)) body sealed d same;
  }

  -- For a body of whole words and fewer than 262120 bytes, building a protected RTCP packet returns
  -- without a panic: the encryption failed, or the packet carries the version, the count and the type,
  -- its length field announces exactly its own length in words less one, and a receiver with the same
  -- cipher and key opens it to the body.
  pub build_protected_rtcp_packet_lem :
      (fmt pt : ℕ) (body : List ℕ)
      → length body % 4 ≡ 0
      → length body < 262120
      → (c' : TransportCrypto) × ((build_protected_rtcp_packet c fmt pt body ≡ ok (none, c'))
          ⊎ ((packet : List ℕ) × (build_protected_rtcp_packet c fmt pt body ≡ ok (some packet, c'))
              × IsProtected d fmt pt body packet))
  unfolding build_protected_rtcp_packet
  build_protected_rtcp_packet_lem fmt pt body words small =
      let aad = header fmt pt (length body) in
      let c' = (encrypt c aad body).1 in
      elim (Option-cases (encrypt c aad body).0) [
        | inl failed ↦ (c', inl (rw (build_rtcp_header_lem fmt pt (length body), failed) refl))
        | inr (out, sealed) ↦ (
          c',
          inr (
            aad ++ out,
            rw (build_rtcp_header_lem fmt pt (length body), sealed) refl,
            header-IsProtected fmt pt body out words small sealed,
          ),
        )
      ]
