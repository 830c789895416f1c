-- ===== src/Crypto.antt =====
-- src/transport_crypto.rs: Discord's `rtpsize` transport encryption. The two ciphers (the crates
-- aes-gcm and chacha20poly1305) are parameters: a value of `Aead` is a cipher with its key.
pub mod Packet
pub mod Nonce
use Prim.Native.String.{String}
use text.Mathlib.Text.{◌==◌ as str_eq}
use clankvox.Base.{
  ℕ, ◌+◌, ◌-◌, ◌*◌, ◌%◌, Bool, true, false, Option, none, some, List, [], ◌∷◌, ◌++◌, ltb, leb,
  if◌then◌else◌, length,
}
use clankvox.Base.Bytes.{bit4, u32_be, u32_mod}
use clankvox.Base.Outcome.{Outcome, ok, panic, ◌>>=◌, index, slice, slice_from}
use clankvox.Rtp.{rtp_header_len}

abbrev pub transport_tag_len : ℕ
transport_tag_len = 16

abbrev pub transport_nonce_len : ℕ
transport_nonce_len = 4

-- `encrypt` and `decrypt` of the `Aead` trait, on a nonce, the associated data and a message.
pub record Aead : Type 0 where
  pub seal : List ℕ → List ℕ → List ℕ → Option (List ℕ)
  pub unseal : List ℕ → List ℕ → List ℕ → Option (List ℕ)

pub data TransportCipher : Type 0 where
  aes256_gcm_rtp_size : Aead → TransportCipher
  xchacha20_poly1305_rtp_size : Aead → TransportCipher

-- `send_nonce` is an `AtomicU32`.
pub record TransportCrypto : Type 0 where
  pub cipher : TransportCipher
  pub send_nonce : ℕ

abbrev pub zeros_8 : List ℕ
zeros_8 = 0 ∷ 0 ∷ 0 ∷ 0 ∷ 0 ∷ 0 ∷ 0 ∷ 0 ∷ []

-- The four nonce bytes at the front of a 12-byte or a 24-byte nonce of zeros.
unfoldable pub cipher_nonce : TransportCipher → List ℕ → List ℕ
cipher_nonce (aes256_gcm_rtp_size c) raw = raw ++ zeros_8
cipher_nonce (xchacha20_poly1305_rtp_size c) raw =
    raw ++ (zeros_8 ++ (zeros_8 ++ (0 ∷ 0 ∷ 0 ∷ 0 ∷ [])))

unfoldable pub cipher_aead : TransportCipher → Aead
cipher_aead (aes256_gcm_rtp_size c) = c
cipher_aead (xchacha20_poly1305_rtp_size c) = c

-- The two arguments are the crates' `new_from_slice`, which refuse a key of the wrong length.
module _ (aes_new xchacha_new : List ℕ → Option Aead) where
  unfoldable pub new : List ℕ → String → Option TransportCrypto
  new secret_key mode =
      if str_eq mode "aead_aes256_gcm_rtpsize"
      then elim (aes_new secret_key) [
        | none ↦ none
        | some c ↦ some (record { cipher = aes256_gcm_rtp_size c; send_nonce = 0 })
      ]
      else if str_eq mode "aead_xchacha20_poly1305_rtpsize"
      then elim (xchacha_new secret_key) [
        | none ↦ none
        | some c ↦ some (record { cipher = xchacha20_poly1305_rtp_size c; send_nonce = 0 })
      ]
      else none

-- `fetch_add` wraps, and counts a failed encryption too.
unfoldable pub encrypt : TransportCrypto → List ℕ → List ℕ → Option (List ℕ) × TransportCrypto
encrypt c aad payload =
    let nonce_val = c.send_nonce in
    let c' = record c { send_nonce = (nonce_val + 1) % u32_mod } in
    (
      elim ((cipher_aead c.cipher).seal (cipher_nonce c.cipher (u32_be nonce_val)) aad payload) [
        | none ↦ none
        | some ct ↦ some (ct ++ u32_be nonce_val)
      ],
      c',
    )

unfoldable pub decrypt_with_aad : TransportCrypto → List ℕ → ℕ → Outcome (Option (List ℕ))
decrypt_with_aad c packet aad_size =
    if ltb (length packet) (aad_size + transport_tag_len + transport_nonce_len)
    then ok none
    else if leb (length packet) (aad_size + 4)
    then ok none
    else do
      aad ← slice packet 0 aad_size
      let nonce_start = length packet - 4
      nonce_raw ← slice_from packet nonce_start
      ct_with_tag ← slice packet aad_size nonce_start
      ok ((cipher_aead c.cipher).unseal (cipher_nonce c.cipher nonce_raw) aad ct_with_tag)

-- The associated data: the fixed header, the CSRC list and the prefix of an extension.
abbrev pub rtp_aad_size : ℕ → ℕ
rtp_aad_size b0 = rtp_header_len + b0 % 16 * 4 + (if bit4 b0 then 4 else 0)

-- The argument `_header_size` of the code is unused.
unfoldable pub decrypt : TransportCrypto → List ℕ → ℕ → Outcome (Option (List ℕ))
decrypt c packet header_size = do b0 ← index packet 0; decrypt_with_aad c packet (rtp_aad_size b0)
