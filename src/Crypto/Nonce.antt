-- ===== src/Crypto/Nonce.antt =====
-- src/transport_crypto.rs: the nonces of successive packets.
use clankvox.Base.{ℕ, ◌+◌, ◌%◌, ◌<◌, List, [], ◌∷◌, ◌≡◌, ◌≢◌, refl, arith, length}
use clankvox.Base.Bytes.{u32_be, u32_mod}
use clankvox.Crypto.{
  TransportCrypto, TransportCipher, encrypt, cipher_nonce, aes256_gcm_rtp_size,
  xchacha20_poly1305_rtp_size,
}

-- A sequence of `encrypt` calls, each with its associated data and payload.
pub encrypt_all : TransportCrypto → List (List ℕ × List ℕ) → TransportCrypto
encrypt_all c [] = c
encrypt_all c ((aad, payload) ∷ calls) = encrypt_all (encrypt c aad payload).1 calls

send_nonce-encrypt_all :
    (c : TransportCrypto) (calls : List (List ℕ × List ℕ))
    → c.send_nonce < u32_mod
    → (encrypt_all c calls).send_nonce ≡ (c.send_nonce + length calls) % u32_mod
unfolding encrypt_all encrypt
send_nonce-encrypt_all c [] h = omega arith
send_nonce-encrypt_all c ((aad, payload) ∷ calls) h =
    omega (arith, send_nonce-encrypt_all (encrypt c aad payload).1 calls (omega arith))

cipher_nonce-injective :
    (c : TransportCipher) (a b : ℕ)
    → a < u32_mod
    → b < u32_mod
    → cipher_nonce c (u32_be a) ≡ cipher_nonce c (u32_be b)
    → a ≡ b
unfolding cipher_nonce
cipher_nonce-injective (aes256_gcm_rtp_size _) a b h k e = ground arith
cipher_nonce-injective (xchacha20_poly1305_rtp_size _) a b h k e = ground arith

cipher-encrypt_all :
    (c : TransportCrypto) (calls : List (List ℕ × List ℕ)) → (encrypt_all c calls).cipher ≡ c.cipher
unfolding encrypt_all encrypt
cipher-encrypt_all c [] = refl
cipher-encrypt_all c ((aad, payload) ∷ calls) = cipher-encrypt_all (encrypt c aad payload).1 calls

-- After any one to 2^32 - 1 `encrypt` calls, failed ones included, the key and the cipher are the same
-- and the nonce of the next call differs from the nonce of the first.
pub encrypt_nonce_fresh :
    (c : TransportCrypto) (calls : List (List ℕ × List ℕ))
    → c.send_nonce < u32_mod
    → 0 < length calls
    → length calls < u32_mod
    → let d = encrypt_all c calls in
      (d.cipher ≡ c.cipher)
      × (cipher_nonce d.cipher (u32_be d.send_nonce) ≢ cipher_nonce c.cipher (u32_be c.send_nonce))
encrypt_nonce_fresh c calls h pos few = (
  cipher-encrypt_all c calls,
  λ e. omega (
    arith,
    send_nonce-encrypt_all c calls h,
    cipher_nonce-injective c.cipher (encrypt_all c calls).send_nonce c.send_nonce
        (omega (arith, send_nonce-encrypt_all c calls h)) h (rw (cipher-encrypt_all c calls) at e),
  ),
)
