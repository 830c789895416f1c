-- ===== src/Crypto/Packet.antt =====
-- src/transport_crypto.rs: the layout `aad | ciphertext + tag | nonce` of a protected packet.
use clankvox.Base.{
  ℕ, ◌+◌, ◌-◌, ◌<◌, ◌≤◌, Option, none, some, List, [], ◌∷◌, ◌++◌, ◌≡◌, refl, sym, ap, ◌∙◌, arith,
  length, take, drop, length-append, take-length-append, drop-length-append, append_assoc, inl, inr,
  Bool-cases, ltb,
}
use clankvox.Base.Bytes.{u32_be}
use clankvox.Base.Outcome.{ok, index_in_range, slice_in_range, slice_from_in_range}
use clankvox.Rtp.Pure.{byte}
use clankvox.Crypto.{
  Aead, TransportCipher, TransportCrypto, cipher_nonce, cipher_aead, encrypt, decrypt_with_aad,
  decrypt, rtp_aad_size,
}

-- What the cipher crates document: decryption under the same nonce and associated data undoes
-- encryption, and a ciphertext is 16 bytes of tag longer than its message.
pub record IsAead (c : Aead) : Type 0 where
  pub unseal-seal :
      (nonce aad msg ct : List ℕ)
      → c.seal nonce aad msg ≡ some ct
      → c.unseal nonce aad ct ≡ some msg
  pub length-seal :
      (nonce aad msg ct : List ℕ) → c.seal nonce aad msg ≡ some ct → length ct ≡ length msg + 16

-- `decrypt_with_aad` as a total function of its bytes.
abbrev pub opened : TransportCipher → List ℕ → ℕ → Option (List ℕ)
opened c packet aad_size =
    (cipher_aead c).unseal (cipher_nonce c (drop (length packet - 4) packet)) (take aad_size packet)
      (take (length packet - 4 - aad_size) (drop aad_size packet))

pub decrypt_with_aad_short :
    (c : TransportCrypto) (packet : List ℕ) (n : ℕ)
    → length packet < n + 20
    → decrypt_with_aad c packet n ≡ ok none
unfolding decrypt_with_aad
decrypt_with_aad_short c packet n h = ground arith

pub decrypt_with_aad_pure :
    (c : TransportCrypto) (packet : List ℕ) (n : ℕ)
    → n + 20 ≤ length packet
    → decrypt_with_aad c packet n ≡ ok (opened c.cipher packet n)
unfolding decrypt_with_aad
decrypt_with_aad_pure c packet n h = ground (
  arith,
  slice_in_range packet 0 n,
  slice_from_in_range packet (length packet - 4),
  slice_in_range packet n (length packet - 4),
)

-- `decrypt` never panics on a packet that is not empty.
pub decrypt_total :
    (c : TransportCrypto) (packet : List ℕ) (hs : ℕ)
    → 0 < length packet
    → (r : Option (List ℕ)) × (decrypt c packet hs ≡ ok r)
unfolding decrypt
decrypt_total c packet hs h =
    elim (Bool-cases (ltb (length packet) (rtp_aad_size (byte packet 0) + 20))) [
      | inl short ↦ (
        none,
        rw (index_in_range packet 0 h)
            (decrypt_with_aad_short c packet (rtp_aad_size (byte packet 0)) (ground arith)),
      )
      | inr long ↦ (
        opened c.cipher packet (rtp_aad_size (byte packet 0)),
        rw (index_in_range packet 0 h)
            (decrypt_with_aad_pure c packet (rtp_aad_size (byte packet 0)) (ground arith)),
      )
    ]

byte_append : (xs ys : List ℕ) → 0 < length xs → byte (xs ++ ys) 0 ≡ byte xs 0
byte_append [] ys h = absurd (omega arith)
byte_append (x ∷ xs) ys h = refl

module _ (k : TransportCipher) (aad ct nonce : List ℕ) (four : length nonce ≡ 4) where
  length-packet : length (aad ++ (ct ++ nonce)) ≡ length aad + length ct + 4
  length-packet = omega (arith, length-append aad (ct ++ nonce), length-append ct nonce)

  nonce_part : drop (length (aad ++ (ct ++ nonce)) - 4) (aad ++ (ct ++ nonce)) ≡ nonce
  nonce_part =
      ap (drop (length (aad ++ (ct ++ nonce)) - 4)) (sym (append_assoc aad ct nonce))
      ∙ drop-length-append (aad ++ ct) nonce (length (aad ++ (ct ++ nonce)) - 4)
          (omega (arith, length-packet, length-append aad ct))

  ct_part :
      take
        (length (aad ++ (ct ++ nonce)) - 4 - length aad)
        (drop (length aad) (aad ++ (ct ++ nonce)))
      ≡ ct
  ct_part =
      ap (take (length (aad ++ (ct ++ nonce)) - 4 - length aad))
        (drop-length-append aad (ct ++ nonce) (length aad) refl)
      ∙ take-length-append ct nonce (length (aad ++ (ct ++ nonce)) - 4 - length aad)
          (omega (arith, length-packet))

  opened_parts :
      opened k (aad ++ (ct ++ nonce)) (length aad)
      ≡ (cipher_aead k).unseal (cipher_nonce k nonce) aad ct
  opened_parts = cc (nonce_part, ct_part, take-length-append aad (ct ++ nonce) (length aad) refl)

module _ (c : TransportCrypto) (laws : IsAead (cipher_aead c.cipher)) (aad payload : List ℕ)
    {out : List ℕ} (sealed : (encrypt c aad payload).0 ≡ some out) where
  encrypt-seal :
      (ct : List ℕ) × ((cipher_aead c.cipher).seal
          (cipher_nonce c.cipher (u32_be c.send_nonce))
          aad
          payload
        ≡ some ct)
      × (out ≡ ct ++ u32_be c.send_nonce)
  unfolding encrypt
  encrypt-seal = ground arith

  pub length-encrypt : length out ≡ length payload + 20
  length-encrypt =
      let (ct, s, e) = encrypt-seal in
      rw e (length-append ct (u32_be c.send_nonce) ∙ omega (arith, laws.length-seal _ _ _ ct s))

  -- Whoever has the key opens what `encrypt` sealed, at the position where the associated data ends.
  pub decrypt_with_aad-encrypt :
      (d : TransportCrypto)
      → d.cipher ≡ c.cipher
      → decrypt_with_aad d (aad ++ out) (length aad) ≡ ok (some payload)
  decrypt_with_aad-encrypt d same =
      let (ct, s, e) = encrypt-seal in
      rw
        (
          decrypt_with_aad_pure d (aad ++ out) (length aad)
              (omega (arith, length-append aad out, length-encrypt)),
          e,
          opened_parts d.cipher aad ct (u32_be c.send_nonce) refl,
          same,
        )
        (ap ok (laws.unseal-seal _ aad payload ct s))

  -- For a cipher that satisfies the laws of authenticated encryption: when `encrypt` turns a payload
  -- into `out` under some associated data that is not empty, and the first byte of that data announces
  -- its length as `rtp_aad_size` reads it, then a receiver with the same cipher and key, given the
  -- packet of the associated data followed by `out`, returns the payload, whatever header size it is
  -- given.
  pub decrypt-encrypt :
      (d : TransportCrypto) (hs : ℕ)
      → d.cipher ≡ c.cipher
      → 0 < length aad
      → rtp_aad_size (byte aad 0) ≡ length aad
      → decrypt d (aad ++ out) hs ≡ ok (some payload)
  unfolding decrypt
  decrypt-encrypt d hs same pos size =
      rw
        (
          index_in_range (aad ++ out) 0 (omega (arith, length-append aad out)),
          byte_append aad out pos,
          size,
        )
        (decrypt_with_aad-encrypt d same)
