-- ===== src/Rtp/Strip.antt =====
-- src/rtp.rs: padding and header extensions of a decrypted payload.
use clankvox.Base.{
  ℕ, suc, ◌+◌, ◌-◌, ◌*◌, ◌<◌, ◌≤◌, true, false, none, some, List, [], ◌∷◌, ◌++◌, ◌≡◌, refl, ap, ◌∙◌,
  ◌⊎◌, is_empty, take, arith, length, length-append, take-length-append, drop-length-append,
  get_or-append_right,
}
use clankvox.Base.Bytes.{bit5, bit4, of_u16_be}
use clankvox.Base.Outcome.{ok}
use clankvox.Rtp.{strip_rtp_padding, strip_rtp_extension_payload}
use clankvox.Rtp.Pure.{
  byte, csrc_end, strip_rtp_padding_pure, without_padding, strip_rtp_extension_payload_pure,
}

is_empty_of_pos : (xs : List ℕ) → 0 < length xs → is_empty xs ≡ false
is_empty_of_pos [] h = absurd (omega arith)
is_empty_of_pos (x ∷ xs) h = refl

without_padding_lem :
    (packet xs : List ℕ) (n : ℕ)
    → bit5 (byte packet 0) ≡ true
    → byte xs (length xs - 1) ≡ n
    → 1 ≤ n
    → n ≤ length xs
    → without_padding packet xs ≡ take (length xs - n) xs
without_padding_lem packet xs n p e low high = ground (arith, is_empty_of_pos xs)

last_byte :
    (media filler : List ℕ) (n : ℕ)
    → byte (media ++ (filler ++ (n ∷ []))) (length media + (length filler + 0)) ≡ n
last_byte media filler n =
    get_or-append_right media (filler ++ (n ∷ [])) (length filler + 0) 0
    ∙ get_or-append_right filler (n ∷ []) 0 0

-- With the P bit set, `strip_rtp_padding` removes exactly what a sender appended: filler bytes and a
-- last byte that counts itself and the filler, as RFC 3550 has it.
pub strip_rtp_padding-padded :
    (packet media filler : List ℕ)
    → 0 < length packet
    → bit5 (byte packet 0) ≡ true
    → strip_rtp_padding packet (media ++ (filler ++ (suc (length filler) ∷ []))) ≡ ok media
strip_rtp_padding-padded packet media filler h p =
    let n = suc (length filler) in
    let xs = media ++ (filler ++ (n ∷ [])) in
    let size : length xs ≡ length media + (length filler + 1) =
      length-append media (filler ++ (n ∷ []))
      ∙ ap (λ k. length media + k) (length-append filler (n ∷ [])) in
    let at : length xs - 1 ≡ length media + (length filler + 0) = omega (arith, size) in
    strip_rtp_padding_pure packet xs h
    ∙ ap ok (
        without_padding_lem packet xs n p (ap (byte xs) at ∙ last_byte media filler n) (omega arith)
          (omega (arith, size))
        ∙ take-length-append media (filler ++ (n ∷ [])) (length xs - n) (omega (arith, size)))

-- Without the P bit, or on a padding count of 0 or beyond the payload, nothing is removed.
pub strip_rtp_padding-unpadded :
    (packet payload : List ℕ)
    → 0 < length packet
    → (bit5 (byte packet 0) ≡ false)
      ⊎ ((byte payload (length payload - 1) ≡ 0)
          ⊎ (length payload < byte payload (length payload - 1)))
    → strip_rtp_padding packet payload ≡ ok payload
strip_rtp_padding-unpadded packet payload h c =
    rw (strip_rtp_padding_pure packet payload h) (ground arith)

-- On a packet with the X bit whose extension prefix announces as many 32-bit words as `body` holds,
-- the payload comes back without `body`, with the whole decrypted bytes as the alternate; a payload
-- that is nothing but the body is refused.
pub strip_rtp_extension_payload-body :
    (packet body payload : List ℕ)
    → csrc_end packet + 4 ≤ length packet
    → bit4 (byte packet 0) ≡ true
    → of_u16_be (byte packet (csrc_end packet + 2)) (byte packet (csrc_end packet + 3)) * 4
      ≡ length body
    → strip_rtp_extension_payload packet (body ++ payload)
      ≡ ok (elim payload [ [] ↦ none | x ∷ xs ↦ some (x ∷ xs, some (body ++ (x ∷ xs))) ])
strip_rtp_extension_payload-body packet body [] h x e =
    rw (strip_rtp_extension_payload_pure packet (body ++ []) (omega arith), x, e)
      (ground (arith, length-append body []))
strip_rtp_extension_payload-body packet body (y ∷ ys) h x e =
    rw
      (
        strip_rtp_extension_payload_pure packet (body ++ (y ∷ ys)) (omega arith),
        x,
        e,
        drop-length-append body (y ∷ ys) (length body) refl,
      )
      (ground (arith, length-append body (y ∷ ys)))
