-- ===== src/Dave/Decrypt.antt =====
-- src/dave.rs: what `decrypt` and `decrypt_video` let through.
use clankvox.Base.{
  ℕ, true, false, not, Option, none, some, List, ◌≡◌, refl, arith, ◌==◌, Bool-cases, inl, inr, ◌⊎◌,
}
use clankvox.Dave.{
  DaveSession, DaveManager, MediaType, audio, video, Decrypted, plain, unencrypted,
  no_decryptor_for_user, decryption_failed, looks_like_valid_h264, decrypt_media,
  decrypted_disabled, decrypted_enabled,
}

module _ {S : Type 0} (dave : DaveSession S) where
  -- What is handed on of a frame: what the session decrypted, or the frame itself before the session is
  -- ready or when the session finds it unencrypted, and then a video frame under a version other than 0
  -- only if it looks like H.264.
  abbrev pub Admitted : DaveManager S → ℕ → MediaType → List ℕ → Option (List ℕ) → Type 0
  Admitted m sender media frame none = Unit
  Admitted m sender media frame (some bytes) =
      ((m.ready ≡ false) × (bytes ≡ frame))
      ⊎ (((dave.decrypt sender media frame m.session).0 ≡ plain bytes)
          ⊎ (((dave.decrypt sender media frame m.session).0 ≡ unencrypted)
              × (bytes ≡ frame)
              × ((m.protocol_version ≡ 0)
                  ⊎ ((media ≡ audio) ⊎ (looks_like_valid_h264 frame ≡ true)))))

  disabled_lem :
      (m : DaveManager S) (frame : List ℕ) (r : Decrypted) {bytes : List ℕ}
      → (decrypted_disabled dave m frame r).0 ≡ some bytes
      → (r ≡ plain bytes) ⊎ ((r ≡ unencrypted) × (bytes ≡ frame))
  disabled_lem m frame (plain b) e = inl (ground arith)
  disabled_lem m frame unencrypted e = inr (refl, ground arith)
  disabled_lem m frame no_decryptor_for_user e = absurd (ground arith)
  disabled_lem m frame decryption_failed e = absurd (ground arith)

  enabled_lem :
      (m : DaveManager S) (media : MediaType) (frame : List ℕ) (r : Decrypted) {bytes : List ℕ}
      → (decrypted_enabled dave m media frame r).0 ≡ some bytes
      → (r ≡ plain bytes)
        ⊎ ((r ≡ unencrypted)
            × (bytes ≡ frame)
            × ((media ≡ audio) ⊎ (looks_like_valid_h264 frame ≡ true)))
  enabled_lem m media frame (plain b) e = inl (ground arith)
  enabled_lem m audio frame unencrypted e = inr (refl, ground arith, inl refl)
  enabled_lem m video frame unencrypted e = elim (Bool-cases (looks_like_valid_h264 frame)) [
    | inl valid ↦ inr (refl, ground arith, inr valid)
    | inr garbage ↦ absurd (ground arith)
  ]
  enabled_lem m media frame no_decryptor_for_user e = absurd (ground arith)
  enabled_lem m media frame decryption_failed e = absurd (ground arith)

  with_some :
      (m : DaveManager S) (sender : ℕ) (media : MediaType) (frame : List ℕ)
      (r : Option (List ℕ) × DaveManager S)
      → ((bytes : List ℕ) → r.0 ≡ some bytes → Admitted m sender media frame (some bytes))
      → Admitted m sender media frame r.0
  with_some m sender media frame (none, m') h = tt
  with_some m sender media frame (some bytes, m') h = h bytes refl

  -- A frame that `decrypt` or `decrypt_video` hands on was decrypted by the session, or it is the received
  -- frame, and then the session was not ready, or the session found it unencrypted and the version is 0,
  -- the frame is audio, or it looks like H.264. What the session cannot decrypt is never handed on.
  pub decrypt_media_lem :
      (m : DaveManager S) (sender : ℕ) (media : MediaType) (frame : List ℕ)
      → Admitted m sender media frame (decrypt_media dave m sender media frame).0
  unfolding decrypt_media
  decrypt_media_lem m sender media frame =
      let (r, session) = dave.decrypt sender media frame m.session in
      let m' = record m { session = session } in
      elim (Bool-cases (not m.ready)) [
        | inl early ↦ rw early (inl (ground arith, refl))
        | inr ready ↦ elim (Bool-cases (m.protocol_version == 0)) [
          | inl disabled ↦
              rw (ready, disabled)
                (with_some m sender media frame (decrypted_disabled dave m' frame r) (λ bytes e.
                  elim (disabled_lem m' frame r e) [
                    | inl p ↦ inr (inl p)
                    | inr (u, same) ↦ inr (inr (u, same, inl (ground arith)))
                  ]))
          | inr enabled ↦
              rw (ready, enabled)
                (with_some m sender media frame (decrypted_enabled dave m' media frame r)
                  (λ bytes e. elim (enabled_lem m' media frame r e) [
                    | inl p ↦ inr (inl p)
                    | inr (u, same, kind) ↦ inr (inr (u, same, inr kind))
                  ]))
        ]
      ]
