-- ===== src/Audio/Sent.antt =====
-- src/audio_pipeline.rs: what one tick of `next_opus_frame` returns to be sent.
use clankvox.Base.{
  ℕ, ◌≡◌, refl, sym, ◌⊎◌, inl, inr, Bool, true, false, Option, none, some, List, [], ◌∷◌, length,
  take, if◌then◌else◌, arith, ltb, ◌||◌, subst,
}
use clankvox.Base.Int.{ℤ}
use clankvox.Audio.Floats.{Floats, apply_samples}
use clankvox.Audio.State.{AudioSendState}
use clankvox.Audio.Frame.{
  has_music, prebuffer_gate, count_partial, tts_samples_to_take, idle, drain_music, encoded,
  has_partial_tts, encode_frame, mix, mix_frame, next_opus_frame,
}
use clankvox.Audio.Mix.{mix-mixed, length-mixed, mixed-IsI16}
use clankvox.Audio.Fifo.{prebuffer_gate-pcm}
use clankvox.Audio.Heard.{IsFrame}

-- The Opus frame that stands for silence.
abbrev pub silence_frame : List ℕ
silence_frame = 248 ∷ 255 ∷ 254 ∷ []

mix-IsFrame : (music speech : List ℤ) → IsFrame (mix music speech)
mix-IsFrame music speech =
    subst IsFrame (sym (mix-mixed music speech))
      (length-mixed 960 music speech, mixed-IsI16 960 music speech)

module _ {F D E : Type 0} (fl : Floats F D) (encode : E → List ℤ → Option (List ℕ) × E) where
  -- A frame was encoded, and what the encoder made of it is returned; or the encoder was not called,
  -- and what is returned is nothing, or silence, with no speech buffered and no music to play.
  unfoldable pub Sent : E → List ℤ → Bool → Option (List ℕ) × AudioSendState F E → Type 0
  Sent encoder speech music r =
      ((frame : List ℤ) × IsFrame frame
        × (r.0 ≡ (encode encoder frame).0)
        × (r.1.encoder ≡ (encode encoder frame).1))
      ⊎ ((r.1.encoder ≡ encoder)
          × ((r.0 ≡ none) ⊎ ((r.0 ≡ some silence_frame) × (speech ≡ []) × (music ≡ false))))

  encoded_lem :
      (r : Option (List ℕ) × E) (s : AudioSendState F E)
      → ((encoded fl encode r s).0 ≡ r.0) × ((encoded fl encode r s).1.encoder ≡ r.1)
  unfolding encoded
  encoded_lem (none, e) s = (refl, refl)
  encoded_lem (some opus, e) s = (refl, refl)

  encode_frame-Sent :
      (music flag : Bool) (n : ℕ) (s : AudioSendState F E)
      → Sent s.encoder s.pcm_buffer flag (encode_frame fl encode music n s)
  unfolding encode_frame drain_music Sent
  encode_frame-Sent true flag n s =
      let louder = (apply_samples fl s.music_gain (take 960 s.music_buffer)).0 in
      let frame = mix louder (take n s.pcm_buffer) in
      let (r, e) = encoded_lem (encode s.encoder frame) _ in
      inl (frame, mix-IsFrame louder (take n s.pcm_buffer), r, e)
  encode_frame-Sent false flag n s =
      let frame = mix [] (take n s.pcm_buffer) in
      let (r, e) = encoded_lem (encode s.encoder frame) _ in
      inl (frame, mix-IsFrame [] (take n s.pcm_buffer), r, e)

  idle_result :
      (s : AudioSendState F E)
      → ((idle s).1.encoder ≡ s.encoder) × (((idle s).0 ≡ none) ⊎ ((idle s).0 ≡ some silence_frame))
  unfolding idle
  idle_result s = ground arith

  nil_of : (l : List ℤ) → length l ≡ 0 → l ≡ []
  nil_of [] h = refl
  nil_of (x ∷ l) h = absurd (omega arith)

  no_speech :
      (music : Bool) (s : AudioSendState F E)
      → (ltb 0 (tts_samples_to_take music s) || music) ≡ false
      → has_partial_tts s ≡ false
      → (s.pcm_buffer ≡ []) × (music ≡ false)
  unfolding tts_samples_to_take
  no_speech music s h k =
      (nil_of s.pcm_buffer (let q : length s.pcm_buffer ≡ 0 = ground arith in q), ground arith)

  -- The three ends of a tick.
  chosen-Sent :
      (encoder : E) (speech : List ℤ) (music : Bool) (x y z : Option (List ℕ) × AudioSendState F E)
      (b c : Bool)
      → Sent encoder speech music x
      → Sent encoder speech music y
      → (b ≡ false → c ≡ false → Sent encoder speech music z)
      → Sent encoder speech music (if b then x else if c then y else z)
  chosen-Sent encoder speech music x y z true c hx hy hz = hx
  chosen-Sent encoder speech music x y z false true hx hy hz = hy
  chosen-Sent encoder speech music x y z false false hx hy hz = hz refl refl

  idle-Sent :
      (music : Bool) (s : AudioSendState F E)
      → (s.pcm_buffer ≡ []) × (music ≡ false)
      → Sent s.encoder s.pcm_buffer music (idle s)
  unfolding Sent
  idle-Sent music s empty =
      let (same, result) = idle_result s in
      elim result [
        | inl nothing ↦ inr (same, inl nothing)
        | inr silent ↦ inr (same, inr (silent, empty.0, empty.1))
      ]

  mix_frame-Sent :
      (music : Bool) (s : AudioSendState F E)
      → Sent s.encoder s.pcm_buffer music (mix_frame fl encode music s)
  unfolding mix_frame count_partial
  mix_frame-Sent music s =
      let s' = count_partial s in
      let n = tts_samples_to_take music s' in
      chosen-Sent s.encoder s.pcm_buffer music (encode_frame fl encode music n s') (none, s')
        (idle s') (ltb 0 n || music) (has_partial_tts s') (encode_frame-Sent music music n s')
        (unfold Sent in inr (refl, inl refl)) (λ h k. idle-Sent music s' (no_speech music s' h k))

  gate_encoder :
      (music : Bool) (s : AudioSendState F E) → (prebuffer_gate music s).1.encoder ≡ s.encoder
  unfolding prebuffer_gate
  gate_encoder music s = ground arith

  gated-Sent :
      (encoder : E) (speech : List ℤ) (music : Bool) (s : AudioSendState F E)
      → s.encoder ≡ encoder
      → s.pcm_buffer ≡ speech
      → (held : Bool)
      → Sent encoder speech music (if held then (none, s) else mix_frame fl encode music s)
  gated-Sent encoder speech music s e p true = unfold Sent in inr (e, inl refl)
  gated-Sent encoder speech music s e p false =
      subst (λ (l : List ℤ). Sent encoder l music (mix_frame fl encode music s)) p
        (subst (λ (en : E). Sent en s.pcm_buffer music (mix_frame fl encode music s)) e
          (mix_frame-Sent music s))

  -- A tick either gives the encoder one frame, of 960 samples in the range of an i16, and returns what
  -- the encoder makes of it; or it does not call the encoder and returns nothing, or the silence frame.
  -- The silence frame only comes when no speech is buffered and there is no music, that is, less than a
  -- frame of it is buffered or its output is suppressed.
  pub next_opus_frame-Sent :
      (s : AudioSendState F E)
      → Sent s.encoder s.pcm_buffer (has_music s) (next_opus_frame fl encode s)
  unfolding next_opus_frame
  next_opus_frame-Sent s =
      let music = has_music s in
      let s' = (prebuffer_gate music s).1 in
      gated-Sent s.encoder s.pcm_buffer music s' (gate_encoder music s) (prebuffer_gate-pcm music s)
        (prebuffer_gate music s).0
