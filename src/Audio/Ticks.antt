-- ===== src/Audio/Ticks.antt =====
-- src/audio_pipeline.rs: one tick of `next_opus_frame`, by what it mixes.
use clankvox.Base.{
  ℕ, ◌≤◌, ◌≡◌, refl, sym, ap, ◌∙◌, Bool, true, false, Option, none, some, List, [], ◌∷◌, ◌++◌, take,
  drop, if◌then◌else◌, arith, append-nil, take-append-drop, length-take, ltb, ◌||◌,
}
use clankvox.Base.Int.{ℤ}
use clankvox.Audio.Floats.{Floats, apply_samples}
use clankvox.Audio.Frame.{
  has_music, prebuffer_gate, count_partial, tts_samples_to_take, idle, drain_music, encoded,
  has_partial_tts, encode_frame, mix, mix_frame, next_opus_frame,
}
use clankvox.Audio.Mix.{mix-mixed}
use clankvox.Audio.Parts.{
  recording, Recorded, Mixed, Same, Same-Mixed, Mixed-trans, frames, gain_after,
}

module _ {F D E : Type 0} (fl : Floats F D) (encode : E → List ℤ → Option (List ℕ) × E) where
  gate-Same :
      (music : Bool) (s : Recorded F E) → Same fl s (count_partial (prebuffer_gate music s).1)
  unfolding Same prebuffer_gate count_partial
  gate-Same music s = ground arith

  held-Same : (music : Bool) (s : Recorded F E) → Same fl s (prebuffer_gate music s).1
  unfolding Same prebuffer_gate
  held-Same music s = ground arith

  idle-Same : (s : Recorded F E) → Same fl s (idle s).1
  unfolding Same idle
  idle-Same s = ground arith

  -- `encoded` keeps what the encoder has become, and the queues.
  Encoded : E × List (List ℤ) → Recorded F E → Recorded F E → Type 0
  Encoded r s t =
      (t.encoder ≡ r)
      × (t.music_gain ≡ s.music_gain)
      × (t.pcm_buffer ≡ s.pcm_buffer)
      × (t.music_buffer ≡ s.music_buffer)

  encoded-Encoded :
      (r : Option (List ℕ) × (E × List (List ℤ))) (s : Recorded F E)
      → Encoded r.1 s (encoded fl (recording encode) r s).1
  unfolding Encoded encoded
  encoded-Encoded (none, e) s = (refl, refl, refl, refl)
  encoded-Encoded (some opus, e) s = (refl, refl, refl, refl)

  encode_frame-Mixed :
      (music : Bool) (n : ℕ) (s : Recorded F E)
      → n ≤ 960
      → Mixed fl s (encode_frame fl (recording encode) music n s).1 [] []
  unfolding encode_frame drain_music Encoded frames gain_after
  encode_frame-Mixed true n s h =
      let raw = take 960 s.music_buffer in
      let speech = take n s.pcm_buffer in
      let (louder, gain') = apply_samples fl s.music_gain raw in
      let (e, g, p, m) =
        encoded-Encoded (recording encode s.encoder (mix louder speech)) (record s {
          music_buffer = drop 960 s.music_buffer;
          music_gain = gain';
          pcm_buffer = drop n s.pcm_buffer;
        }) in
      record {
        parts = (raw, speech) ∷ [];
        heard =
            ap (λ (r : E × List (List ℤ)). r.1) e
            ∙ ap (λ (l : List ℤ). s.encoder.1 ++ (l ∷ [])) (mix-mixed louder speech);
        gain = g;
        in_order =
            ap (λ (l : List ℤ). (speech ++ []) ++ l) p
            ∙ ap (λ (l : List ℤ). l ++ drop n s.pcm_buffer) (append-nil speech)
            ∙ take-append-drop n s.pcm_buffer
            ∙ sym (append-nil s.pcm_buffer);
        music_in_order =
            ap (λ (l : List ℤ). (raw ++ []) ++ l) m
            ∙ ap (λ (l : List ℤ). l ++ drop 960 s.music_buffer) (append-nil raw)
            ∙ take-append-drop 960 s.music_buffer
            ∙ sym (append-nil s.music_buffer);
        fits = (
          (
            omega (arith, length-take 960 s.music_buffer),
            omega (arith, length-take n s.pcm_buffer),
          ),
          tt,
        );
      }
  encode_frame-Mixed false n s h =
      let speech = take n s.pcm_buffer in
      let (e, g, p, m) =
        encoded-Encoded (recording encode s.encoder (mix [] speech))
          (record s { pcm_buffer = drop n s.pcm_buffer }) in
      record {
        parts = ([], speech) ∷ [];
        heard =
            ap (λ (r : E × List (List ℤ)). r.1) e
            ∙ ap (λ (l : List ℤ). s.encoder.1 ++ (l ∷ [])) (mix-mixed [] speech);
        gain = g;
        in_order =
            ap (λ (l : List ℤ). (speech ++ []) ++ l) p
            ∙ ap (λ (l : List ℤ). l ++ drop n s.pcm_buffer) (append-nil speech)
            ∙ take-append-drop n s.pcm_buffer
            ∙ sym (append-nil s.pcm_buffer);
        music_in_order = m ∙ sym (append-nil s.music_buffer);
        fits = ((omega arith, omega (arith, length-take n s.pcm_buffer)), tt);
      }

  tts_samples_to_take_bounds : (music : Bool) (s : Recorded F E) → tts_samples_to_take music s ≤ 960
  unfolding tts_samples_to_take
  tts_samples_to_take_bounds music s = ground arith

  count-Same : (s : Recorded F E) → Same fl s (count_partial s)
  unfolding Same count_partial
  count-Same s = (refl, refl, refl, refl)

  -- One of the three ends of a tick.
  chosen-Mixed :
      (s : Recorded F E) (x y z : Option (List ℕ) × Recorded F E)
      → Mixed fl s x.1 [] []
      → Mixed fl s y.1 [] []
      → Mixed fl s z.1 [] []
      → (b c : Bool) → Mixed fl s (if b then x else if c then y else z).1 [] []
  chosen-Mixed s x y z hx hy hz true c = hx
  chosen-Mixed s x y z hx hy hz false true = hy
  chosen-Mixed s x y z hx hy hz false false = hz

  mix_frame-Mixed :
      (music : Bool) (s : Recorded F E)
      → Mixed fl s (mix_frame fl (recording encode) music s).1 [] []
  unfolding mix_frame
  mix_frame-Mixed music s =
      let s' = count_partial s in
      let n = tts_samples_to_take music s' in
      Mixed-trans fl [] [] [] [] (Same-Mixed fl s s' (count-Same s)) (
        chosen-Mixed s' (encode_frame fl (recording encode) music n s') (none, s') (idle s')
          (encode_frame-Mixed music n s' (tts_samples_to_take_bounds music s'))
          (Same-Mixed fl s' s' (unfold Same in (refl, refl, refl, refl)))
          (Same-Mixed fl s' (idle s').1 (idle-Same s')) (ltb 0 n || music) (has_partial_tts s'))

  gated-Mixed :
      (music : Bool) (s s' : Recorded F E)
      → Same fl s s'
      → (held : Bool)
      → Mixed fl s (if held then (none, s') else mix_frame fl (recording encode) music s').1 [] []
  gated-Mixed music s s' same true = Same-Mixed fl s s' same
  gated-Mixed music s s' same false =
      Mixed-trans fl [] [] [] [] (Same-Mixed fl s s' same) (mix_frame-Mixed music s')

  pub next_opus_frame-Mixed :
      (s : Recorded F E) → Mixed fl s (next_opus_frame fl (recording encode) s).1 [] []
  unfolding next_opus_frame
  next_opus_frame-Mixed s =
      gated-Mixed (has_music s) s (prebuffer_gate (has_music s) s).1 (held-Same (has_music s) s)
        (prebuffer_gate (has_music s) s).0
