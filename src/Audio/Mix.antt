-- ===== src/Audio/Mix.antt =====
-- src/audio_pipeline.rs: `mix` against an independent account of the mixed samples.
use clankvox.Base.{ℕ, zero, suc, ◌≡◌, refl, sym, List, [], ◌∷◌, length, All, arith, ap, ◌∙◌}
use clankvox.Base.Int.{ℤ, pos, negsuc, ◌+ℤ◌, clamp_i16, IsI16, clamp_i16-IsI16}
use clankvox.Audio.Frame.{silence, add_into, clamp_all, mix}

zero-+ℤ : (x : ℤ) → pos 0 +ℤ x ≡ x
unfolding ◌+ℤ◌
zero-+ℤ (pos n) = ground arith
zero-+ℤ (negsuc n) = ground arith

-- The first `n` sums of the two lists of samples, each clamped to the range of an i16; where one list
-- is at its end the other one's sample is left, and where both are, silence.
unfoldable pub mixed : ℕ → List ℤ → List ℤ → List ℤ
mixed zero music speech = []
mixed (suc n) [] [] = pos 0 ∷ mixed n [] []
mixed (suc n) (m ∷ music) [] = clamp_i16 m ∷ mixed n music []
mixed (suc n) [] (t ∷ speech) = clamp_i16 t ∷ mixed n [] speech
mixed (suc n) (m ∷ music) (t ∷ speech) = clamp_i16 (m +ℤ t) ∷ mixed n music speech

add_into_nil : (l : List ℤ) → add_into l [] ≡ l
unfolding add_into
add_into_nil [] = refl
add_into_nil (m ∷ l) = refl

silence-mixed :
    (n : ℕ) (music speech : List ℤ)
    → clamp_all (add_into (add_into (silence n) music) speech) ≡ mixed n music speech
unfolding clamp_all add_into silence mixed clamp_i16
silence-mixed zero music speech = refl
silence-mixed (suc n) [] [] =
    ap (λ (l : List ℤ). pos 0 ∷ l)
      (ap clamp_all (sym (add_into_nil (silence n)) ∙ sym (add_into_nil (add_into (silence n) [])))
        ∙ silence-mixed n [] [])
silence-mixed (suc n) (m ∷ music) [] = rw (zero-+ℤ m) (
    ap (λ (l : List ℤ). clamp_i16 m ∷ l)
      (ap clamp_all (sym (add_into_nil (add_into (silence n) music))) ∙ silence-mixed n music []))
silence-mixed (suc n) [] (t ∷ speech) = rw (zero-+ℤ t) (
    ap (λ (l : List ℤ). clamp_i16 t ∷ l)
      (ap (λ (l : List ℤ). clamp_all (add_into l speech)) (sym (add_into_nil (silence n)))
        ∙ silence-mixed n [] speech))
silence-mixed (suc n) (m ∷ music) (t ∷ speech) =
    rw (zero-+ℤ m) (ap (λ (l : List ℤ). clamp_i16 (m +ℤ t) ∷ l) (silence-mixed n music speech))

pub mix-mixed : (music speech : List ℤ) → mix music speech ≡ mixed 960 music speech
unfolding mix
mix-mixed music speech = silence-mixed 960 music speech

pub length-mixed : (n : ℕ) (music speech : List ℤ) → length (mixed n music speech) ≡ n
unfolding mixed
length-mixed zero music speech = refl
length-mixed (suc n) [] [] = ap suc (length-mixed n [] [])
length-mixed (suc n) (m ∷ music) [] = ap suc (length-mixed n music [])
length-mixed (suc n) [] (t ∷ speech) = ap suc (length-mixed n [] speech)
length-mixed (suc n) (m ∷ music) (t ∷ speech) = ap suc (length-mixed n music speech)

pub mixed-IsI16 : (n : ℕ) (music speech : List ℤ) → All IsI16 (mixed n music speech)
unfolding mixed clamp_i16
mixed-IsI16 zero music speech = tt
mixed-IsI16 (suc n) [] [] = (clamp_i16-IsI16 (pos 0), mixed-IsI16 n [] [])
mixed-IsI16 (suc n) (m ∷ music) [] = (clamp_i16-IsI16 m, mixed-IsI16 n music [])
mixed-IsI16 (suc n) [] (t ∷ speech) = (clamp_i16-IsI16 t, mixed-IsI16 n [] speech)
mixed-IsI16 (suc n) (m ∷ music) (t ∷ speech) =
    (clamp_i16-IsI16 (m +ℤ t), mixed-IsI16 n music speech)
