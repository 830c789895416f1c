-- ===== src/Audio/Convert.antt =====
-- src/audio_pipeline.rs: `convert_llm_to_48k_mono` and `convert_decoded_to_llm`.
use clankvox.Base.{
  ℕ, ◌+◌, ◌*◌, ◌/◌, ◌%◌, ◌≤◌, ◌<◌, ◌≡◌, refl, sym, ap, ◌∙◌, List, [], ◌∷◌, ◌++◌, ltb, if◌then◌else◌,
  length, is_empty, All, arith, subst, Bool-cases, inl, inr, append_assoc, append-nil, ap₂,
}
use clankvox.Base.Int.{
  ℤ, pos, negsuc, ◌+ℤ◌, half, clamp_i16, IsI16, clamp_i16-IsI16, of_bits, to_bits, unsigned_abs,
}
use clankvox.Audio.Floats.{Floats}
use clankvox.Audio.Resample.{resample_mono_i16, resample-IsI16}

-- `i16::from_le_bytes` of each pair of bytes; an odd last byte is left over.
unfoldable pub samples_of : List ℕ → List ℤ
samples_of [] = []
samples_of (a ∷ []) = []
samples_of (a ∷ b ∷ pcm) = of_bits (b * 256 + a) ∷ samples_of pcm

-- `to_le_bytes`
unfoldable pub le_bytes : ℤ → List ℕ
le_bytes s = (to_bits s % 256) ∷ (to_bits s / 256 % 256) ∷ []

-- Stereo to mono: `(l + r + 1) >> 1`; an odd last sample is left over.
unfoldable pub downmix : List ℤ → List ℤ
downmix [] = []
downmix (l ∷ []) = []
downmix (l ∷ r ∷ stereo) = clamp_i16 (half (l +ℤ r +ℤ pos 1)) ∷ downmix stereo

-- The loop over the resampled samples: the bytes so far, the peak and the active samples.
unfoldable pub measure : List ℤ → List ℕ → ℕ → ℕ → List ℕ × ℕ × ℕ
unfolding le_bytes
measure [] buf max_amp active_samples = (buf, max_amp, active_samples)
measure (s ∷ samples) buf max_amp active_samples =
    let abs_val = unsigned_abs s in
    measure samples (buf ++ le_bytes s) (if ltb max_amp abs_val then abs_val else max_amp)
      (if ltb 500 abs_val then active_samples + 1 else active_samples)

module _ {F D : Type 0} (fl : Floats F D) where
  unfoldable pub convert_llm_to_48k_mono : List ℕ → ℕ → List ℤ
  unfolding samples_of
  convert_llm_to_48k_mono pcm in_rate =
      let mono = samples_of pcm in
      if is_empty mono then [] else resample_mono_i16 fl mono in_rate 48000

  unfoldable pub convert_decoded_to_llm : List ℤ → ℕ → List ℕ × ℕ × ℕ × ℕ
  unfolding downmix measure
  convert_decoded_to_llm stereo_i16 out_rate =
      let mono = downmix stereo_i16 in
      let resampled = resample_mono_i16 fl mono 48000 out_rate in
      let (buf, max_amp, active_samples) = measure resampled [] 0 0 in
      if is_empty mono then ([], 0, 0, 0) else (buf, max_amp, active_samples, length resampled)

of_bits-to_bits : (x : ℤ) → IsI16 x → of_bits (to_bits x) ≡ x
unfolding IsI16
of_bits-to_bits (pos n) h = ground arith
of_bits-to_bits (negsuc n) h = ground arith

to_bits_lt : (x : ℤ) → IsI16 x → to_bits x < 65536
unfolding IsI16
to_bits_lt (pos n) h = omega arith
to_bits_lt (negsuc n) h = omega arith

-- The bytes of a list of samples.
abbrev bytes_of : List ℤ → List ℕ
bytes_of [] = []
bytes_of (s ∷ samples) = le_bytes s ++ bytes_of samples

measure-bytes :
    (samples : List ℤ) (buf : List ℕ) (m a : ℕ)
    → (measure samples buf m a).0 ≡ buf ++ bytes_of samples
unfolding measure
measure-bytes [] buf m a = sym (append-nil buf)
measure-bytes (s ∷ samples) buf m a =
    measure-bytes samples (buf ++ le_bytes s) (if ltb m (unsigned_abs s) then unsigned_abs s else m)
      (if ltb 500 (unsigned_abs s) then a + 1 else a)
    ∙ append_assoc buf (le_bytes s) (bytes_of samples)

samples_of-bytes_of :
    (samples : List ℤ) → All IsI16 samples → samples_of (bytes_of samples) ≡ samples
unfolding samples_of le_bytes
samples_of-bytes_of [] h = refl
samples_of-bytes_of (s ∷ samples) (h, hs) =
    let lt = to_bits_lt s h in
    let e : to_bits s / 256 % 256 * 256 + to_bits s % 256 ≡ to_bits s = omega arith in
    ap₂ (λ (x : ℤ) (xs : List ℤ). x ∷ xs) (ap of_bits e ∙ of_bits-to_bits s h)
      (samples_of-bytes_of samples hs)

downmix-IsI16 : (stereo : List ℤ) → All IsI16 (downmix stereo)
unfolding downmix
downmix-IsI16 [] = tt
downmix-IsI16 (l ∷ []) = tt
downmix-IsI16 (l ∷ r ∷ stereo) = (clamp_i16-IsI16 (half (l +ℤ r +ℤ pos 1)), downmix-IsI16 stereo)

unsigned_abs-le : (x : ℤ) → IsI16 x → unsigned_abs x ≤ 32768
unfolding IsI16
unsigned_abs-le (pos n) h = omega arith
unsigned_abs-le (negsuc n) h = omega arith

measure_bounds :
    (samples : List ℤ) (buf : List ℕ) (m a : ℕ)
    → All IsI16 samples
    → m ≤ 32768
    → (m ≤ (measure samples buf m a).1)
      × ((measure samples buf m a).1 ≤ 32768)
      × All (λ s. unsigned_abs s ≤ (measure samples buf m a).1) samples
      × ((measure samples buf m a).2 ≤ a + length samples)
unfolding measure
measure_bounds [] buf m a h k = (omega arith, k, tt, omega arith)
measure_bounds (s ∷ samples) buf m a (h, hs) k =
    let m' = if ltb m (unsigned_abs s) then unsigned_abs s else m in
    let a' = if ltb 500 (unsigned_abs s) then a + 1 else a in
    let (lo, hi, all, count) =
      measure_bounds samples (buf ++ le_bytes s) m' a' hs (ground (arith, unsigned_abs-le s h)) in
    (ground arith, hi, (ground arith, all), ground arith)

measured :
    (samples : List ℤ)
    → All IsI16 samples
    → ((measure samples [] 0 0).1 ≤ 32768)
      × ((measure samples [] 0 0).2 ≤ length samples)
      × All
          (λ s. unsigned_abs s ≤ (measure samples [] 0 0).1)
          (samples_of (measure samples [] 0 0).0)
measured samples h =
    let (lo, hi, all, count) = measure_bounds samples [] 0 0 h (omega arith) in
    (
      hi,
      omega arith,
      subst (λ (xs : List ℤ). All (λ s. unsigned_abs s ≤ (measure samples [] 0 0).1) xs)
          (sym (ap samples_of (measure-bytes samples [] 0 0) ∙ samples_of-bytes_of samples h)) all,
    )

nil_or_self : (xs : List ℤ) → (if is_empty xs then [] else xs) ≡ xs
nil_or_self [] = refl
nil_or_self (x ∷ xs) = refl

module _ {F D : Type 0} (fl : Floats F D) where
  same_rate : (xs : List ℤ) (r : ℕ) → resample_mono_i16 fl xs r r ≡ xs
  unfolding resample_mono_i16
  same_rate xs r = ground arith

  read_back :
      (mono : List ℤ)
      → All IsI16 mono
      → samples_of (if is_empty mono then [] else (measure mono [] 0 0).0) ≡ mono
  unfolding samples_of
  read_back [] h = refl
  read_back (x ∷ mono) h =
      ap samples_of (measure-bytes (x ∷ mono) [] 0 0) ∙ samples_of-bytes_of (x ∷ mono) h

  decoded-bytes :
      (stereo : List ℤ)
      → (convert_decoded_to_llm fl stereo 48000).0
        ≡ (if is_empty (downmix stereo) then [] else (measure (downmix stereo) [] 0 0).0)
  unfolding convert_decoded_to_llm
  decoded-bytes stereo = rw (same_rate (downmix stereo) 48000) (ground arith)

  llm_at_48k : (pcm : List ℕ) → convert_llm_to_48k_mono fl pcm 48000 ≡ samples_of pcm
  unfolding convert_llm_to_48k_mono
  llm_at_48k pcm = rw (same_rate (samples_of pcm) 48000) (nil_or_self (samples_of pcm))

  -- At 48 kHz the two conversions are inverse up to the downmix: reading back the bytes that
  -- `convert_decoded_to_llm` makes of decoded stereo samples gives the mono downmix of the samples.
  pub convert_llm-convert_decoded :
      (stereo : List ℤ)
      → convert_llm_to_48k_mono fl (convert_decoded_to_llm fl stereo 48000).0 48000 ≡ downmix stereo
  convert_llm-convert_decoded stereo =
      llm_at_48k (convert_decoded_to_llm fl stereo 48000).0
      ∙ ap samples_of (decoded-bytes stereo)
      ∙ read_back (downmix stereo) (downmix-IsI16 stereo)

  -- What `convert_decoded_to_llm` reports of the samples that it sends, at any rate: a peak that no
  -- sample exceeds and that is at most 32768, and no more active samples than samples.
  pub convert_decoded_to_llm_bounds :
      (stereo : List ℤ) (out_rate : ℕ)
      → ((x : D) → IsI16 (fl.round_i16 x))
      → ((convert_decoded_to_llm fl stereo out_rate).1 ≤ 32768)
        × ((convert_decoded_to_llm fl stereo out_rate).2
            ≤ (convert_decoded_to_llm fl stereo out_rate).3)
        × All
            (λ s. unsigned_abs s ≤ (convert_decoded_to_llm fl stereo out_rate).1)
            (samples_of (convert_decoded_to_llm fl stereo out_rate).0)
  unfolding convert_decoded_to_llm samples_of
  convert_decoded_to_llm_bounds stereo out_rate h =
      let resampled = resample_mono_i16 fl (downmix stereo) 48000 out_rate in
      let facts =
        measured resampled
          (resample-IsI16 fl h (downmix stereo) 48000 out_rate (downmix-IsI16 stereo)) in
      elim (Bool-cases (is_empty (downmix stereo))) [
        | inl nil ↦ rw nil (omega arith, omega arith, tt)
        | inr some_left ↦ rw some_left facts
      ]
