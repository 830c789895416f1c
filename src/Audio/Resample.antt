-- ===== src/Audio/Resample.antt =====
-- src/audio_pipeline.rs: `resample_mono_i16`, the windowed-sinc resampler.
use clankvox.Base.{
  ℕ, zero, suc, ◌+◌, ◌-◌, min, ◌||◌, List, [], ◌∷◌, ◌==◌, leb, if◌then◌else◌, length, get_or, All,
  Bool-cases, inl, inr,
}
use clankvox.Base.Int.{ℤ, pos, IsI16}
use clankvox.Audio.Floats.{Floats}

abbrev pub sinc_half_len : ℕ
sinc_half_len = 16

module _ {F D : Type 0} (fl : Floats F D) where
  -- sin(πx)/(πx)
  unfoldable pub sinc : D → D
  sinc x =
      if fl.lt64 (fl.abs64 x) (fl.lit64 1 10)
      then fl.lit64 1 0
      else (let px = fl.mul64 fl.pi64 x in fl.div64 (fl.sin64 px) px)

  -- The Blackman window at the distance `n` from the centre.
  unfoldable pub window : D → D
  window n =
      let win_pos =
        fl.mul64 (fl.add64 (fl.div64 n (fl.of_nat sinc_half_len)) (fl.lit64 1 0)) (fl.lit64 5 1) in
      fl.add64
        (fl.sub64 (fl.lit64 42 2)
          (fl.mul64 (fl.lit64 5 1) (fl.cos64 (fl.mul64 (fl.mul64 (fl.lit64 2 0) fl.pi64) win_pos))))
        (fl.mul64 (fl.lit64 8 2) (fl.cos64 (fl.mul64 (fl.mul64 (fl.lit64 4 0) fl.pi64) win_pos)))

  unfoldable pub kernel : D → D → ℕ → D
  unfolding sinc window
  kernel center cutoff j =
      let x = fl.mul64 (fl.mul64 (fl.sub64 (fl.of_nat j) center) cutoff) (fl.lit64 2 0) in
      fl.mul64 (sinc x) (window (fl.sub64 (fl.of_nat j) center))

  -- The loop over the taps: `count` of them from `j` on, with the two sums.
  unfoldable pub taps : List ℤ → D → D → ℕ → ℕ → D → D → D × D
  unfolding kernel
  taps input center cutoff zero j sum weight_sum = (sum, weight_sum)
  taps input center cutoff (suc count) j sum weight_sum =
      let k = kernel center cutoff j in
      taps input center cutoff count (j + 1)
        (fl.add64 sum (fl.mul64 (fl.of_int (get_or input j (pos 0))) k)) (fl.add64 weight_sum k)

  -- One output sample.
  unfoldable pub resample_at : List ℤ → D → D → ℕ → ℤ
  unfolding taps
  resample_at input ratio cutoff i =
      let center = fl.mul64 (fl.of_nat i) ratio in
      let i_center = fl.floor64 center in
      let start = i_center - sinc_half_len in
      let end = min (i_center + sinc_half_len + 1) (length input) in
      let (sum, weight_sum) =
        taps input center cutoff (end - start) start (fl.lit64 0 0) (fl.lit64 0 0) in
      let sample =
        if fl.lt64 (fl.lit64 1 10) (fl.abs64 weight_sum)
        then fl.div64 sum weight_sum
        else fl.lit64 0 0 in
      fl.round_i16 sample

  -- The loop over the output: `count` samples from `i` on.
  unfoldable pub resample_loop : List ℤ → D → D → ℕ → ℕ → List ℤ
  unfolding resample_at
  resample_loop input ratio cutoff zero i = []
  resample_loop input ratio cutoff (suc count) i =
      resample_at input ratio cutoff i ∷ resample_loop input ratio cutoff count (i + 1)

  unfoldable pub out_len : List ℤ → ℕ → ℕ → ℕ
  out_len input in_rate out_rate =
      fl.floor64
        (fl.div64 (fl.of_nat (length input)) (fl.div64 (fl.of_nat in_rate) (fl.of_nat out_rate)))

  unfoldable pub resample_mono_i16 : List ℤ → ℕ → ℕ → List ℤ
  unfolding out_len resample_loop
  resample_mono_i16 input in_rate out_rate =
      let ratio = fl.div64 (fl.of_nat in_rate) (fl.of_nat out_rate) in
      let cutoff = fl.div64 (fl.lit64 45 2) (fl.max64 ratio (fl.lit64 1 0)) in
      if (in_rate == out_rate) || leb (length input) 1
      then input
      else resample_loop input ratio cutoff (out_len input in_rate out_rate) 0

  module _ (rounds : (x : D) → IsI16 (fl.round_i16 x)) where
    resample_loop-IsI16 :
        (input : List ℤ) (ratio cutoff : D) (count i : ℕ)
        → All IsI16 (resample_loop input ratio cutoff count i)
    unfolding resample_loop
    resample_loop-IsI16 input ratio cutoff zero i = tt
    resample_loop-IsI16 input ratio cutoff (suc count) i =
        (rounds _, resample_loop-IsI16 input ratio cutoff count (i + 1))

    pub resample-IsI16 :
        (input : List ℤ) (in_rate out_rate : ℕ)
        → All IsI16 input
        → All IsI16 (resample_mono_i16 input in_rate out_rate)
    unfolding resample_mono_i16
    resample-IsI16 input in_rate out_rate h =
        elim (Bool-cases ((in_rate == out_rate) || leb (length input) 1)) [
          | inl same ↦ rw same h
          | inr other ↦ rw other (resample_loop-IsI16 input _ _ _ 0)
        ]
