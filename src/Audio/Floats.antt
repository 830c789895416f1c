-- ===== src/Audio/Floats.antt =====
-- src/audio_pipeline.rs: `GainEnvelope`. The machine's floating-point numbers are a parameter: two
-- types with the operations that the code uses.
use clankvox.Base.{ℕ, Bool, ◌&&◌, ◌||◌, List, [], ◌∷◌, if◌then◌else◌}
use clankvox.Base.Int.{ℤ}

-- `F` is f32 and `D` is f64. `lit m k` is the literal m · 10^-k.
pub record Floats (F D : Type 0) : Type 0 where
  pub lit32 : ℕ → ℕ → F
  pub of_i16 : ℤ → F
  pub add32 : F → F → F
  pub sub32 : F → F → F
  pub mul32 : F → F → F
  pub abs32 : F → F
  pub lt32 : F → F → Bool
  -- `clamp(0.0, 1.0)`
  pub clamp_unit : F → F
  -- `clamp(-32768.0, 32767.0) as i16`
  pub clamp32_i16 : F → ℤ
  pub widen : F → D
  pub narrow : D → F
  pub lit64 : ℕ → ℕ → D
  -- `as f64` of an unsigned and of a signed integer
  pub of_nat : ℕ → D
  pub of_int : ℤ → D
  pub add64 : D → D → D
  pub sub64 : D → D → D
  pub mul64 : D → D → D
  pub div64 : D → D → D
  pub max64 : D → D → D
  pub abs64 : D → D
  pub lt64 : D → D → Bool
  pub sin64 : D → D
  pub cos64 : D → D
  pub pi64 : D
  -- `floor()` of a number that is not negative, as an integer
  pub floor64 : D → ℕ
  -- `round().clamp(-32768.0, 32767.0) as i16`
  pub round_i16 : D → ℤ

pub record GainEnvelope (F : Type 0) : Type 0 where
  pub current : F
  pub target : F
  pub step_per_sample : F

module _ {F D : Type 0} (fl : Floats F D) where
  unfoldable pub new_gain : F → F → ℕ → GainEnvelope F
  new_gain current target fade_ms =
      let total_samples =
        fl.div64 (fl.mul64 (fl.lit64 48000 0) (fl.of_nat fade_ms)) (fl.lit64 1000 0) in
      let step =
        if fl.lt64 (fl.lit64 0 0) total_samples
        then fl.div64 (fl.sub64 (fl.widen target) (fl.widen current)) total_samples
        else fl.lit64 0 0 in
      record { current = current; target = target; step_per_sample = fl.narrow step }

  unfoldable pub advance : GainEnvelope F → GainEnvelope F
  advance g =
      let nil = fl.lit32 0 0 in
      if (fl.lt32 nil g.step_per_sample && fl.lt32 g.current g.target)
        || (fl.lt32 g.step_per_sample nil && fl.lt32 g.target g.current)
      then (let moved = fl.add32 g.current g.step_per_sample in
          if (fl.lt32 nil g.step_per_sample && fl.lt32 g.target moved)
            || (fl.lt32 g.step_per_sample nil && fl.lt32 moved g.target)
          then record g { current = g.target }
          else record g { current = moved })
      else g

  unfoldable pub apply_sample : GainEnvelope F → ℤ → ℤ × GainEnvelope F
  apply_sample g sample = (fl.clamp32_i16 (fl.mul32 (fl.of_i16 sample) g.current), advance g)

  unfoldable pub is_complete : GainEnvelope F → Bool
  is_complete g = fl.lt32 (fl.abs32 (fl.sub32 g.current g.target)) (fl.lit32 1 4)

  -- `apply_sample` along the drained samples.
  unfoldable pub apply_samples : GainEnvelope F → List ℤ → List ℤ × GainEnvelope F
  apply_samples g [] = ([], g)
  apply_samples g (sample ∷ samples) =
      let (out, g') = apply_sample g sample in
      let (outs, g'') = apply_samples g' samples in (out ∷ outs, g'')
