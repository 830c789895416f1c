-- ===== src/Audio/Heard.antt =====
-- src/audio_pipeline.rs: the frames that a run of the mixer gives to the encoder.
use clankvox.Base.{
  ℕ, ◌+◌, ◌≤◌, ◌≡◌, refl, sym, ap, subst, Option, List, [], ◌∷◌, ◌++◌, length, arith, append-nil,
  length-append, All,
}
use clankvox.Base.Int.{ℤ, IsI16}
use clankvox.Audio.Floats.{Floats, GainEnvelope, apply_samples}
use clankvox.Audio.State.{push_pcm, push_music_pcm}
use clankvox.Audio.Frame.{next_opus_frame}
use clankvox.Audio.Mix.{length-mixed, mixed-IsI16}
use clankvox.Audio.Fifo.{Op, push, push_music, tick, apply, run, said, played, apply-push-pcm}
use clankvox.Audio.Parts.{
  speech_of, recording, Recorded, Mixed, Same, Same-Mixed, Mixed-trans, frames, gain_after,
  All-append, Part,
}
use clankvox.Audio.Ticks.{next_opus_frame-Mixed}

-- What the encoder takes: 960 samples in the range of an i16.
abbrev pub IsFrame : List ℤ → Type 0
IsFrame pcm = (length pcm ≡ 960) × All IsI16 pcm

module _ {F D E : Type 0} (fl : Floats F D) (encode : E → List ℤ → Option (List ℕ) × E) where
  push-Mixed :
      (s : Recorded F E) (samples : List ℤ)
      → (apply fl (recording encode) s (push samples)).pcm_buffer ≡ s.pcm_buffer ++ samples
      → Mixed fl s (apply fl (recording encode) s (push samples)) samples []
  unfolding apply push_pcm frames gain_after
  push-Mixed s samples pushed = record {
    parts = [];
    heard = sym (append-nil s.encoder.1);
    gain = refl;
    in_order = pushed;
    music_in_order = sym (append-nil s.music_buffer);
    fits = tt;
  }

  push_music-Mixed :
      (s : Recorded F E) (samples : List ℤ)
      → Mixed fl s (apply fl (recording encode) s (push_music samples)) [] samples
  unfolding apply push_music_pcm frames gain_after
  push_music-Mixed s samples = record {
    parts = [];
    heard = sym (append-nil s.encoder.1);
    gain = refl;
    in_order = sym (append-nil s.pcm_buffer);
    music_in_order = refl;
    fits = tt;
  }

  -- In any sequence of pushes of speech and music and of ticks that pushes no more speech than the
  -- buffer's 720,000 samples on top of what it holds, the frames that the encoder is given are the
  -- clamped sums of some parts of music, with the gain envelope applied from each to the next, and of
  -- speech, each part no longer than a frame. The parts of speech, followed by what is still
  -- buffered, are what was buffered at first, followed by what was pushed, and so are the parts of
  -- music: what is taken from a buffer is mixed into a frame, none lost, repeated or reordered.
  pub run_in_order :
      (s : Recorded F E) (ops : List Op)
      → length s.pcm_buffer + length (said ops) ≤ 720000
      → Mixed fl s (run fl (recording encode) s ops) (said ops) (played ops)
  unfolding run said played apply
  run_in_order s [] h = Same-Mixed fl s s (unfold Same in (refl, refl, refl, refl))
  run_in_order s (push samples ∷ ops) h =
      let e1 = length-append samples (said ops) in
      let pushed = apply-push-pcm fl (recording encode) s samples (omega (arith, e1)) in
      let e2 = ap (λ (l : List ℤ). length l) pushed in
      let e3 = length-append s.pcm_buffer samples in
      Mixed-trans fl samples [] (said ops) (played ops) (push-Mixed s samples pushed) (
        run_in_order (apply fl (recording encode) s (push samples)) ops (omega (arith, e1, e2, e3)))
  run_in_order s (push_music samples ∷ ops) h =
      Mixed-trans fl [] samples (said ops) (played ops) (push_music-Mixed s samples) (
        run_in_order (apply fl (recording encode) s (push_music samples)) ops
          (unfold push_music_pcm in h))
  run_in_order s (tick ∷ ops) h =
      let ticked = next_opus_frame-Mixed fl encode s in
      let e1 = ap (λ (l : List ℤ). length l) ticked.in_order in
      let e2 =
        length-append (speech_of ticked.parts) (apply fl (recording encode) s tick).pcm_buffer in
      let e3 = length-append s.pcm_buffer [] in
      Mixed-trans fl [] [] (said ops) (played ops) ticked
        (run_in_order (apply fl (recording encode) s tick) ops (omega (arith, e1, e2, e3)))

  frames-IsFrame : (gain : GainEnvelope F) (parts : List Part) → All IsFrame (frames fl gain parts)
  unfolding frames
  frames-IsFrame gain [] = tt
  frames-IsFrame gain ((music, speech) ∷ parts) =
      let (louder, gain') = apply_samples fl gain music in
      ((length-mixed 960 louder speech, mixed-IsI16 960 louder speech), frames-IsFrame gain' parts)

  -- Over any sequence of pushes and ticks, however much is pushed, every frame that the encoder is
  -- given has 960 samples, each in the range of an i16, when this holds of the frames before.
  pub run-IsFrame :
      (s : Recorded F E) (ops : List Op)
      → All IsFrame s.encoder.1
      → All IsFrame (run fl (recording encode) s ops).encoder.1
  unfolding run apply push_pcm push_music_pcm
  run-IsFrame s [] h = h
  run-IsFrame s (push samples ∷ ops) h = run-IsFrame (push_pcm s samples) ops h
  run-IsFrame s (push_music samples ∷ ops) h = run-IsFrame (push_music_pcm s samples) ops h
  run-IsFrame s (tick ∷ ops) h =
      let ticked = next_opus_frame-Mixed fl encode s in
      run-IsFrame (next_opus_frame fl (recording encode) s).1 ops (
        subst (λ (l : List (List ℤ)). All IsFrame l) (sym ticked.heard)
          (All-append IsFrame s.encoder.1 (frames fl s.music_gain ticked.parts) h
            (frames-IsFrame s.music_gain ticked.parts)))
