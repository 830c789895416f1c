-- ===== src/Audio/Fifo.antt =====
-- src/audio_pipeline.rs: the queues of speech and music, over any sequence of `push_pcm`,
-- `push_music_pcm` and `next_opus_frame`.
use clankvox.Base.{
  ℕ, ◌+◌, ◌≤◌, ◌≡◌, refl, ap, ◌∙◌, Bool, true, false, Option, none, some, List, [], ◌∷◌, ◌++◌,
  length, drop, if◌then◌else◌, arith, length-append, length-take, length-drop, take_all,
}
use clankvox.Base.Int.{ℤ}
use clankvox.Audio.Floats.{Floats}
use clankvox.Audio.State.{AudioSendState, push_pcm, push_music_pcm}
use clankvox.Audio.Frame.{
  has_music, prebuffer_gate, count_partial, tts_samples_to_take, idle, drain_music, encoded,
  encode_frame, mix_frame, next_opus_frame,
}

-- What happens to the queues.
pub data Op : Type 0 where
  push : List ℤ → Op
  push_music : List ℤ → Op
  tick : Op

-- The speech that a run pushes.
unfoldable pub said : List Op → List ℤ
said [] = []
said (push samples ∷ ops) = samples ++ said ops
said (push_music samples ∷ ops) = said ops
said (tick ∷ ops) = said ops

-- The music that a run pushes.
unfoldable pub played : List Op → List ℤ
played [] = []
played (push samples ∷ ops) = played ops
played (push_music samples ∷ ops) = samples ++ played ops
played (tick ∷ ops) = played ops

module _ {F E : Type 0} where
  -- How many samples of speech the tick mixes into its frame.
  unfoldable pub tts_taken : AudioSendState F E → ℕ
  tts_taken s =
      let (held, s') = prebuffer_gate (has_music s) s in
      if held then 0 else tts_samples_to_take (has_music s) (count_partial s')

  pub prebuffer_gate-pcm :
      (music : Bool) (s : AudioSendState F E) → (prebuffer_gate music s).1.pcm_buffer ≡ s.pcm_buffer
  unfolding prebuffer_gate
  prebuffer_gate-pcm music s = ground arith

  pub idle-pcm : (s : AudioSendState F E) → (idle s).1.pcm_buffer ≡ s.pcm_buffer
  unfolding idle
  idle-pcm s = ground arith

  count_partial-pcm : (s : AudioSendState F E) → (count_partial s).pcm_buffer ≡ s.pcm_buffer
  unfolding count_partial
  count_partial-pcm s = refl

module _ {F D E : Type 0} (fl : Floats F D) (encode : E → List ℤ → Option (List ℕ) × E) where
  drain_music-pcm :
      (music : Bool) (s : AudioSendState F E)
      → (drain_music fl encode music s).1.pcm_buffer ≡ s.pcm_buffer
  unfolding drain_music
  drain_music-pcm true s = refl
  drain_music-pcm false s = refl

  encoded-pcm :
      (r : Option (List ℕ) × E) (s : AudioSendState F E)
      → (encoded fl encode r s).1.pcm_buffer ≡ s.pcm_buffer
  unfolding encoded
  encoded-pcm (none, e) s = refl
  encoded-pcm (some opus, e) s = refl

  pub encode_frame-pcm :
      (music : Bool) (n : ℕ) (s : AudioSendState F E)
      → (encode_frame fl encode music n s).1.pcm_buffer ≡ drop n s.pcm_buffer
  unfolding encode_frame
  encode_frame-pcm music n s =
      encoded-pcm _ _ ∙ ap (λ (l : List ℤ). drop n l) (drain_music-pcm music s)

  mix_frame-pcm :
      (music : Bool) (s : AudioSendState F E)
      → (mix_frame fl encode music s).1.pcm_buffer
        ≡ drop (tts_samples_to_take music (count_partial s)) s.pcm_buffer
  unfolding mix_frame
  mix_frame-pcm music s =
      let s' = count_partial s in
      let n = tts_samples_to_take music s' in
      ground (arith, encode_frame-pcm music n s', count_partial-pcm s, idle-pcm s')

  pub next_opus_frame-pcm :
      (s : AudioSendState F E)
      → (next_opus_frame fl encode s).1.pcm_buffer ≡ drop (tts_taken s) s.pcm_buffer
  unfolding next_opus_frame tts_taken
  next_opus_frame-pcm s =
      let s' = (prebuffer_gate (has_music s) s).1 in
      ground (arith, mix_frame-pcm (has_music s) s', prebuffer_gate-pcm (has_music s) s)

  unfoldable pub apply : AudioSendState F E → Op → AudioSendState F E
  apply s (push samples) = push_pcm s samples
  apply s (push_music samples) = push_music_pcm s samples
  apply s tick = (next_opus_frame fl encode s).1

  unfoldable pub run : AudioSendState F E → List Op → AudioSendState F E
  run s [] = s
  run s (op ∷ ops) = run (apply s op) ops

  pub apply-push-pcm :
      (s : AudioSendState F E) (samples : List ℤ)
      → length s.pcm_buffer + length samples ≤ 720000
      → (apply s (push samples)).pcm_buffer ≡ s.pcm_buffer ++ samples
  unfolding apply push_pcm
  apply-push-pcm s samples h =
      take_all 720000 (s.pcm_buffer ++ samples) (omega (arith, length-append s.pcm_buffer samples))

  apply-length :
      (s : AudioSendState F E) (op : Op)
      → length s.pcm_buffer ≤ 720000
      → length (apply s op).pcm_buffer ≤ 720000
  unfolding apply push_pcm push_music_pcm
  apply-length s (push samples) h = omega (arith, length-take 720000 (s.pcm_buffer ++ samples))
  apply-length s (push_music samples) h = h
  apply-length s tick h = omega (
    arith,
    ap (λ (l : List ℤ). length l) (next_opus_frame-pcm s),
    length-drop (tts_taken s) s.pcm_buffer,
  )

  -- Whatever is pushed, the buffer never holds more than its 720,000 samples.
  pub run-length :
      (s : AudioSendState F E) (ops : List Op)
      → length s.pcm_buffer ≤ 720000
      → length (run s ops).pcm_buffer ≤ 720000
  unfolding run
  run-length s [] h = h
  run-length s (op ∷ ops) h = run-length (apply s op) ops (apply-length s op h)
