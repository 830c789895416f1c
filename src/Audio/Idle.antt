-- ===== src/Audio/Idle.antt =====
-- src/audio_pipeline.rs: the end of playback, after which `next_opus_frame` sends nothing.
use clankvox.Base.{
  ℕ, zero, suc, ◌+◌, ◌-◌, ◌/◌, ◌≤◌, ◌≡◌, refl, inl, inr, Bool-cases, sym, ap, subst, ◌∙◌, Bool,
  false, Option, none, some, List, [], length, if◌then◌else◌, arith, take, drop,
}
use native.Mathlib.Nat.{zero-add, suc-add}
use clankvox.Base.Int.{ℤ}
use clankvox.Audio.Floats.{Floats}
use clankvox.Audio.State.{AudioSendState}
use clankvox.Audio.Frame.{
  has_music, prebuffer_gate, count_partial, tts_samples_to_take, idle, drain_music, encoded,
  encode_frame, mix, mix_frame, next_opus_frame,
}
use clankvox.Audio.Drain.{ticks, ticks_drain}

module _ {F E : Type 0} where
  -- Nothing buffered, no music that may be played, the trailing silence sent and the end of speaking
  -- noted.
  pub IsQuiet : AudioSendState F E → Type 0
  IsQuiet s =
      (s.pcm_buffer ≡ [])
      × (has_music s ≡ false)
      × (5 ≤ s.trailing_silence_frames)
      × (s.speaking ≡ false)

  -- What is left to do in an idle state: silence to send, and the end of speaking to note.
  left : AudioSendState F E → ℕ
  left s = (5 - s.trailing_silence_frames) + (if s.speaking then 1 else 0)

  idle-left :
      (s : AudioSendState F E)
      → (left (idle (count_partial s)).1 ≡ left s - 1)
        × (has_music (idle (count_partial s)).1 ≡ has_music s)
        × ((idle (count_partial s)).1.pcm_buffer ≡ s.pcm_buffer)
  unfolding left idle count_partial has_music
  idle-left s = ground arith

  left_none :
      (s : AudioSendState F E) → left s ≡ 0 → (5 ≤ s.trailing_silence_frames) × (s.speaking ≡ false)
  unfolding left
  left_none s h = ground arith

  left-le : (s : AudioSendState F E) → left s ≤ 6
  unfolding left
  left-le s = ground arith

  idle-none : (s : AudioSendState F E) → left s ≡ 0 → (idle (count_partial s)).0 ≡ none
  unfolding left idle count_partial
  idle-none s h = ground arith

module _ {F D E : Type 0} (fl : Floats F D) (encode : E → List ℤ → Option (List ℕ) × E) where
  encoded-has_music :
      (r : Option (List ℕ) × E) (s : AudioSendState F E)
      → has_music (encoded fl encode r s).1 ≡ has_music s
  unfolding encoded has_music
  encoded-has_music (none, e) s = refl
  encoded-has_music (some opus, e) s = refl

  encode_frame-has_music :
      (n : ℕ) (s : AudioSendState F E)
      → has_music (encode_frame fl encode false n s).1 ≡ has_music s
  unfolding encode_frame drain_music
  encode_frame-has_music n s =
      encoded-has_music (encode s.encoder (mix [] (take n s.pcm_buffer)))
        (record s { pcm_buffer = drop n s.pcm_buffer })
      ∙ unfold has_music in refl

  idle-has_music : (s : AudioSendState F E) → has_music (idle s).1 ≡ has_music s
  unfolding idle has_music
  idle-has_music s = ground arith

  count_partial-has_music : (s : AudioSendState F E) → has_music (count_partial s) ≡ has_music s
  unfolding count_partial has_music
  count_partial-has_music s = refl

  mix_frame-has_music :
      (s : AudioSendState F E) → has_music (mix_frame fl encode false s).1 ≡ has_music s
  unfolding mix_frame
  mix_frame-has_music s =
      let s' = count_partial s in
      ground (
        arith,
        encode_frame-has_music (tts_samples_to_take false s') s',
        idle-has_music s',
        count_partial-has_music s,
      )

  prebuffer_gate-has_music :
      (music : Bool) (s : AudioSendState F E) → has_music (prebuffer_gate music s).1 ≡ has_music s
  unfolding prebuffer_gate has_music
  prebuffer_gate-has_music music s = ground arith

  next_opus_frame-has_music :
      (s : AudioSendState F E)
      → has_music s ≡ false
      → has_music (next_opus_frame fl encode s).1 ≡ false
  unfolding next_opus_frame
  next_opus_frame-has_music s h =
      let s' = (prebuffer_gate false s).1 in
      let same : has_music s' ≡ false = prebuffer_gate-has_music false s ∙ h in
      rw h (elim (Bool-cases (prebuffer_gate false s).0) [
        | inl held ↦ rw held same
        | inr passed ↦ rw passed (mix_frame-has_music s' ∙ same)
      ])

  ticks-has_music :
      (k : ℕ) (s : AudioSendState F E)
      → has_music s ≡ false
      → has_music (ticks fl encode k s) ≡ false
  unfolding ticks
  ticks-has_music zero s h = h
  ticks-has_music (suc k) s h =
      ticks-has_music k (next_opus_frame fl encode s).1 (next_opus_frame-has_music s h)

  ticks-add :
      (j k : ℕ) (s : AudioSendState F E)
      → ticks fl encode (j + k) s ≡ ticks fl encode k (ticks fl encode j s)
  unfolding ticks
  ticks-add zero k s = rw zero-add refl
  ticks-add (suc j) k s = rw suc-add (ticks-add j k (next_opus_frame fl encode s).1)

  -- A tick with an empty buffer of speech and no music.
  pub next_opus_frame-idle :
      (s : AudioSendState F E)
      → length s.pcm_buffer ≡ 0
      → has_music s ≡ false
      → next_opus_frame fl encode s ≡ idle (count_partial s)
  unfolding next_opus_frame mix_frame prebuffer_gate tts_samples_to_take count_partial
  next_opus_frame-idle s h m = ground arith

  ticks-left :
      (k : ℕ) (s : AudioSendState F E)
      → length s.pcm_buffer ≡ 0
      → has_music s ≡ false
      → left s ≤ k
      → (left (ticks fl encode k s) ≡ 0) × (has_music (ticks fl encode k s) ≡ false)
  unfolding ticks
  ticks-left zero s h m l = (omega arith, m)
  ticks-left (suc k) s h m l =
      let (le, music, pcm) = idle-left s in
      rw (next_opus_frame-idle s h m) (
        ticks-left k (idle (count_partial s)).1 (ap (λ (b : List ℤ). length b) pcm ∙ h) (music ∙ m)
          (omega arith))

  -- Playback ends: when nothing more is pushed and no music may be played, then after the buffer's
  -- length divided by the 960 samples of a frame, plus sixteen ticks, the buffer is empty, the
  -- five frames of trailing silence are counted as sent, the connection is marked as not speaking,
  -- and each further tick sends nothing.
  pub ticks-IsQuiet :
      (s : AudioSendState F E) (k : ℕ)
      → has_music s ≡ false
      → length s.pcm_buffer / 960 + 16 ≤ k
      → IsQuiet (ticks fl encode k s) × ((next_opus_frame fl encode (ticks fl encode k s)).0 ≡ none)
  unfolding IsQuiet
  ticks-IsQuiet s k m h =
      let j = length s.pcm_buffer / 960 + 10 in
      let drained = ticks fl encode j s in
      let nil = ticks_drain fl encode s j (omega arith) in
      let (done, music) =
        ticks-left (k - j) drained (ap (λ (b : List ℤ). length b) nil) (ticks-has_music j s m)
          (omega (arith, left-le drained)) in
      let whole : ticks fl encode (k - j) drained ≡ ticks fl encode k s =
        sym (ticks-add j (k - j) s) ∙ ap (λ (i : ℕ). ticks fl encode i s) (omega arith) in
      let empty = ticks_drain fl encode s k (omega arith) in
      let done' = subst (λ t. left t ≡ 0) whole done in
      let music' = subst (λ t. has_music t ≡ false) whole music in
      let (silent, ended) = left_none (ticks fl encode k s) done' in
      (
        (empty, music', silent, ended),
        rw (next_opus_frame-idle (ticks fl encode k s) (ap (λ (b : List ℤ). length b) empty) music')
            (idle-none (ticks fl encode k s) done'),
      )
