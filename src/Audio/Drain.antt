-- ===== src/Audio/Drain.antt =====
-- src/audio_pipeline.rs: the ticks of `next_opus_frame` while nothing is pushed.
use clankvox.Base.{
  ℕ, zero, suc, ◌+◌, ◌-◌, ◌*◌, ◌/◌, ◌≤◌, ◌<◌, ◌≡◌, ◌⊎◌, inl, inr, refl, ap, ◌∙◌, max, Bool, true,
  false, Option, none, some, List, [], ◌∷◌, length, take, drop, if◌then◌else◌, arith, length-drop,
  ltb, leb, Bool-cases,
}
use clankvox.Base.Int.{ℤ}
use clankvox.Audio.Floats.{Floats}
use clankvox.Audio.State.{AudioSendState}
use clankvox.Audio.Frame.{
  has_music, prebuffer_gate, count_partial, tts_samples_to_take, drain_music, encoded, encode_frame,
  mix, mix_frame, next_opus_frame,
}
use clankvox.Audio.Fifo.{tts_taken, next_opus_frame-pcm, encode_frame-pcm, prebuffer_gate-pcm}

Nat-cases : (n : ℕ) → (n ≡ 0) ⊎ (0 < n)
Nat-cases zero = inl refl
Nat-cases (suc n) = inr (omega arith)

pub is_nil : (xs : List ℤ) → length xs ≡ 0 → xs ≡ []
is_nil [] h = refl
is_nil (x ∷ xs) h = absurd (omega arith)

module _ {F E : Type 0} where
  -- The ticks for which the gate may still hold the speech back.
  abbrev gate_rank : AudioSendState F E → ℕ
  gate_rank s =
      if s.tts_prebuffer_satisfied
      then 0
      else if leb 9600 (length s.pcm_buffer)
      then 0
      else if ltb s.tts_prebuffer_last_len (length s.pcm_buffer)
      then 4
      else 3 - s.tts_prebuffer_stall_ticks

  -- The ticks that the last, underfilled frame may still take.
  abbrev tail_rank : AudioSendState F E → ℕ
  tail_rank s = if ltb (length s.pcm_buffer) 960 then max 1 (2 - s.partial_tts_stall_ticks) else 2

  -- A bound on the ticks until the speech is sent.
  rank : AudioSendState F E → ℕ
  rank s = length s.pcm_buffer / 960 + 2 * gate_rank s + tail_rank s

  rank_bound : (s : AudioSendState F E) → (0 < rank s) × (rank s ≤ length s.pcm_buffer / 960 + 10)
  unfolding rank
  rank_bound s = ground arith

module _ {F D E : Type 0} (fl : Floats F D) (encode : E → List ℤ → Option (List ℕ) × E) where
  drain_music-gate :
      (music : Bool) (s : AudioSendState F E)
      → ((drain_music fl encode music s).1.tts_prebuffer_satisfied ≡ s.tts_prebuffer_satisfied)
        × ((drain_music fl encode music s).1.partial_tts_stall_ticks ≡ s.partial_tts_stall_ticks)
  unfolding drain_music
  drain_music-gate true s = (refl, refl)
  drain_music-gate false s = (refl, refl)

  encoded-gate :
      (r : Option (List ℕ) × E) (s : AudioSendState F E)
      → ((encoded fl encode r s).1.tts_prebuffer_satisfied ≡ s.tts_prebuffer_satisfied)
        × ((encoded fl encode r s).1.partial_tts_stall_ticks ≤ s.partial_tts_stall_ticks)
  unfolding encoded
  encoded-gate (none, e) s = (refl, omega arith)
  encoded-gate (some opus, e) s = (refl, omega arith)

  encode_frame-gate :
      (music : Bool) (n : ℕ) (s : AudioSendState F E)
      → ((encode_frame fl encode music n s).1.tts_prebuffer_satisfied ≡ s.tts_prebuffer_satisfied)
        × ((encode_frame fl encode music n s).1.partial_tts_stall_ticks ≤ s.partial_tts_stall_ticks)
  unfolding encode_frame
  encode_frame-gate music n s =
      let s' = (drain_music fl encode music s).1 in
      let d = drain_music-gate music s in
      let r = encode s'.encoder (mix (drain_music fl encode music s).0 (take n s'.pcm_buffer)) in
      let e = encoded-gate r (record s' { pcm_buffer = drop n s'.pcm_buffer }) in
      (e.0 ∙ d.0, omega (arith, e.1, d.1))

  -- One tick behind the open gate.
  mix_frame-rank :
      (music : Bool) (s : AudioSendState F E)
      → s.tts_prebuffer_satisfied ≡ true
      → 0 < length s.pcm_buffer
      → (length (mix_frame fl encode music s).1.pcm_buffer ≡ 0)
        ⊎ (rank (mix_frame fl encode music s).1 < rank s)
  unfolding mix_frame rank count_partial tts_samples_to_take
  mix_frame-rank music s open_gate h =
      let s' = count_partial s in
      let n = tts_samples_to_take music s' in
      let e = encode_frame-gate music n s' in
      let p = ap (λ (l : List ℤ). length l) (encode_frame-pcm fl encode music n s') in
      ground (arith, e, p, length-drop n s.pcm_buffer)

  prebuffer_gate-held :
      (music : Bool) (s : AudioSendState F E)
      → (prebuffer_gate music s).0 ≡ true
      → rank (prebuffer_gate music s).1 < rank s
  unfolding prebuffer_gate rank
  prebuffer_gate-held music s h = ground arith

  prebuffer_gate-passed :
      (music : Bool) (s : AudioSendState F E)
      → (prebuffer_gate music s).0 ≡ false
      → 0 < length s.pcm_buffer
      → ((prebuffer_gate music s).1.tts_prebuffer_satisfied ≡ true)
        × (rank (prebuffer_gate music s).1 ≤ rank s)
  unfolding prebuffer_gate rank
  prebuffer_gate-passed music s h k = ground arith

  next_opus_frame-rank :
      (s : AudioSendState F E)
      → 0 < length s.pcm_buffer
      → (length (next_opus_frame fl encode s).1.pcm_buffer ≡ 0)
        ⊎ (rank (next_opus_frame fl encode s).1 < rank s)
  unfolding next_opus_frame
  next_opus_frame-rank s h =
      let music = has_music s in
      let s' = (prebuffer_gate music s).1 in
      let same = ap (λ (l : List ℤ). length l) (prebuffer_gate-pcm music s) in
      elim (Bool-cases (prebuffer_gate music s).0) [
        | inl held ↦ rw held (inr (prebuffer_gate-held music s held))
        | inr passed ↦
            let (gate, le) = prebuffer_gate-passed music s passed h in
            rw passed (elim (mix_frame-rank music s' gate (omega (arith, same))) [
              | inl sent ↦ inl sent
              | inr lt ↦ inr (omega arith)
            ])
      ]

  unfoldable pub ticks : ℕ → AudioSendState F E → AudioSendState F E
  ticks zero s = s
  ticks (suc k) s = ticks k (next_opus_frame fl encode s).1

  ticks-empty :
      (k : ℕ) (s : AudioSendState F E) → length s.pcm_buffer ≡ 0 → length (ticks k s).pcm_buffer ≡ 0
  unfolding ticks
  ticks-empty zero s h = h
  ticks-empty (suc k) s h = ticks-empty k (next_opus_frame fl encode s).1 (
      ap (λ (l : List ℤ). length l) (next_opus_frame-pcm fl encode s)
      ∙ omega (arith, length-drop (tts_taken s) s.pcm_buffer))

  ticks-rank : (k : ℕ) (s : AudioSendState F E) → rank s ≤ k → length (ticks k s).pcm_buffer ≡ 0
  unfolding ticks
  ticks-rank zero s h = absurd (omega (arith, rank_bound s))
  ticks-rank (suc k) s h = elim (Nat-cases (length s.pcm_buffer)) [
    | inl nil ↦ ticks-empty (suc k) s nil
    | inr more ↦ elim (next_opus_frame-rank s more) [
      | inl sent ↦ ticks-empty k (next_opus_frame fl encode s).1 sent
      | inr lt ↦ ticks-rank k (next_opus_frame fl encode s).1 (omega arith)
    ]
  ]

  -- Buffered speech is never held back for good: whatever the encoder does and whatever the state of
  -- the pre-buffer gate, when nothing more is pushed the buffer is empty after its length divided by
  -- the 960 samples of a frame, plus ten ticks, and it stays so.
  pub ticks_drain :
      (s : AudioSendState F E) (k : ℕ)
      → length s.pcm_buffer / 960 + 10 ≤ k
      → (ticks k s).pcm_buffer ≡ []
  ticks_drain s k h =
      let e = ticks-rank k s (omega (arith, rank_bound s)) in is_nil (ticks k s).pcm_buffer e
