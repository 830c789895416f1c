-- ===== src/Playback/Prefetch.antt =====
-- src/playback_supervisor.rs: the music prefetch of the audio tick.
use clankvox.Base.{
  ◌+◌, ◌≤◌, ◌<◌, ◌≡◌, ◌⊎◌, inl, inr, refl, ◌∙◌, true, false, List, [], ◌∷◌, ◌++◌, Bool-cases,
  length, length-append, append_assoc, All, arith,
}
use clankvox.Base.Int.{ℤ}
use clankvox.Audio.State.{AudioSendState, can_accept_music_chunk, push_music_pcm}
use clankvox.Playback.Tick.{prefetch}

abbrev pub join : List (List ℤ) → List ℤ
join [] = []
join (chunk ∷ queue) = chunk ++ join queue

module _ {F E : Type 0} where
  -- What the prefetch leaves: the buffer and the queue.
  pub Prefetched : List (List ℤ) → AudioSendState F E → List (List ℤ) × AudioSendState F E → Type 0
  Prefetched queue s r =
      (r.1.music_buffer ++ join r.0 ≡ s.music_buffer ++ join queue)
      × (length r.1.music_buffer ≤ 96000)
      × ((r.0 ≡ []) ⊎ (96000 < length r.1.music_buffer + 960))
      × (r.1.pcm_buffer ≡ s.pcm_buffer)

  pushed-length :
      (s : AudioSendState F E) (chunk : List ℤ)
      → can_accept_music_chunk s ≡ true
      → length chunk ≤ 960
      → length (push_music_pcm s chunk).music_buffer ≤ 96000
  unfolding can_accept_music_chunk push_music_pcm
  pushed-length s chunk h k = ground (arith, length-append s.music_buffer chunk)

  full_buffer :
      (s : AudioSendState F E)
      → can_accept_music_chunk s ≡ false
      → 96000 < length s.music_buffer + 960
  unfolding can_accept_music_chunk
  full_buffer s h = ground arith

  -- With chunks of at most one frame, which is what the player sends, the prefetch keeps the music
  -- buffer at or below its 96,000 samples, loses no sample and keeps their order, leaves the speech
  -- alone, and stops only when the queue is empty or the buffer has no room for a frame.
  pub prefetch_lem :
      (queue : List (List ℤ)) (s : AudioSendState F E)
      → length s.music_buffer ≤ 96000
      → All (λ chunk. length chunk ≤ 960) queue
      → Prefetched queue s (prefetch queue s)
  unfolding prefetch Prefetched
  prefetch_lem [] s h k = (refl, h, inl refl, refl)
  prefetch_lem (chunk ∷ queue) s h (k, ks) = elim (Bool-cases (can_accept_music_chunk s)) [
    | inl room ↦
        let (order, bound, stop, speech) =
          prefetch_lem queue (push_music_pcm s chunk) (pushed-length s chunk room k) ks in
        rw room (
          order ∙ unfold push_music_pcm in append_assoc s.music_buffer chunk (join queue),
          bound,
          stop,
          speech ∙ unfold push_music_pcm in refl,
        )
    | inr full ↦ rw full (refl, h, inr (full_buffer s full), refl)
  ]
