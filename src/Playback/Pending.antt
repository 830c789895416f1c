-- ===== src/Playback/Pending.antt =====
-- src/playback_supervisor.rs: when `tick_pending_music_start` starts the pending music.
use Prim.Native.String.{String}
use clankvox.Base.{
  ℕ, ◌+◌, ◌-◌, ◌≤◌, ◌<◌, ◌≡◌, ◌⊎◌, inl, inr, refl, sym, subst, ◌∙◌, Bool, true, false, not, none,
  some, ltb, if◌then◌else◌, arith,
}
use clankvox.Music
use clankvox.Audio.Floats.{Floats}
use clankvox.Playback.State.{Playback}
use clankvox.Playback.Tick.{
  commit_start, after_announcement, pending_since, pending_start, tick_pending_music_start,
  tts_samples, since, unwrap_or,
}

module _ {F E : Type 0} where
  -- The music of the URL plays, and nothing is pending any more.
  pub Started : String → Playback F E → Type 0
  Started url p =
      (p.music.active ≡ true)
      × (p.music.paused ≡ false)
      × (p.music.pending_url ≡ none)
      × (p.music.active_url ≡ some url)

  -- The start is still pending, and the music is as it was.
  pub StillPending : String → ℕ → Playback F E → Playback F E → Type 0
  StillPending url received_at p p' =
      (p'.music.pending_url ≡ some url)
      × (p'.music.pending_received_at ≡ some received_at)
      × (p'.music.active ≡ p.music.active)
      × (p'.out ≡ p.out)

  -- The reasons to start: 15 s have passed; 5 s without an announcement; a gap of more than 500 ms
  -- after the announcement with no speech left to play.
  unfoldable pub IsDue : ℕ → ℕ → Playback F E → Type 0
  IsDue received_at now p =
      (received_at + 15000 < now)
      ⊎ ((p.music.pending_audio_seen ≡ false) × (received_at + 5000 < now))
      ⊎ ((p.music.pending_audio_seen ≡ true)
          × (unwrap_or p.music.pending_last_audio_at received_at + 500 < now)
          × (tts_samples p.audio ≡ 0))

  -- Speech of the announcement is still buffered, and less than 5 s have passed since the wait for
  -- its end began, if it has begun.
  unfoldable pub IsAnnounced : ℕ → ℕ → Playback F E → Type 0
  IsAnnounced received_at now p =
      (p.music.pending_audio_seen ≡ true)
      × (now ≤ received_at + 15000)
      × (0 < tts_samples p.audio)
      × ((p.music.pending_waiting_for_drain ≡ false)
          ⊎ (since now p.music.pending_drain_started_at ≤ 5000))

chosen :
    {P : Type 0} (Q : P → Type 0) (late seen slow : Bool) (a b c : P)
    → Q a
    → ((seen ≡ false) × (slow ≡ true)) ⊎ ((seen ≡ true) × Q c)
    → Q (if late then a else if not seen then if slow then a else b else c)
chosen Q true seen slow a b c qa h = qa
chosen Q false true slow a b c qa (inl (e, s)) = absurd (cc)
chosen Q false true slow a b c qa (inr (e, qc)) = qc
chosen Q false false true a b c qa h = qa
chosen Q false false false a b c qa (inl (e, s)) = absurd (cc)
chosen Q false false false a b c qa (inr (e, qc)) = absurd (cc)

once_seen :
    {P : Type 0} (Q : P → Type 0) (seen slow : Bool) (a b c : P)
    → seen ≡ true
    → Q c
    → Q (if not seen then if slow then a else b else c)
once_seen Q true slow a b c e qc = qc
once_seen Q false slow a b c e qc = absurd (cc)

ltb_of_lt : (a b : ℕ) → a < b → ltb a b ≡ true
ltb_of_lt a b h = ground arith

ltb_of_le : (a b : ℕ) → b ≤ a → ltb a b ≡ false
ltb_of_le a b h = ground arith

module _ {F D E : Type 0} (fl : Floats F D) where
  commit_start-Started : (url : String) (p : Playback F E) → Started url (commit_start fl url p)
  unfolding Started commit_start Music.clear_pending_start
  commit_start-Started url p = (refl, refl, refl, refl)

  due_announced :
      (url : String) (received_at now : ℕ) (p : Playback F E)
      → unwrap_or p.music.pending_last_audio_at received_at + 500 < now
      → tts_samples p.audio ≡ 0
      → Started url (after_announcement fl url received_at now p)
  unfolding after_announcement Started commit_start Music.clear_pending_start
  due_announced url received_at now p gap nil = ground arith

  due_starts :
      (url : String) (received_at now : ℕ) (p : Playback F E)
      → IsDue received_at now p
      → Started url (pending_since fl url (some received_at) now p)
  unfolding IsDue
  due_starts url received_at now p (inl late) =
      rw (ltb_of_lt 15000 (now - received_at) (omega arith)) (commit_start-Started url p)
  due_starts url received_at now p (inr (inl (unseen, late))) =
      chosen (Started url) (ltb 15000 (now - received_at)) p.music.pending_audio_seen
        (ltb 5000 (now - received_at)) (commit_start fl url p) p
        (after_announcement fl url received_at now p) (commit_start-Started url p)
        (inl (unseen, ltb_of_lt 5000 (now - received_at) (omega arith)))
  due_starts url received_at now p (inr (inr (seen, gap, nil))) =
      chosen (Started url) (ltb 15000 (now - received_at)) p.music.pending_audio_seen
        (ltb 5000 (now - received_at)) (commit_start fl url p) p
        (after_announcement fl url received_at now p) (commit_start-Started url p)
        (inr (seen, due_announced url received_at now p gap nil))

  busy_announced :
      (url : String) (received_at now : ℕ) (p : Playback F E)
      → 0 < tts_samples p.audio
      → (p.music.pending_waiting_for_drain ≡ false)
        ⊎ (since now p.music.pending_drain_started_at ≤ 5000)
      → ((after_announcement fl url received_at now p).music.pending_url ≡ p.music.pending_url)
        × ((after_announcement fl url received_at now p).music.pending_received_at
            ≡ p.music.pending_received_at)
        × ((after_announcement fl url received_at now p).music.active ≡ p.music.active)
        × ((after_announcement fl url received_at now p).out ≡ p.out)
  unfolding after_announcement
  busy_announced url received_at now p some_left wait = ground arith

  busy_waits :
      (url : String) (received_at now : ℕ) (p : Playback F E)
      → p.music.pending_url ≡ some url
      → p.music.pending_received_at ≡ some received_at
      → IsAnnounced received_at now p
      → StillPending url received_at p (pending_since fl url (some received_at) now p)
  unfolding IsAnnounced StillPending
  busy_waits url received_at now p u r (seen, early, some_left, wait) =
      let (u', r', active, out) = busy_announced url received_at now p some_left wait in
      rw (ltb_of_le 15000 (now - received_at) (omega arith)) (
        once_seen (StillPending url received_at p) p.music.pending_audio_seen
          (ltb 5000 (now - received_at)) (commit_start fl url p) p
          (after_announcement fl url received_at now p) seen (u' ∙ u, r' ∙ r, active, out))

  -- Music whose start is pending plays from the first tick at which the start is due: more than 15 s
  -- after it was asked for in any case, after more than 5 s if no announcement was heard, and
  -- otherwise once the announcement has paused for more than 500 ms and its speech is played out.
  pub tick_pending_music_start-Started :
      (url : String) (received_at now : ℕ) (p : Playback F E)
      → p.music.pending_url ≡ some url
      → p.music.pending_received_at ≡ some received_at
      → IsDue received_at now p
      → Started url (tick_pending_music_start fl now p)
  unfolding tick_pending_music_start
  tick_pending_music_start-Started url received_at now p u r due =
      subst (λ o. Started url (pending_start fl o now p)) (sym u)
        (subst (λ o. Started url (pending_since fl url o now p)) (sym r)
          (due_starts url received_at now p due))

  -- Music does not start over its announcement: while speech of the announcement is buffered, no more
  -- than 15 s have passed since the start was asked for, and the wait for the end of the speech has
  -- not begun or has not lasted more than 5 s, a tick leaves the start pending and sends nothing.
  pub tick_pending_music_start-StillPending :
      (url : String) (received_at now : ℕ) (p : Playback F E)
      → p.music.pending_url ≡ some url
      → p.music.pending_received_at ≡ some received_at
      → IsAnnounced received_at now p
      → StillPending url received_at p (tick_pending_music_start fl now p)
  unfolding tick_pending_music_start
  tick_pending_music_start-StillPending url received_at now p u r busy =
      subst (λ o. StillPending url received_at p (pending_start fl o now p)) (sym u)
        (subst (λ o. StillPending url received_at p (pending_since fl url o now p)) (sym r)
          (busy_waits url received_at now p u r busy))
