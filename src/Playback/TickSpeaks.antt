-- ===== src/Playback/TickSpeaks.antt =====
-- src/playback_supervisor.rs: the parts of the audio tick, against the messages about speech.
use Prim.Native.String.{String}
use clankvox.Base.{
  ℕ, ◌+◌, ◌-◌, ◌≡◌, refl, subst, true, false, not, ◌&&◌, ◌||◌, Option, none, some, [], ◌∷◌,
  if◌then◌else◌, ltb, length,
}
use clankvox.Audio.State.{AudioSendState, maybe_take_music_gain_reached}
use clankvox.Audio.Floats.{Floats}
use clankvox.Playback.State.{
  Playback, player_state, music_idle, buffer_depth, emit, with_music, is_music_output_drained,
  tell_idle,
}
use clankvox.Playback.Command.{finish_stop}
use clankvox.Playback.Tick.{
  pending_start, pending_since, after_announcement, commit_start, tick_prefetch, prefetch_into,
  tick_finishing, take_gain, tick_pending_stop, fade_done, tick_buffer_depth_report, report_depth,
  unwrap_or, since, tts_is_empty,
}
use clankvox.Playback.Told.{
  Speaks, Speaks-trans, keeps, emits, tell_idle-Speaks, tell_buffered_if-Speaks, report_gain-Speaks,
  track, and-not,
}
use clankvox.Playback.Speaks.{if-Speaks, self-Speaks, then_emit, armed_after, finish_stop-Speaks}

module _ {F E : Type 0} where
  pub prefetch_into-Speaks :
      (o : Option (AudioSendState F E)) (p : Playback F E) → Speaks p (prefetch_into o p)
  prefetch_into-Speaks none p = self-Speaks p
  prefetch_into-Speaks (some state) p = keeps p _ refl refl

  pub tick_prefetch-Speaks : (p : Playback F E) → Speaks p (tick_prefetch p)
  unfolding tick_prefetch
  tick_prefetch-Speaks p =
      if-Speaks (p.music.active && not p.music.paused) p _ p (prefetch_into-Speaks p.audio p)
        (self-Speaks p)

  pub tick_finishing-Speaks : (p : Playback F E) → Speaks p (tick_finishing p)
  unfolding tick_finishing
  tick_finishing-Speaks p =
      if-Speaks (p.music.finishing && is_music_output_drained p) p _ p
        (armed_after p _ "music_idle" (player_state "idle" ∷ music_idle ∷ []) (keeps p _ refl refl)
          (λ b. unfold track in refl))
        (self-Speaks p)

  pub drained-Speaks :
      (p : Playback F E)
      → Speaks p (
          if p.buffer_depth_was_nonempty
          then tell_idle
              (emit (buffer_depth 0 0 ∷ []) (record p { buffer_depth_was_nonempty = false }))
          else p)
  drained-Speaks p =
      let q = emit (buffer_depth 0 0 ∷ []) (record p { buffer_depth_was_nonempty = false }) in
      if-Speaks p.buffer_depth_was_nonempty p _ p
        (Speaks-trans p q _
          (then_emit p p q (buffer_depth 0 0 ∷ []) (self-Speaks p) refl refl
            (λ b. unfold track in refl))
          (tell_idle-Speaks q))
        (self-Speaks p)

  pub report_depth-Speaks :
      (o : Option (AudioSendState F E)) (p : Playback F E) → Speaks p (report_depth o p)
  report_depth-Speaks none p = drained-Speaks p
  report_depth-Speaks (some state) p =
      let tts = length state.pcm_buffer in
      let music = length state.music_buffer in
      let q = emit (buffer_depth tts music ∷ []) (record p { buffer_depth_was_nonempty = true }) in
      if-Speaks (ltb 0 tts || ltb 0 music) p _ _
        (Speaks-trans p q _
          (then_emit p p q (buffer_depth tts music ∷ []) (self-Speaks p) refl refl
            (λ b. unfold track in refl))
          (tell_buffered_if-Speaks (ltb 0 tts && not p.tts_playback_buffered) q
            (and-not (ltb 0 tts) p.tts_playback_buffered)))
        (drained-Speaks p)

  pub tick_buffer_depth_report-Speaks : (p : Playback F E) → Speaks p (tick_buffer_depth_report p)
  unfolding tick_buffer_depth_report
  tick_buffer_depth_report-Speaks p =
      let q = record p { buffer_depth_tick_counter = 0 } in
      if-Speaks (ltb (p.buffer_depth_tick_counter + 1) 25) p _ _ (keeps p _ refl refl)
        (Speaks-trans p q _ (keeps p q refl refl) (report_depth-Speaks p.audio q))

module _ {F D E : Type 0} (fl : Floats F D) where
  pub commit_start-Speaks : (url : String) (p : Playback F E) → Speaks p (commit_start fl url p)
  unfolding commit_start
  commit_start-Speaks url p =
      emits p _ (player_state "playing" ∷ []) refl refl (unfold track in refl)

  pub after_announcement-Speaks :
      (url : String) (received_at now : ℕ) (p : Playback F E)
      → Speaks p (after_announcement fl url received_at now p)
  unfolding after_announcement
  after_announcement-Speaks url received_at now p =
      let waiting =
        with_music
          (λ music. record music {
            pending_waiting_for_drain = true;
            pending_drain_started_at = some now;
          })
          p in
      let gap_ms = now - unwrap_or p.music.pending_last_audio_at received_at in
      let p1 = if not p.music.pending_waiting_for_drain && ltb 500 gap_ms then waiting else p in
      let to1 =
        if-Speaks (not p.music.pending_waiting_for_drain && ltb 500 gap_ms) p waiting p
          (keeps p waiting refl refl) (self-Speaks p) in
      if-Speaks
        (p1.music.pending_waiting_for_drain
          && (tts_is_empty p1.audio || ltb 5000 (since now p1.music.pending_drain_started_at)))
        p (commit_start fl url p1) p1 (Speaks-trans p p1 _ to1 (commit_start-Speaks url p1)) to1

  pub pending_start-Speaks :
      (url : Option String) (since : Option ℕ) (now : ℕ) (p : Playback F E)
      → since ≡ p.music.pending_received_at
      → Speaks p (pending_start fl url now p)
  pending_start-Speaks none o now p e = self-Speaks p
  pending_start-Speaks (some url) o now p e =
      subst (λ r. Speaks p (pending_since fl url r now p)) e (received o)
    where
      received : (r : Option ℕ) → Speaks p (pending_since fl url r now p)
      received none = commit_start-Speaks url p
      received (some at) = if-Speaks (ltb 15000 (now - at)) p _ _ (commit_start-Speaks url p) (
          if-Speaks (not p.music.pending_audio_seen) p _ _
            (if-Speaks (ltb 5000 (now - at)) p _ p (commit_start-Speaks url p) (self-Speaks p))
            (after_announcement-Speaks url at now p))

  pub tick_pending_stop-Speaks : (p : Playback F E) → Speaks p (tick_pending_stop fl p)
  unfolding tick_pending_stop
  tick_pending_stop-Speaks p =
      if-Speaks (p.music.pending_stop && fade_done fl p.audio) p (finish_stop p) p
        (finish_stop-Speaks p) (self-Speaks p)

  pub take_gain-Speaks :
      (o : Option (AudioSendState F E)) (p : Playback F E) → Speaks p (take_gain fl o p)
  take_gain-Speaks none p = self-Speaks p
  take_gain-Speaks (some state) p =
      let (reached, state') = maybe_take_music_gain_reached fl state in
      let q = record p { audio = some state' } in
      Speaks-trans p q _ (keeps p q refl refl) (report_gain-Speaks reached q)
