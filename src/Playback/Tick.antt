-- ===== src/Playback/Tick.antt =====
-- src/playback_supervisor.rs: `on_audio_tick` and its parts. The capture tick, the publisher's events
-- and frames, and the sending of the Opus frame belong to other components; the frame is the result.
use Prim.Native.String.{String}
use clankvox.Base.{
  ℕ, ◌+◌, ◌-◌, Bool, true, false, not, ◌&&◌, ◌||◌, Option, none, some, List, [], ◌∷◌, ltb, leb,
  is_none, length, if◌then◌else◌,
}
use clankvox.Base.Int.{ℤ}
use clankvox.Music
use clankvox.Audio.Floats.{Floats}
use clankvox.Audio.State.{
  AudioSendState, begin_music_fade_in, maybe_take_music_gain_reached, is_music_fade_out_complete,
  can_accept_music_chunk, push_music_pcm, tts_just_drained,
}
use clankvox.Audio.Frame.{next_opus_frame}
use clankvox.Playback.State.{
  Playback, emit, on_audio, with_music, emit_playback_armed, is_music_output_drained, tell_idle_if,
  tell_idle, tell_buffered_if, report_gain, player_state, music_idle, buffer_depth,
}
use clankvox.Playback.Command.{finish_stop}

abbrev pub buffer_depth_report_interval : ℕ
buffer_depth_report_interval = 25

abbrev pub since : ℕ → Option ℕ → ℕ
since now none = 0
since now (some start) = now - start

abbrev pub unwrap_or : Option ℕ → ℕ → ℕ
unwrap_or none d = d
unwrap_or (some n) d = n

module _ {F E : Type 0} where
  abbrev pub tts_samples : Option (AudioSendState F E) → ℕ
  tts_samples none = 0
  tts_samples (some state) = length state.pcm_buffer

  abbrev pub tts_is_empty : Option (AudioSendState F E) → Bool
  tts_is_empty audio = leb (tts_samples audio) 0

  -- The music prefetch: chunks are taken from the queue while a frame fits under the bound.
  unfoldable pub prefetch : List (List ℤ) → AudioSendState F E → List (List ℤ) × AudioSendState F E
  unfolding can_accept_music_chunk push_music_pcm
  prefetch [] state = ([], state)
  prefetch (chunk ∷ queue) state =
      let rest = prefetch queue (push_music_pcm state chunk) in
      if can_accept_music_chunk state then rest else (chunk ∷ queue, state)

  abbrev pub prefetch_into : Option (AudioSendState F E) → Playback F E → Playback F E
  prefetch_into none p = p
  prefetch_into (some state) p =
      let (queue, state') = prefetch p.music_pcm state in
      record p { music_pcm = queue; audio = some state' }

  unfoldable pub tick_prefetch : Playback F E → Playback F E
  unfolding prefetch
  tick_prefetch p = if p.music.active && not p.music.paused then prefetch_into p.audio p else p

  unfoldable pub tick_finishing : Playback F E → Playback F E
  unfolding is_music_output_drained emit_playback_armed
  tick_finishing p =
      if p.music.finishing && is_music_output_drained p
      then emit_playback_armed "music_idle" (
          emit (player_state "idle" ∷ music_idle ∷ []) (
            with_music
              (λ music. record music {
                finishing = false;
                active = false;
                paused = false;
                active_url = none;
                active_resolved_direct_url = false;
              })
              p))
      else p

  -- The report, when the counter reaches its interval.
  abbrev pub report_depth : Option (AudioSendState F E) → Playback F E → Playback F E
  report_depth none p =
      if p.buffer_depth_was_nonempty
      then tell_idle (emit (buffer_depth 0 0 ∷ []) (record p { buffer_depth_was_nonempty = false }))
      else p
  report_depth (some state) p =
      let tts = length state.pcm_buffer in
      let music = length state.music_buffer in
      if ltb 0 tts || ltb 0 music
      then tell_buffered_if (ltb 0 tts && not p.tts_playback_buffered)
          (emit (buffer_depth tts music ∷ []) (record p { buffer_depth_was_nonempty = true }))
      else if p.buffer_depth_was_nonempty
      then tell_idle (emit (buffer_depth 0 0 ∷ []) (record p { buffer_depth_was_nonempty = false }))
      else p

  unfoldable pub tick_buffer_depth_report : Playback F E → Playback F E
  tick_buffer_depth_report p =
      let count = p.buffer_depth_tick_counter + 1 in
      if ltb count buffer_depth_report_interval
      then record p { buffer_depth_tick_counter = count }
      else report_depth p.audio (record p { buffer_depth_tick_counter = 0 })

module _ {F D E : Type 0} (fl : Floats F D) where
  -- The pending start becomes the music that plays, and fades in.
  unfoldable pub commit_start : String → Playback F E → Playback F E
  unfolding Music.clear_pending_start begin_music_fade_in
  commit_start url p = emit (player_state "playing" ∷ []) (
      on_audio (λ state. begin_music_fade_in fl state 1500)
        (with_music
          (λ music. record (Music.clear_pending_start music) {
            finishing = false;
            active_url = some url;
            active_resolved_direct_url = music.pending_resolved_direct_url;
            active = true;
            paused = false;
          })
          p))

  -- An announcement has been heard: the wait for a gap in it, then for its end.
  unfoldable pub after_announcement : String → ℕ → ℕ → Playback F E → Playback F E
  unfolding commit_start
  after_announcement url received_at now p =
      let gap_ms = now - unwrap_or p.music.pending_last_audio_at received_at in
      let p1 =
        if not p.music.pending_waiting_for_drain && ltb 500 gap_ms
        then with_music
            (λ music. record music {
              pending_waiting_for_drain = true;
              pending_drain_started_at = some now;
            })
            p
        else p in
      if p1.music.pending_waiting_for_drain
        && (tts_is_empty p1.audio || ltb 5000 (since now p1.music.pending_drain_started_at))
      then commit_start url p1
      else p1

  abbrev pub pending_since : String → Option ℕ → ℕ → Playback F E → Playback F E
  pending_since url none now p = commit_start url p
  pending_since url (some received_at) now p =
      let elapsed_ms = now - received_at in
      if ltb 15000 elapsed_ms
      then commit_start url p
      else if not p.music.pending_audio_seen
      then if ltb 5000 elapsed_ms then commit_start url p else p
      else after_announcement url received_at now p

  abbrev pub pending_start : Option String → ℕ → Playback F E → Playback F E
  pending_start none now p = p
  pending_start (some url) now p = pending_since url p.music.pending_received_at now p

  unfoldable pub tick_pending_music_start : ℕ → Playback F E → Playback F E
  unfolding after_announcement commit_start
  tick_pending_music_start now p = pending_start p.music.pending_url now p

  abbrev pub fade_done : Option (AudioSendState F E) → Bool
  fade_done none = true
  fade_done (some state) = is_music_fade_out_complete fl state

  unfoldable pub tick_pending_stop : Playback F E → Playback F E
  unfolding finish_stop is_music_fade_out_complete
  tick_pending_stop p = if p.music.pending_stop && fade_done p.audio then finish_stop p else p

  abbrev pub take_gain : Option (AudioSendState F E) → Playback F E → Playback F E
  take_gain none p = p
  take_gain (some state) p =
      let (reached, state') = maybe_take_music_gain_reached fl state in
      report_gain reached (record p { audio = some state' })

  unfoldable pub tick_gain : Playback F E → Playback F E
  unfolding maybe_take_music_gain_reached
  tick_gain p = take_gain p.audio p

module _ {F D E : Type 0} (fl : Floats F D) (encode : E → List ℤ → Option (List ℕ) × E) where
  abbrev pub play_frame :
      Option (AudioSendState F E) → Playback F E → Option (List ℕ) × Playback F E
  play_frame none p = (none, p)
  play_frame (some state) p =
      let (frame, state') = next_opus_frame fl encode state in
      (
        frame,
        tell_idle_if (is_none frame && tts_just_drained state' && p.tts_playback_buffered)
            (record p { audio = some state' }),
      )

  unfoldable pub tick_frame : Playback F E → Option (List ℕ) × Playback F E
  unfolding next_opus_frame tts_just_drained
  tick_frame p = play_frame p.audio p

  -- `on_audio_tick`: the frame to send, and the state.
  unfoldable pub on_audio_tick : ℕ → Playback F E → Option (List ℕ) × Playback F E
  unfolding tick_pending_music_start tick_prefetch tick_finishing tick_gain tick_pending_stop
      tick_buffer_depth_report tick_frame
  on_audio_tick now p = tick_frame (
      tick_buffer_depth_report (
        tick_pending_stop fl
          (tick_gain fl (tick_finishing (tick_prefetch (tick_pending_music_start fl now p))))))
