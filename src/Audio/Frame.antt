-- ===== src/Audio/Frame.antt =====
-- src/audio_pipeline.rs: `next_opus_frame`, the mixer that runs once per tick.
use clankvox.Base.{
  ℕ, zero, suc, ◌+◌, min, Bool, true, false, not, ◌&&◌, ◌||◌, Option, none, some, List, [], ◌∷◌,
  leb, ltb, if◌then◌else◌, length, take, drop,
}
use clankvox.Base.Int.{ℤ, pos, ◌+ℤ◌, clamp_i16}
use clankvox.Audio.Floats.{Floats, apply_samples}
use clankvox.Audio.State.{AudioSendState, audio_frame_samples, max_trailing_silence}

abbrev pub partial_tts_flush_ticks : ℕ
partial_tts_flush_ticks = 2

abbrev pub tts_prebuffer_samples : ℕ
tts_prebuffer_samples = 9600

abbrev pub tts_prebuffer_stall_limit : ℕ
tts_prebuffer_stall_limit = 3

-- `saturating_add(1)` of a u32
abbrev pub saturating_suc : ℕ → ℕ
saturating_suc n = min (n + 1) 4294967295

-- `[0i32; n]`
unfoldable pub silence : ℕ → List ℤ
silence zero = []
silence (suc n) = pos 0 ∷ silence n

-- `mixed[i] += s` along the samples.
unfoldable pub add_into : List ℤ → List ℤ → List ℤ
add_into [] samples = []
add_into (m ∷ mixed) [] = m ∷ mixed
add_into (m ∷ mixed) (x ∷ samples) = (m +ℤ x) ∷ add_into mixed samples

unfoldable pub clamp_all : List ℤ → List ℤ
clamp_all [] = []
clamp_all (m ∷ mixed) = clamp_i16 m ∷ clamp_all mixed

-- The frame that the encoder is given.
unfoldable pub mix : List ℤ → List ℤ → List ℤ
unfolding clamp_all add_into silence
mix music tts = clamp_all (add_into (add_into (silence audio_frame_samples) music) tts)

module _ {F E : Type 0} where
  unfoldable pub has_music : AudioSendState F E → Bool
  has_music s = not s.music_output_suppressed && leb audio_frame_samples (length s.music_buffer)

  -- The pre-buffer gate: whether the tick ends here, and the state.
  unfoldable pub prebuffer_gate : Bool → AudioSendState F E → Bool × AudioSendState F E
  prebuffer_gate music s =
      let available = length s.pcm_buffer in
      if not s.tts_prebuffer_satisfied && ltb 0 available && ltb available tts_prebuffer_samples
      then (let stall =
            if ltb s.tts_prebuffer_last_len available
            then 0
            else saturating_suc s.tts_prebuffer_stall_ticks in
          if ltb stall tts_prebuffer_stall_limit && not music
          then (
            true,
            record s {
              tts_prebuffer_stall_ticks = stall;
              tts_prebuffer_last_len = available;
              partial_tts_stall_ticks = 0;
            },
          )
          else (
            false,
            record s {
              tts_prebuffer_stall_ticks = stall;
              tts_prebuffer_last_len = available;
              tts_prebuffer_satisfied = true;
            },
          ))
      else if leb tts_prebuffer_samples available && not s.tts_prebuffer_satisfied
      then (
        false,
        record s {
          tts_prebuffer_satisfied = true;
          tts_prebuffer_stall_ticks = 0;
          tts_prebuffer_last_len = 0;
        },
      )
      else (false, s)

  abbrev pub has_partial_tts : AudioSendState F E → Bool
  has_partial_tts s = ltb 0 (length s.pcm_buffer) && ltb (length s.pcm_buffer) audio_frame_samples

  -- The stall counter of an underfilled tail, counted or reset.
  unfoldable pub count_partial : AudioSendState F E → AudioSendState F E
  count_partial s = record s {
    partial_tts_stall_ticks =
        if has_partial_tts s then saturating_suc s.partial_tts_stall_ticks else 0;
  }

  unfoldable pub tts_samples_to_take : Bool → AudioSendState F E → ℕ
  tts_samples_to_take music s =
      if leb audio_frame_samples (length s.pcm_buffer)
      then audio_frame_samples
      else if has_partial_tts s && (music || leb partial_tts_flush_ticks s.partial_tts_stall_ticks)
      then length s.pcm_buffer
      else 0

  -- Nothing to mix: trailing silence frames, then the end of speaking.
  unfoldable pub idle : AudioSendState F E → Option (List ℕ) × AudioSendState F E
  idle s =
      if ltb s.trailing_silence_frames max_trailing_silence
      then (
        some (0xF8 ∷ 0xFF ∷ 0xFE ∷ []),
        record s { trailing_silence_frames = s.trailing_silence_frames + 1 },
      )
      else if s.speaking
      then (
        none,
        record s {
          speaking = false;
          tts_prebuffer_satisfied = false;
          tts_prebuffer_stall_ticks = 0;
          tts_prebuffer_last_len = 0;
        },
      )
      else (none, s)

module _ {F D E : Type 0} (fl : Floats F D) (encode : E → List ℤ → Option (List ℕ) × E) where
  -- The music of the frame, with the gain applied, and the state without it.
  unfoldable pub drain_music : Bool → AudioSendState F E → List ℤ × AudioSendState F E
  unfolding apply_samples
  drain_music false s = ([], s)
  drain_music true s =
      let (music, gain) = apply_samples fl s.music_gain (take audio_frame_samples s.music_buffer) in
      (
        music,
        record s { music_buffer = drop audio_frame_samples s.music_buffer; music_gain = gain },
      )

  -- The end of the tick after `encode`.
  unfoldable pub encoded :
      Option (List ℕ) × E → AudioSendState F E → Option (List ℕ) × AudioSendState F E
  encoded (none, encoder) s = (none, record s { encoder = encoder })
  encoded (some opus, encoder) s = (
    some opus,
    record s {
      encoder = encoder;
      speaking = true;
      trailing_silence_frames = 0;
      partial_tts_stall_ticks = 0;
    },
  )

  -- Mix `n` samples of speech with the music, if there is any, and encode the frame.
  unfoldable pub encode_frame : Bool → ℕ → AudioSendState F E → Option (List ℕ) × AudioSendState F E
  unfolding drain_music mix encoded
  encode_frame music n s =
      let (played, s') = drain_music music s in
      encoded (encode s'.encoder (mix played (take n s'.pcm_buffer)))
        (record s' { pcm_buffer = drop n s'.pcm_buffer })

  -- The tick behind the gate.
  unfoldable pub mix_frame : Bool → AudioSendState F E → Option (List ℕ) × AudioSendState F E
  unfolding count_partial tts_samples_to_take encode_frame idle
  mix_frame music s =
      let s' = count_partial s in
      let n = tts_samples_to_take music s' in
      if ltb 0 n || music
      then encode_frame music n s'
      else if has_partial_tts s'
      then (none, s')
      else idle s'

  unfoldable pub next_opus_frame : AudioSendState F E → Option (List ℕ) × AudioSendState F E
  unfolding has_music prebuffer_gate mix_frame
  next_opus_frame s =
      let (held, s') = prebuffer_gate (has_music s) s in
      if held then (none, s') else mix_frame (has_music s) s'
