-- ===== src/Audio/State.antt =====
-- src/audio_pipeline.rs: `AudioSendState` and its methods but the mixer. The Opus encoder is a
-- parameter: a state of type `E`, advanced by each call.
use clankvox.Base.{
  ℕ, ◌+◌, Bool, true, false, not, ◌&&◌, Option, none, some, List, [], ◌++◌, leb, ◌==◌,
  if◌then◌else◌, length, take, is_empty,
}
use clankvox.Base.Int.{ℤ}
use clankvox.Audio.Floats.{Floats, GainEnvelope, new_gain, is_complete}

abbrev pub max_trailing_silence : ℕ
max_trailing_silence = 5

abbrev pub audio_frame_samples : ℕ
audio_frame_samples = 960

abbrev pub max_pcm_buffer_samples : ℕ
max_pcm_buffer_samples = 720000

abbrev pub max_music_buffer_samples : ℕ
max_music_buffer_samples = 96000

pub record AudioSendState (F E : Type 0) : Type 0 where
  pub pcm_buffer : List ℤ
  pub music_buffer : List ℤ
  pub music_gain : GainEnvelope F
  pub music_gain_notified : F
  pub music_output_suppressed : Bool
  pub encoder : E
  pub speaking : Bool
  pub trailing_silence_frames : ℕ
  pub partial_tts_stall_ticks : ℕ
  pub tts_prebuffer_satisfied : Bool
  pub tts_prebuffer_stall_ticks : ℕ
  pub tts_prebuffer_last_len : ℕ

module _ {F E : Type 0} where
  -- `extend`, then `truncate` to the bound.
  unfoldable pub push_pcm : AudioSendState F E → List ℤ → AudioSendState F E
  push_pcm s samples = record s {
    pcm_buffer = take max_pcm_buffer_samples (s.pcm_buffer ++ samples);
    trailing_silence_frames = 0;
    partial_tts_stall_ticks = 0;
  }

  unfoldable pub push_music_pcm : AudioSendState F E → List ℤ → AudioSendState F E
  push_music_pcm s samples = record s {
    music_buffer = s.music_buffer ++ samples;
    trailing_silence_frames = 0;
  }

  unfoldable pub can_accept_music_chunk : AudioSendState F E → Bool
  can_accept_music_chunk s =
      leb (length s.music_buffer + audio_frame_samples) max_music_buffer_samples

  unfoldable pub suppress_music_output : AudioSendState F E → AudioSendState F E
  suppress_music_output s = record s { music_output_suppressed = true }

  unfoldable pub resume_music_output : AudioSendState F E → AudioSendState F E
  resume_music_output s = record s { music_output_suppressed = false; trailing_silence_frames = 0 }

  unfoldable pub clear : AudioSendState F E → AudioSendState F E
  clear s = record s {
    pcm_buffer = [];
    music_buffer = [];
    music_output_suppressed = false;
    trailing_silence_frames = max_trailing_silence;
    partial_tts_stall_ticks = 0;
    tts_prebuffer_satisfied = false;
    tts_prebuffer_stall_ticks = 0;
    tts_prebuffer_last_len = 0;
  }

  unfoldable pub clear_tts : AudioSendState F E → AudioSendState F E
  clear_tts s = record s {
    pcm_buffer = [];
    partial_tts_stall_ticks = 0;
    tts_prebuffer_satisfied = false;
    tts_prebuffer_stall_ticks = 0;
    tts_prebuffer_last_len = 0;
  }

  unfoldable pub clear_music : AudioSendState F E → AudioSendState F E
  clear_music s = record s {
    music_buffer = [];
    music_output_suppressed = false;
    trailing_silence_frames = max_trailing_silence;
  }

  unfoldable pub tts_just_drained : AudioSendState F E → Bool
  tts_just_drained s =
      not s.speaking
      && is_empty s.pcm_buffer
      && leb max_trailing_silence s.trailing_silence_frames
      && not s.tts_prebuffer_satisfied

module _ {F D E : Type 0} (fl : Floats F D) where
  -- `new`, given the encoder.
  unfoldable pub new_state : E → AudioSendState F E
  unfolding new_gain
  new_state encoder = record {
    pcm_buffer = [];
    music_buffer = [];
    music_gain = new_gain fl (fl.lit32 1 0) (fl.lit32 1 0) 0;
    music_gain_notified = fl.lit32 1 0;
    music_output_suppressed = false;
    encoder = encoder;
    speaking = false;
    trailing_silence_frames = 0;
    partial_tts_stall_ticks = 0;
    tts_prebuffer_satisfied = false;
    tts_prebuffer_stall_ticks = 0;
    tts_prebuffer_last_len = 0;
  }

  unfoldable pub set_music_gain : AudioSendState F E → F → ℕ → Option F × AudioSendState F E
  unfolding new_gain
  set_music_gain s target fade_ms =
      if fade_ms == 0
      then (
        some target,
        record s { music_gain = new_gain fl target target fade_ms; music_gain_notified = target },
      )
      else (none, record s { music_gain = new_gain fl s.music_gain.current target fade_ms })

  unfoldable pub begin_music_fade_in : AudioSendState F E → ℕ → AudioSendState F E
  unfolding new_gain
  begin_music_fade_in s fade_ms = record s {
    music_gain = new_gain fl (fl.lit32 0 0) (fl.lit32 1 0) fade_ms;
    music_gain_notified = fl.lit32 0 0;
  }

  unfoldable pub maybe_take_music_gain_reached : AudioSendState F E → Option F × AudioSendState F E
  unfolding is_complete
  maybe_take_music_gain_reached s =
      if is_complete fl s.music_gain
        && fl.lt32 (fl.lit32 1 4) (fl.abs32 (fl.sub32 s.music_gain_notified s.music_gain.target))
      then (some s.music_gain.target, record s { music_gain_notified = s.music_gain.target })
      else (none, s)

  unfoldable pub is_music_fade_out_complete : AudioSendState F E → Bool
  unfolding is_complete
  is_music_fade_out_complete s =
      is_complete fl s.music_gain && fl.lt32 s.music_gain.target (fl.lit32 1 3)

  unfoldable pub is_music_ducked : AudioSendState F E → Bool
  is_music_ducked s = fl.lt32 s.music_gain.target (fl.lit32 1 0)
