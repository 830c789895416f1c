-- ===== src/Tests/Audio.antt =====
-- The properties of the audio pipeline and of the playback at concrete inputs. The floating-point
-- numbers are rounded to integers, and the encoder writes the length of the frame and counts frames.
use clankvox.Base.{
  ℕ, zero, suc, ◌+◌, ◌-◌, ◌*◌, ◌/◌, max, ◌≡◌, refl, true, false, Option, none, some, List, [], ◌∷◌,
  length, ltb, arith, All,
}
use clankvox.Base.Int.{ℤ, pos, negsuc, ◌+ℤ◌, clamp_i16, unsigned_abs}
use clankvox.Audio.Floats.{Floats}
use clankvox.Audio.State.{AudioSendState}
use clankvox.Audio.Frame.{silence, has_music, next_opus_frame}
use clankvox.Audio.Fifo.{Op, push, push_music, tick, said, played, run}
use clankvox.Audio.Parts.{recording, Mixed}
use clankvox.Audio.Heard.{IsFrame, run_in_order, run-IsFrame}
use clankvox.Audio.Sent.{Sent, next_opus_frame-Sent}
use clankvox.Audio.Drain.{ticks}
use clankvox.Audio.Idle.{IsQuiet, ticks-IsQuiet}
use clankvox.Audio.Convert.{
  convert_llm_to_48k_mono, convert_decoded_to_llm, downmix, convert_llm-convert_decoded,
}

abbrev pub part : ℤ → ℕ
part (pos n) = n
part (negsuc n) = 0

-- The literal m · 10^-k, rounded down.
abbrev pub rounded : ℕ → ℕ → ℕ
rounded zero m = m
rounded (suc k) m = 0

abbrev pub integers : Floats ℤ ℕ
integers = record {
  lit32 = λ m k. pos (rounded k m);
  of_i16 = λ x. x;
  add32 = λ a b. a +ℤ b;
  sub32 = λ a b. a;
  mul32 = λ a b. a;
  abs32 = λ a. pos (unsigned_abs a);
  lt32 = λ a b. ltb (part a) (part b);
  clamp_unit = λ a. a;
  clamp32_i16 = clamp_i16;
  widen = part;
  narrow = pos;
  lit64 = λ m k. rounded k m;
  of_nat = λ n. n;
  of_int = part;
  add64 = λ a b. a + b;
  sub64 = λ a b. a - b;
  mul64 = λ a b. a * b;
  div64 = λ a b. a / b;
  max64 = max;
  abs64 = λ a. a;
  lt64 = ltb;
  sin64 = λ a. a;
  cos64 = λ a. a;
  pi64 = 3;
  floor64 = λ a. a;
  round_i16 = λ a. clamp_i16 (pos a);
}

abbrev pub encode : ℕ → List ℤ → Option (List ℕ) × ℕ
encode count pcm = (some (length pcm ∷ []), count + 1)

-- Two samples of speech, behind an open gate.
abbrev pub speaking_state : AudioSendState ℤ ℕ
speaking_state = record {
  pcm_buffer = pos 7 ∷ negsuc 4 ∷ [];
  music_buffer = [];
  music_gain = record { current = pos 1; target = pos 1; step_per_sample = pos 0 };
  music_gain_notified = pos 1;
  music_output_suppressed = false;
  encoder = 0;
  speaking = true;
  trailing_silence_frames = 0;
  partial_tts_stall_ticks = 1;
  tts_prebuffer_satisfied = true;
  tts_prebuffer_stall_ticks = 0;
  tts_prebuffer_last_len = 0;
}

-- The same with a recorder that has seen nothing, and a frame of music.
abbrev recorded_state : AudioSendState ℤ (ℕ × List (List ℤ))
recorded_state = record {
  pcm_buffer = pos 7 ∷ negsuc 4 ∷ [];
  music_buffer = [];
  music_gain = record { current = pos 1; target = pos 1; step_per_sample = pos 0 };
  music_gain_notified = pos 1;
  music_output_suppressed = false;
  encoder = (0, []);
  speaking = true;
  trailing_silence_frames = 0;
  partial_tts_stall_ticks = 1;
  tts_prebuffer_satisfied = true;
  tts_prebuffer_stall_ticks = 0;
  tts_prebuffer_last_len = 0;
}

abbrev ops : List Op
ops =
    tick ∷ push (pos 3 ∷ []) ∷ push_music (silence 960) ∷ tick ∷ push_music (pos 5 ∷ []) ∷ tick ∷ []

run_in_order_example :
    Mixed integers recorded_state
      (run integers (recording encode) recorded_state ops)
      (said ops)
      (played ops)
unfolding said
run_in_order_example = run_in_order integers encode recorded_state ops (omega arith)

run-IsFrame_example : All IsFrame (run integers (recording encode) recorded_state ops).encoder.1
run-IsFrame_example = run-IsFrame integers encode recorded_state ops tt

ticks-IsQuiet_example :
    IsQuiet (ticks integers encode 16 speaking_state)
    × ((next_opus_frame integers encode (ticks integers encode 16 speaking_state)).0 ≡ none)
ticks-IsQuiet_example =
    ticks-IsQuiet integers encode speaking_state 16 (unfold has_music in refl) (omega arith)

next_opus_frame-Sent_example :
    Sent integers encode 0 speaking_state.pcm_buffer
      (has_music speaking_state)
      (next_opus_frame integers encode speaking_state)
next_opus_frame-Sent_example = next_opus_frame-Sent integers encode speaking_state

convert_llm-convert_decoded_example :
    convert_llm_to_48k_mono integers
      (convert_decoded_to_llm integers (pos 3 ∷ pos 5 ∷ negsuc 9 ∷ []) 48000).0
      48000
    ≡ downmix (pos 3 ∷ pos 5 ∷ negsuc 9 ∷ [])
convert_llm-convert_decoded_example =
    convert_llm-convert_decoded integers (pos 3 ∷ pos 5 ∷ negsuc 9 ∷ [])
