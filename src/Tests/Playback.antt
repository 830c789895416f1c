-- ===== src/Tests/Playback.antt =====
-- The properties of the playback supervisor at concrete inputs.
use clankvox.Base.{ℕ, ◌≡◌, ◌⊎◌, inl, refl, true, false, none, some, List, [], ◌∷◌, arith, All}
use clankvox.Base.Int.{ℤ, pos}
use clankvox.Music
use clankvox.Playback.Trim.{IsBlank, trim}
use clankvox.Playback.State.{Playback, emit, music_error}
use clankvox.Playback.Command.{
  Machine, handle_music_play, handle_stop_playback, audio, music_play, stop_playback, player_idle,
}
use clankvox.Playback.Tick.{prefetch, tick_pending_music_start}
use clankvox.Playback.Play.{IsPending, handle_music_play_lem}
use clankvox.Playback.Prefetch.{Prefetched, prefetch_lem}
use clankvox.Playback.Pending.{
  Started, StillPending, IsDue, IsAnnounced, tick_pending_music_start-Started,
  tick_pending_music_start-StillPending,
}
use clankvox.Playback.Told.{Agrees, track}
use clankvox.Playback.Run.{Event, command, event, audio_tick, run, run-Agrees}
use clankvox.Playback.Stopped.{frames, frames_after_stop}
use clankvox.Tests.Audio.{integers, encode, speaking_state}

-- A music start that was asked for at 1000 ms, while an announcement is spoken.
abbrev pub announced : Playback ℤ ℕ
announced = record {
  music = record Music.default {
    pending_url = some "https://a.example/track";
    pending_received_at = some 1000;
    pending_audio_seen = true;
    pending_last_audio_at = some 2000;
  };
  players = λ handle. record { paused = false; child_pid = 0 };
  next_player = 1;
  audio = some speaking_state;
  music_pcm = [];
  tts_playback_buffered = false;
  buffer_depth_tick_counter = 0;
  buffer_depth_was_nonempty = false;
  out = [];
}

abbrev machine : Machine ℤ ℕ
machine = record {
  floats = integers;
  decode_base64 = λ text. some (1 ∷ 0 ∷ []);
  suspend = λ pid. true;
  continue = λ pid. true;
}

handle_music_play_lem_example :
    (IsBlank " "
      × (handle_music_play 5 " " false announced
          ≡ emit (music_error "music_play missing url" ∷ []) announced))
    ⊎ (¬ IsBlank " "
        × IsPending 5 (trim " ") false announced (handle_music_play 5 " " false announced))
handle_music_play_lem_example = handle_music_play_lem 5 " " false announced

prefetch_lem_example :
    Prefetched
      ((pos 1 ∷ []) ∷ (pos 2 ∷ []) ∷ [])
      speaking_state
      (prefetch ((pos 1 ∷ []) ∷ (pos 2 ∷ []) ∷ []) speaking_state)
prefetch_lem_example =
    prefetch_lem ((pos 1 ∷ []) ∷ (pos 2 ∷ []) ∷ []) speaking_state (omega arith)
      (omega arith, (omega arith, tt))

tick_pending_music_start-Started_example :
    Started "https://a.example/track" (tick_pending_music_start integers 16001 announced)
tick_pending_music_start-Started_example =
    tick_pending_music_start-Started integers "https://a.example/track" 1000 16001 announced refl
      refl (unfold IsDue in inl (omega arith))

tick_pending_music_start-StillPending_example :
    StillPending "https://a.example/track" 1000 announced
      (tick_pending_music_start integers 9000 announced)
tick_pending_music_start-StillPending_example =
    tick_pending_music_start-StillPending integers "https://a.example/track" 1000 9000 announced
      refl refl (unfold IsAnnounced in (refl, omega arith, omega arith, inl refl))

abbrev events : List (Event ℤ)
events =
    command 2100 (audio "AQA=" 48000)
    ∷ audio_tick 2120
    ∷ command 2130 (music_play "https://b.example" true)
    ∷ event 2140 player_idle
    ∷ command 2150 stop_playback
    ∷ audio_tick 2160
    ∷ []

run-Agrees_example : Agrees (run machine encode announced events)
run-Agrees_example = run-Agrees machine encode announced events (unfold Agrees track in refl)

frames_after_stop_example :
    All
      (λ frame. frame ≡ none)
      (frames integers encode (handle_stop_playback announced) (3000 ∷ 3020 ∷ []))
frames_after_stop_example = frames_after_stop integers encode announced (3000 ∷ 3020 ∷ [])
