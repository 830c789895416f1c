-- ===== src/Session/Clear.antt =====
-- src/app_state.rs: reconnect scheduling, and clearing connections and what depends on them.
use Prim.Native.String.{String}
use clankvox.Base.{
  ℕ, ◌+◌, ◌-◌, ◌*◌, ◌^◌, min, Bool, false, Option, none, some, List, [], ◌∷◌, ◌++◌, ◌==◌,
  if◌then◌else◌,
}
use clankvox.Music
use clankvox.Publish
use clankvox.Session.State.{
  AppState, Effect, voice, voice_runtime_error, connection_state, transport_state,
  gateway_voice_state_update, error, shutdown, speaking_end, user_audio_end, user_video_end,
  client_disconnect, stop_music_player, stop_publish_player, set_stream_publish_speaking,
  set_stream_publish_video_active, Map, RemoteVideoState,
}

abbrev pub emit : AppState → List Effect → AppState
emit s effects = record s { out = s.out ++ effects }

-- `saturating_add` of a u32
abbrev pub saturating_suc : ℕ → ℕ
saturating_suc n = min (n + 1) 4294967295

-- `1_000 << saturating_sub(attempt, 1).min(4)`
abbrev pub backoff_ms : ℕ → ℕ
backoff_ms attempt = 1000 * 2 ^ min (attempt - 1) 4

-- The `let … else` of the code: nothing without a guild and a channel.
abbrev pub schedule_at : Option ℕ → Option ℕ → AppState → ℕ → String → AppState
schedule_at none channel s now reason = s
schedule_at (some guild_id) none s now reason = s
schedule_at (some guild_id) (some channel_id) s now reason =
    let attempt = saturating_suc s.reconnect_attempt in
    emit
      (record s {
        reconnect_attempt = attempt;
        reconnect_deadline = some (now + backoff_ms attempt);
      })
      (connection_state "reconnecting"
        ∷ transport_state voice "reconnecting" (some reason)
        ∷ gateway_voice_state_update guild_id channel_id s.self_mute
        ∷ [])

unfoldable pub schedule_reconnect : AppState → ℕ → String → AppState
schedule_reconnect s now reason = schedule_at s.guild_id s.channel_id s now reason

unfoldable pub reset_reconnect : AppState → AppState
reset_reconnect s = record s { reconnect_deadline = none; reconnect_attempt = 0 }

abbrev pub shutdowns : Option ℕ → List Effect
shutdowns none = []
shutdowns (some conn) = shutdown conn ∷ []

unfoldable pub clear_voice_connection : AppState → AppState
clear_voice_connection s =
    emit (record s { voice_conn = none; dave = none; audio_send_state = none })
      (shutdowns s.voice_conn)

unfoldable pub clear_stream_watch_connection : AppState → AppState
clear_stream_watch_connection s =
    emit (record s { stream_watch_conn = none; stream_watch_dave = none })
      (shutdowns s.stream_watch_conn)

unfoldable pub clear_stream_publish_connection : AppState → AppState
clear_stream_publish_connection s =
    emit (record s { stream_publish_conn = none; stream_publish_dave = none })
      (shutdowns s.stream_publish_conn)

unfoldable pub video_conn : AppState → Option ℕ
video_conn s = elim s.stream_watch_conn [ none ↦ s.voice_conn | some conn ↦ some conn ]

abbrev pub empty {ℓ} : {A : Type ℓ} → ℕ → Option A
empty key = none

unfoldable pub clear_transport_runtime_state : AppState → AppState
clear_transport_runtime_state s = record s {
  ssrc_map = empty;
  opus_decoders = empty;
  last_rtp_seq = empty;
  speaking_states = empty;
  remote_video_states = empty;
  user_video_decoders = empty;
}

abbrev pub remove {ℓ} : {A : Type ℓ} → (ℕ → Option A) → ℕ → ℕ → Option A
remove map key other = if other == key then none else map other

-- Whether an SSRC is mapped to the user: `removed_ssrcs`.
abbrev pub maps_to : Map ℕ → ℕ → ℕ → Bool
maps_to ssrc_map user_id ssrc = elim (ssrc_map ssrc) [ none ↦ false | some uid ↦ uid == user_id ]

abbrev pub without {ℓ} : {A : Type ℓ} → (ℕ → Bool) → (ℕ → Option A) → ℕ → Option A
without removed map key = if removed key then none else map key

abbrev pub first_of : List ℕ → Option ℕ
first_of [] = none
first_of (ssrc ∷ _) = some ssrc

abbrev pub end_ssrc : RemoteVideoState → Option ℕ
end_ssrc state = elim state.video_ssrc [
  | none ↦ first_of state.stream_ssrcs
  | some ssrc ↦ some ssrc
]

abbrev pub user_end_effects : AppState → ℕ → List Effect
user_end_effects s user_id =
    elim (s.speaking_states user_id) [
      | none ↦ []
      | some state ↦ if state.is_speaking then speaking_end user_id ∷ [] else []
    ]
    ++ (elim (s.user_capture_states user_id) [
      | none ↦ []
      | some state ↦ if state.stream_active then user_audio_end user_id ∷ [] else []
    ]
        ++ (elim (s.remote_video_states user_id) [
          | none ↦ []
          | some state ↦ user_video_end user_id (end_ssrc state) ∷ []
        ]
            ++ (client_disconnect user_id ∷ [])))

unfoldable pub remove_user_runtime_state : AppState → ℕ → AppState
remove_user_runtime_state s user_id =
    let removed = maps_to s.ssrc_map user_id in
    emit
      (record s {
        ssrc_map = without removed s.ssrc_map;
        opus_decoders = without removed s.opus_decoders;
        last_rtp_seq = without removed s.last_rtp_seq;
        speaking_states = remove s.speaking_states user_id;
        user_capture_states = remove s.user_capture_states user_id;
        user_video_subscriptions = remove s.user_video_subscriptions user_id;
        user_video_decoders = remove s.user_video_decoders user_id;
        remote_video_states = remove s.remote_video_states user_id;
      })
      (user_end_effects s user_id)

abbrev pub stops : (ℕ → Effect) → Option ℕ → List Effect
stops stop none = []
stops stop (some player) = stop player ∷ []

unfoldable pub handle_disconnected : AppState → ℕ → String → AppState
unfolding clear_voice_connection clear_stream_publish_connection clear_transport_runtime_state
handle_disconnected s now reason =
    let told = emit s (
      error voice_runtime_error
      ∷ connection_state "disconnected"
      ∷ transport_state voice "disconnected" (some reason)
      ∷ []) in
    let (music_player, music) = Music.reset s.music in
    let (publish_player, publish) = Publish.reset s.stream_publish in
    let stopped =
      emit (record told { music = music; stream_publish = publish; music_pcm = [] })
        (stops stop_music_player music_player ++ stops stop_publish_player publish_player) in
    schedule_reconnect
      (clear_transport_runtime_state
        (clear_stream_publish_connection (clear_voice_connection stopped)))
      now reason

-- src/stream_publish.rs, `stop_stream_publish_runtime`: failures to tell the gateway are logged only.
unfoldable pub stop_stream_publish_runtime : AppState → AppState
stop_stream_publish_runtime s =
    let (player, publish) = Publish.stop_player s.stream_publish in
    emit
      (record s {
        stream_publish = record publish { active = false; paused = false; active_source = none };
        stream_publish_frames = [];
        stream_publish_events = [];
        stream_publish_frames_sent = 0;
      })
      (elim s.stream_publish_conn [
        | none ↦ []
        | some conn ↦
            set_stream_publish_speaking conn false ∷ set_stream_publish_video_active conn false ∷ []
      ]
        ++ stops stop_publish_player player)
