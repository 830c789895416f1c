-- ===== src/Session/Users.antt =====
-- src/app_state.rs and src/connection_supervisor.rs: users who leave, and commands that arrive while
-- a retry is pending.
use Prim.Native.String.{String}
use clankvox.Base.{
  ℕ, Option, none, some, ◌≡◌, ◌≢◌, refl, ◌∙◌, arith, ◌==◌, Bool-cases, inl, inr, ◌⊎◌,
}
use clankvox.Session.State.{AppState}
use clankvox.Session.Clear.{
  remove_user_runtime_state, clear_voice_connection, clear_stream_watch_connection,
  clear_stream_publish_connection, clear_transport_runtime_state, maps_to,
}
use clankvox.Session.Connect.{
  VoiceConnectionParams, ConnectResult, maybe_try_connect, unless_scheduled,
}
use clankvox.Session.Commands.{
  set_session, set_user, drop_outdated_voice, drop_outdated_watch, drop_outdated_publish,
  parse_optional, handle_voice_server, handle_voice_state,
}

-- The entries of a user.
abbrev pub NoEntry : AppState → ℕ → Type 0
NoEntry t key =
    (t.speaking_states key ≡ none)
    × (t.user_capture_states key ≡ none)
    × (t.user_video_subscriptions key ≡ none)
    × (t.user_video_decoders key ≡ none)
    × (t.remote_video_states key ≡ none)

abbrev pub SameEntry : AppState → AppState → ℕ → Type 0
SameEntry s t key =
    (t.speaking_states key ≡ s.speaking_states key)
    × (t.user_capture_states key ≡ s.user_capture_states key)
    × (t.user_video_subscriptions key ≡ s.user_video_subscriptions key)
    × (t.user_video_decoders key ≡ s.user_video_decoders key)
    × (t.remote_video_states key ≡ s.remote_video_states key)

-- The entries of an audio SSRC.
abbrev pub NoSsrc : AppState → ℕ → Type 0
NoSsrc t ssrc =
    (t.ssrc_map ssrc ≡ none) × (t.opus_decoders ssrc ≡ none) × (t.last_rtp_seq ssrc ≡ none)

abbrev pub SameSsrc : AppState → AppState → ℕ → Type 0
SameSsrc s t ssrc =
    (t.ssrc_map ssrc ≡ s.ssrc_map ssrc)
    × (t.opus_decoders ssrc ≡ s.opus_decoders ssrc)
    × (t.last_rtp_seq ssrc ≡ s.last_rtp_seq ssrc)

-- When a user leaves, the user's entries and those of the SSRCs that were mapped to the user are gone,
-- and the entries of every other user and every other SSRC are as they were.
pub remove_user_runtime_state_lem :
    (s : AppState) (user_id key ssrc : ℕ)
    → let t = remove_user_runtime_state s user_id in
      (((key ≡ user_id) × NoEntry t key) ⊎ ((key ≢ user_id) × SameEntry s t key))
      × (((s.ssrc_map ssrc ≡ some user_id) × NoSsrc t ssrc)
          ⊎ ((s.ssrc_map ssrc ≢ some user_id) × SameSsrc s t ssrc))
unfolding remove_user_runtime_state
remove_user_runtime_state_lem s user_id key ssrc = (
  elim (Bool-cases (key == user_id)) [
    | inl e ↦ inl (ground arith)
    | inr e ↦ inr (λ k. ground arith, ground arith)
  ],
  elim (Bool-cases (maps_to s.ssrc_map user_id ssrc)) [
    | inl e ↦ inl (ground arith)
    | inr e ↦ inr (λ k. ground arith, ground arith)
  ],
)

set_user-deadline :
    (s : AppState) (user_id : Option ℕ)
    → (set_user s user_id).reconnect_deadline ≡ s.reconnect_deadline
unfolding set_user
set_user-deadline s none = refl
set_user-deadline s (some user_id) = refl

set_session-deadline :
    (s : AppState) (session_id : Option String)
    → (set_session s session_id).reconnect_deadline ≡ s.reconnect_deadline
unfolding set_session drop_outdated_voice drop_outdated_watch drop_outdated_publish
    clear_voice_connection clear_stream_watch_connection clear_stream_publish_connection
    clear_transport_runtime_state
set_session-deadline s none = refl
set_session-deadline s (some session_id) = ground arith

parse_optional-deadline :
    (parse_u64 : String → Option ℕ) (s : AppState) (user_id : Option String)
    → (parse_optional parse_u64 s user_id).1.reconnect_deadline ≡ s.reconnect_deadline
parse_optional-deadline parse_u64 s none = refl
parse_optional-deadline parse_u64 s (some user_id) = ground arith

deferred :
    (deadline : Option ℕ) (s t u : AppState) {at : ℕ}
    → deadline ≡ some at
    → unless_scheduled deadline s t ≡ unless_scheduled deadline s u
deferred none s t u e = absurd (ground arith)
deferred (some d) s t u e = refl

-- While a retry is scheduled, `voice_server` and `voice_state` open no connection: what they do is the
-- same whatever a connection attempt would come to.
pub deferred_while_scheduled :
    (parse_u64 : String → Option ℕ)
    (connect connect' : VoiceConnectionParams → Option ℕ × ConnectResult) (s : AppState)
    (now at : ℕ) (a b : Option String)
    → s.reconnect_deadline ≡ some at
    → (handle_voice_server parse_u64 connect s now a b
        ≡ handle_voice_server parse_u64 connect' s now a b)
      × (handle_voice_state parse_u64 connect s now a b
          ≡ handle_voice_state parse_u64 connect' s now a b)
unfolding handle_voice_server handle_voice_state maybe_try_connect
deferred_while_scheduled parse_u64 connect connect' s now at a b e =
    let (uid, t) = parse_optional parse_u64 s b in
    let u = set_user (set_session t a) uid in
    (
      deferred s.reconnect_deadline _ _ _ e,
      deferred u.reconnect_deadline _ _ _ (
          set_user-deadline (set_session t a) uid
          ∙ (set_session-deadline t a ∙ (parse_optional-deadline parse_u64 s b ∙ e))),
    )
