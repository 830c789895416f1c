-- ===== src/Tests/Dave.antt =====
-- The properties of the DAVE manager at concrete inputs.
use clankvox.Base.{ℕ, true, false, none, some, [], ◌∷◌, ◌≡◌, refl}
use clankvox.Dave.{
  DaveSession, DaveManager, video, unencrypted, lookup, prepare_transition, execute_transition,
  maybe_auto_execute_downgrade, decrypt_media,
}
use clankvox.Dave.Transitions.{
  execute-prepare_transition, IsMap, Executed, maybe_auto_execute_downgrade_lem,
}
use clankvox.Dave.Decrypt.{Admitted, decrypt_media_lem}

-- A session that finds every frame unencrypted and counts nothing.
abbrev pub open_session : DaveSession ℕ
open_session = record {
  encrypt_opus = λ frame s. (some frame, s);
  encrypt_h264 = λ frame s. (some frame, s);
  decrypt = λ sender media frame s. (unencrypted, s);
  set_passthrough_mode = λ on expiry s. expiry;
  process_welcome = λ message s. (true, s);
  process_commit = λ message s. (true, s);
  is_ready = λ s. true;
  reinit = λ pv user channel s. (true, s);
  create_key_package = λ s. (some [], s);
}

abbrev pub manager : DaveManager ℕ
manager = record {
  session = 0;
  ready = true;
  user_id = 9;
  channel_id = 2;
  protocol_version = 1;
  pending_transitions = (4, 1) ∷ (5, 0) ∷ [];
  last_transition_id = 3;
  consecutive_failures = 0;
  reinitializing = false;
  pending_downgrade_since = some 1000;
  unencrypted_passthrough_count = 0;
  total_decrypt_failures = 0;
}

execute-prepare_transition_example :
    let (announce, prepared) = prepare_transition open_session manager 2000 6 0 in
    let (executed, after) = execute_transition open_session prepared 6 in
    (announce ≡ true)
    × (executed ≡ announce)
    × (after.protocol_version ≡ 0)
    × (lookup 6 after.pending_transitions ≡ none)
    × (after.last_transition_id ≡ 6)
    × (after.reinitializing ≡ false)
execute-prepare_transition_example = execute-prepare_transition open_session manager 2000 6 0

maybe_auto_execute_downgrade_lem_example :
    Executed open_session manager 1000 4000 (maybe_auto_execute_downgrade open_session manager 4000)
unfolding lookup
maybe_auto_execute_downgrade_lem_example =
    maybe_auto_execute_downgrade_lem open_session manager 1000 4000 5
      (unfold IsMap in (refl, (refl, tt))) refl refl

decrypt_media_lem_example :
    Admitted open_session manager 42 video
      (0 ∷ 0 ∷ 1 ∷ 101 ∷ 9 ∷ [])
      (decrypt_media open_session manager 42 video (0 ∷ 0 ∷ 1 ∷ 101 ∷ 9 ∷ [])).0
decrypt_media_lem_example =
    decrypt_media_lem open_session manager 42 video (0 ∷ 0 ∷ 1 ∷ 101 ∷ 9 ∷ [])
