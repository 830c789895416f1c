-- ===== src/Dave.antt =====
-- src/dave.rs: `DaveManager`, the end-to-end encryption of a voice session. The `DaveSession` of the
-- crate davey is a parameter, a type `S` with the operations that the code calls.
pub mod Transitions
pub mod Decrypt
use clankvox.Base.{
  ℕ, ◌+◌, ◌-◌, ◌/◌, ◌%◌, Bool, true, false, not, ◌&&◌, ◌||◌, Option, none, some, List, [], ◌∷◌, ltb,
  leb, ◌==◌, if◌then◌else◌, length, take, drop, get_or, is_empty, is_some, contains,
}
use clankvox.Base.Bytes.{u32_mod}

abbrev pub pending_downgrade_auto_execute_secs : ℕ
pending_downgrade_auto_execute_secs = 3

pub data MediaType : Type 0 where
  audio video : MediaType

-- The result of `DaveSession::decrypt`: `UnencryptedWhenPassthroughDisabled` is `unencrypted`.
pub data Decrypted : Type 0 where
  plain : List ℕ → Decrypted
  unencrypted no_decryptor_for_user decryption_failed : Decrypted

-- The calls of the crate; a `Bool` says whether the call succeeded.
pub record DaveSession (S : Type 0) : Type 0 where
  pub encrypt_opus : List ℕ → S → Option (List ℕ) × S
  pub encrypt_h264 : List ℕ → S → Option (List ℕ) × S
  pub decrypt : ℕ → MediaType → List ℕ → S → Decrypted × S
  pub set_passthrough_mode : Bool → ℕ → S → S
  pub process_welcome : List ℕ → S → Bool × S
  pub process_commit : List ℕ → S → Bool × S
  pub is_ready : S → Bool
  pub reinit : ℕ → ℕ → ℕ → S → Bool × S
  pub create_key_package : S → Option (List ℕ) × S

-- `pending_transitions` is a list of entries, without two of the same id.
pub record DaveManager (S : Type 0) : Type 0 where
  pub session : S
  pub ready : Bool
  pub user_id : ℕ
  pub channel_id : ℕ
  pub protocol_version : ℕ
  pub pending_transitions : List (ℕ × ℕ)
  pub last_transition_id : ℕ
  pub consecutive_failures : ℕ
  pub reinitializing : Bool
  pub pending_downgrade_since : Option ℕ
  pub unencrypted_passthrough_count : ℕ
  pub total_decrypt_failures : ℕ

unfoldable pub lookup : ℕ → List (ℕ × ℕ) → Option ℕ
lookup id [] = none
lookup id ((other, pv) ∷ entries) = if other == id then some pv else lookup id entries

unfoldable pub remove : ℕ → List (ℕ × ℕ) → List (ℕ × ℕ)
remove id [] = []
remove id ((other, pv) ∷ entries) =
    let rest = remove id entries in if other == id then rest else (other, pv) ∷ rest

abbrev pub insert : ℕ → ℕ → List (ℕ × ℕ) → List (ℕ × ℕ)
insert id pv entries = (id, pv) ∷ remove id entries

-- the first entry with version 0
unfoldable pub find_downgrade : List (ℕ × ℕ) → Option ℕ
find_downgrade [] = none
find_downgrade ((id, pv) ∷ entries) = if pv == 0 then some id else find_downgrade entries

abbrev same_bytes : ℕ → List ℕ → Bool
same_bytes first [] = true
same_bytes first (b ∷ bytes) = b == first && same_bytes first bytes

-- Where the first NAL unit begins, behind a start code.
abbrev pub nal_start_of : List ℕ → Option ℕ
nal_start_of frame =
    if leb 4 (length frame)
      && (get_or frame 0 0 == 0
          && (get_or frame 1 0 == 0 && (get_or frame 2 0 == 0 && get_or frame 3 0 == 1)))
    then some 4
    else if leb 3 (length frame)
        && (get_or frame 0 0 == 0 && (get_or frame 1 0 == 0 && get_or frame 2 0 == 1))
    then some 3
    else none

abbrev pub known_nal_type : ℕ → Bool
known_nal_type t = (leb 1 t && leb t 12) || (t == 24 || t == 28)

-- The last 16 bytes are one repeated byte that is not 0.
abbrev pub repeated_tail : List ℕ → Bool
repeated_tail frame =
    let tail = drop (length frame - 16) frame in
    leb 32 (length frame) && (not (get_or tail 0 0 == 0) && same_bytes (get_or tail 0 0) tail)

unfoldable pub looks_like_valid_h264 : List ℕ → Bool
looks_like_valid_h264 frame = elim (nal_start_of frame) [
  | none ↦ false
  | some nal_start ↦
      ltb nal_start (length frame)
      && (known_nal_type (get_or frame nal_start 0 % 32) && not (repeated_tail frame))
]

module _ {S : Type 0} (dave : DaveSession S) where
  abbrev with_session : DaveManager S → Option (List ℕ) × S → Option (List ℕ) × DaveManager S
  with_session m (result, session) = (result, record m { session = session })

  unfoldable pub encrypt_opus : DaveManager S → List ℕ → Option (List ℕ) × DaveManager S
  encrypt_opus m frame =
      if not m.ready || m.protocol_version == 0
      then (some frame, m)
      else with_session m (dave.encrypt_opus frame m.session)

  unfoldable pub encrypt_video : DaveManager S → List ℕ → Option (List ℕ) × DaveManager S
  encrypt_video m frame =
      if not m.ready || m.protocol_version == 0
      then (some frame, m)
      else with_session m (dave.encrypt_h264 frame m.session)

  abbrev failed : DaveManager S → DaveManager S
  failed m = record m {
    consecutive_failures = (m.consecutive_failures + 1) % u32_mod;
    total_decrypt_failures = (m.total_decrypt_failures + 1) % u32_mod;
  }

  abbrev pub accept_plain : MediaType → List ℕ → Option (List ℕ)
  accept_plain audio frame = some frame
  accept_plain video frame = if looks_like_valid_h264 frame then some frame else none

  -- Version 0: DAVE is disabled.
  abbrev pub decrypted_disabled :
      DaveManager S → List ℕ → Decrypted → Option (List ℕ) × DaveManager S
  decrypted_disabled m frame (plain bytes) = (some bytes, record m { consecutive_failures = 0 })
  decrypted_disabled m frame unencrypted = (some frame, m)
  decrypted_disabled m frame no_decryptor_for_user = (none, m)
  decrypted_disabled m frame decryption_failed = (none, m)

  abbrev pub decrypted_enabled :
      DaveManager S → MediaType → List ℕ → Decrypted → Option (List ℕ) × DaveManager S
  decrypted_enabled m media frame (plain bytes) =
      (some bytes, record m { consecutive_failures = 0 })
  decrypted_enabled m media frame unencrypted = (
    accept_plain media frame,
    record m {
      consecutive_failures = 0;
      unencrypted_passthrough_count = (m.unencrypted_passthrough_count + 1) % u32_mod;
    },
  )
  decrypted_enabled m media frame no_decryptor_for_user = (none, failed m)
  decrypted_enabled m media frame decryption_failed = (none, failed m)

  unfoldable pub decrypt_media :
      DaveManager S → ℕ → MediaType → List ℕ → Option (List ℕ) × DaveManager S
  decrypt_media m sender media frame =
      let (result, session) = dave.decrypt sender media frame m.session in
      let m' = record m { session = session } in
      if not m.ready
      then (some frame, m)
      else if m.protocol_version == 0
      then decrypted_disabled m' frame result
      else decrypted_enabled m' media frame result

  -- What `execute_transition` does with the version that it removed.
  abbrev pub execute_to : DaveManager S → ℕ → Option ℕ → Bool × DaveManager S
  execute_to m id none = (false, m)
  execute_to m id (some new_pv) = (
    true,
    record m {
      pending_transitions = remove id m.pending_transitions;
      protocol_version = new_pv;
      pending_downgrade_since =
          if not (m.protocol_version == new_pv) && new_pv == 0
          then none
          else m.pending_downgrade_since;
      session =
          if not (m.protocol_version == new_pv) && new_pv == 0
          then m.session
          else if ltb 0 id && ltb 0 new_pv
          then dave.set_passthrough_mode true 10 m.session
          else m.session;
      reinitializing = false;
      last_transition_id = id;
    },
  )

  unfoldable pub execute_transition : DaveManager S → ℕ → Bool × DaveManager S
  execute_transition m id = execute_to m id (lookup id m.pending_transitions)

  -- `true`: the caller sends OP23.
  unfoldable pub prepare_transition : DaveManager S → ℕ → ℕ → ℕ → Bool × DaveManager S
  unfolding execute_transition
  prepare_transition m now id pv =
      let m' = record m { pending_transitions = insert id pv m.pending_transitions } in
      if id == 0
      then (false, (execute_transition m' id).1)
      else if pv == 0
      then (
        true,
        record m' {
          session = dave.set_passthrough_mode true 24 m'.session;
          pending_downgrade_since = some now;
        },
      )
      else (true, m')

  unfoldable pub store_pending_transition : DaveManager S → ℕ → DaveManager S
  store_pending_transition m id =
      if id == 0
      then record m { reinitializing = false; last_transition_id = 0 }
      else record m { pending_transitions = insert id m.protocol_version m.pending_transitions }

  unfoldable pub track_decrypt_failure : DaveManager S → Bool × DaveManager S
  track_decrypt_failure m =
      if m.reinitializing || not (is_empty m.pending_transitions)
      then (false, m)
      else (false, record m { consecutive_failures = (m.consecutive_failures + 1) % u32_mod })

  unfoldable pub execute_found : DaveManager S → Option ℕ → Option ℕ × DaveManager S
  execute_found m none = (none, record m { pending_downgrade_since = none })
  execute_found m (some id) = (some id, (execute_transition m id).1)

  unfoldable pub auto_execute : DaveManager S → ℕ → Option ℕ → Option ℕ × DaveManager S
  auto_execute m now none = (none, m)
  auto_execute m now (some since) =
      if ltb ((now - since) / 1000) pending_downgrade_auto_execute_secs
      then (none, m)
      else execute_found m (find_downgrade m.pending_transitions)

  unfoldable pub maybe_auto_execute_downgrade : DaveManager S → ℕ → Option ℕ × DaveManager S
  maybe_auto_execute_downgrade m now = auto_execute m now m.pending_downgrade_since

  abbrev after_message : DaveManager S → Bool × S → Bool × DaveManager S
  after_message m (true, session) =
      (true, record m { session = session; ready = dave.is_ready session })
  after_message m (false, session) = (false, record m { session = session })

  unfoldable pub process_welcome : DaveManager S → List ℕ → Bool × DaveManager S
  process_welcome m message = after_message m (dave.process_welcome message m.session)

  unfoldable pub process_commit : DaveManager S → List ℕ → Bool × DaveManager S
  process_commit m message = after_message m (dave.process_commit message m.session)

  abbrev pub RecoveryAction : Type 0
  RecoveryAction = ℕ × List ℕ

  abbrev with_key_package :
      DaveManager S → Option (List ℕ) × S → Option RecoveryAction × DaveManager S
  with_key_package m (none, session) = (none, record m { session = session })
  with_key_package m (some key_package, session) = (
    some (m.last_transition_id, key_package),
    record m {
      session = session;
      ready = false;
      reinitializing = true;
      consecutive_failures = 0;
      pending_transitions = [];
      pending_downgrade_since = none;
    },
  )

  abbrev after_reinit : DaveManager S → Bool × S → Option RecoveryAction × DaveManager S
  after_reinit m (true, session) = with_key_package m (dave.create_key_package session)
  after_reinit m (false, session) = (none, record m { session = session })

  unfoldable pub reinit : DaveManager S → Option RecoveryAction × DaveManager S
  reinit m =
      if m.protocol_version == 0
      then (none, m)
      else after_reinit m (dave.reinit m.protocol_version m.user_id m.channel_id m.session)

  abbrev pub has_pending_transition_id : DaveManager S → ℕ → Bool
  has_pending_transition_id m id = is_some (lookup id m.pending_transitions)
