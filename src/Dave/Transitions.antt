-- ===== src/Dave/Transitions.antt =====
-- src/dave.rs: transitions of the protocol version.
use clankvox.Base.{
  ℕ, ◌-◌, ◌/◌, ◌<◌, ◌≤◌, true, false, not, Option, none, some, List, [], ◌∷◌, ◌≡◌, refl, sym, subst,
  arith, ltb, ◌==◌, is_some, Bool-cases, inl, inr, ◌⊎◌,
}
use clankvox.Dave.{
  DaveSession, DaveManager, lookup, remove, insert, find_downgrade, execute_to, execute_found,
  auto_execute, execute_transition, prepare_transition, maybe_auto_execute_downgrade,
}

lookup-remove : (id : ℕ) (entries : List (ℕ × ℕ)) → lookup id (remove id entries) ≡ none
unfolding lookup remove
lookup-remove id [] = refl
lookup-remove id ((other, pv) ∷ entries) = ground (arith, lookup-remove id entries)

remove_twice : (id : ℕ) (entries : List (ℕ × ℕ)) → lookup id (remove id (remove id entries)) ≡ none
remove_twice id entries = lookup-remove id (remove id entries)

-- Each id has one entry, as in a `HashMap`.
unfoldable pub IsMap : List (ℕ × ℕ) → Type 0
IsMap [] = Unit
IsMap ((id, pv) ∷ entries) = (lookup id entries ≡ none) × IsMap entries

remove-none :
    (id other : ℕ) (entries : List (ℕ × ℕ))
    → lookup other entries ≡ none
    → lookup other (remove id entries) ≡ none
unfolding lookup remove
remove-none id other [] h = refl
remove-none id other ((first, pv) ∷ entries) h = ground (arith, remove-none id other entries)

remove-IsMap : (id : ℕ) (entries : List (ℕ × ℕ)) → IsMap entries → IsMap (remove id entries)
unfolding lookup remove IsMap
remove-IsMap id [] h = tt
remove-IsMap id ((first, pv) ∷ entries) h = elim (Bool-cases (first == id)) [
  | inl same ↦ rw same (remove-IsMap id entries h.1)
  | inr other ↦ rw other (remove-none id first entries h.0, remove-IsMap id entries h.1)
]

-- An announced transition takes the place of the entry with its id.
insert-IsMap : (id pv : ℕ) (entries : List (ℕ × ℕ)) → IsMap entries → IsMap (insert id pv entries)
unfolding IsMap
insert-IsMap id pv entries h = (lookup-remove id entries, remove-IsMap id entries h)

lookup-find_downgrade :
    (entries : List (ℕ × ℕ)) {id : ℕ}
    → IsMap entries
    → find_downgrade entries ≡ some id
    → lookup id entries ≡ some 0
unfolding lookup find_downgrade IsMap
lookup-find_downgrade [] h e = absurd (ground arith)
lookup-find_downgrade ((other, pv) ∷ entries) {id = id} h e =
    ground (arith, h.0, lookup-find_downgrade entries {id = id} h.1)

module _ {S : Type 0} (dave : DaveSession S) where
  -- A transition that is prepared and then executed takes effect, whatever was pending before: the
  -- execution succeeds, or the transition has the id 0 and took effect at once; then the version is the
  -- new one, the transition is no longer pending, its id is the last one, and a reinitialisation is over.
  -- The caller is told to announce readiness for exactly the ids other than 0.
  pub execute-prepare_transition :
      (m : DaveManager S) (now id pv : ℕ)
      → let (announce, prepared) = prepare_transition dave m now id pv in
        let (executed, after) = execute_transition dave prepared id in
        (announce ≡ not (id == 0))
        × (executed ≡ announce)
        × (after.protocol_version ≡ pv)
        × (lookup id after.pending_transitions ≡ none)
        × (after.last_transition_id ≡ id)
        × (after.reinitializing ≡ false)
  unfolding prepare_transition execute_transition lookup remove
  execute-prepare_transition m now id pv =
      let same : (id == id) ≡ true = ground arith in
      let gone = lookup-remove id m.pending_transitions in
      let gone_twice = remove_twice id m.pending_transitions in
      elim (Bool-cases (id == 0)) [
        | inl first ↦ rw (first, same) (ground (arith, gone, gone_twice))
        | inr other ↦ elim (Bool-cases (pv == 0)) [
          | inl down ↦ rw (other, down, same) (ground (arith, gone, gone_twice))
          | inr up ↦ rw (other, up, same) (ground (arith, gone, gone_twice))
        ]
      ]

-- An entry of version 0 is found wherever it stands.
find_downgrade-pending :
    (entries : List (ℕ × ℕ)) (id : ℕ)
    → lookup id entries ≡ some 0
    → is_some (find_downgrade entries) ≡ true
unfolding lookup find_downgrade
find_downgrade-pending [] id e = absurd (ground arith)
find_downgrade-pending ((other, pv) ∷ entries) id e = elim (Bool-cases (other == id)) [
  | inl here ↦ ground (arith, here)
  | inr there ↦ ground (arith, there, find_downgrade-pending entries id)
]

module _ {S : Type 0} (dave : DaveSession S) where
  execute_to-some :
      (m : DaveManager S) (id pv : ℕ) (found : Option ℕ)
      → found ≡ some pv
      → ((execute_to dave m id found).0 ≡ true)
        × ((execute_to dave m id found).1.last_transition_id ≡ id)
        × ((execute_to dave m id found).1.protocol_version ≡ pv)
        × (lookup id (execute_to dave m id found).1.pending_transitions ≡ none)
  execute_to-some m id pv none h = absurd (ground arith)
  execute_to-some m id pv (some new_pv) h = (
    refl,
    refl,
    (let q : new_pv ≡ pv = ground arith in q),
    lookup-remove id m.pending_transitions,
  )

  -- The transition `done`, a downgrade that was pending, has been executed.
  abbrev pub Downgraded : DaveManager S → Option ℕ × DaveManager S → Type 0
  Downgraded m r =
      (done : ℕ) × (r.0 ≡ some done)
      × (lookup done m.pending_transitions ≡ some 0)
      × (r.1.protocol_version ≡ 0)
      × (r.1.last_transition_id ≡ done)
      × (lookup done r.1.pending_transitions ≡ none)

  execute_found-some :
      (m : DaveManager S) (found : Option ℕ)
      → is_some found ≡ true
      → ((id : ℕ) → found ≡ some id → lookup id m.pending_transitions ≡ some 0)
      → Downgraded m (execute_found dave m found)
  unfolding execute_found execute_transition
  execute_found-some m none h k = absurd (ground arith)
  execute_found-some m (some id) h k =
      let (ran, last, version, gone) =
        execute_to-some m id 0 (lookup id m.pending_transitions) (k id refl) in
      (id, refl, k id refl, version, last, gone)

  -- Before 3 s nothing, then the execution of a pending downgrade.
  abbrev pub Executed : DaveManager S → ℕ → ℕ → Option ℕ × DaveManager S → Type 0
  Executed m since now r =
      ((now - since < 3000) × (r.0 ≡ none) × (r.1 ≡ m)) ⊎ ((3000 ≤ now - since) × Downgraded m r)

  auto_execute-Executed :
      (m : DaveManager S) (since now id : ℕ)
      → IsMap m.pending_transitions
      → lookup id m.pending_transitions ≡ some 0
      → Executed m since now (auto_execute dave m now (some since))
  unfolding auto_execute
  auto_execute-Executed m since now id map pending =
      elim (Bool-cases (ltb ((now - since) / 1000) 3)) [
        | inl early ↦ rw early (inl (ground arith, refl, refl))
        | inr late ↦ rw late (
            inr (
              ground arith,
              execute_found-some m (find_downgrade m.pending_transitions)
                  (find_downgrade-pending m.pending_transitions id pending)
                  (λ found e. lookup-find_downgrade m.pending_transitions map e),
            ))
      ]

  -- A downgrade that waits for its execution is not waited for longer than 3 s, when each transition
  -- has one entry: before that time `maybe_auto_execute_downgrade` changes nothing. From then on, as
  -- long as some transition to version 0 is pending, it executes one of these and reports its id: the
  -- version is 0, the transition is the last one, and it is no longer pending.
  pub maybe_auto_execute_downgrade_lem :
      (m : DaveManager S) (since now id : ℕ)
      → IsMap m.pending_transitions
      → m.pending_downgrade_since ≡ some since
      → lookup id m.pending_transitions ≡ some 0
      → Executed m since now (maybe_auto_execute_downgrade dave m now)
  unfolding maybe_auto_execute_downgrade
  maybe_auto_execute_downgrade_lem m since now id map e pending =
      subst (λ slot. Executed m since now (auto_execute dave m now slot)) (sym e)
        (auto_execute-Executed m since now id map pending)
