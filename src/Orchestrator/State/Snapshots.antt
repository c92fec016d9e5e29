-- ===== src/Orchestrator/State/Snapshots.antt =====
-- What a restoration by src/orchestrator/state_manager.py brings back.
use cyber_security_platform.Prelude.{
  ℕ, String, Bool, false, Option, none, some, List, [], ◌∷◌, ◌≡◌, refl, ◌∙◌, ap, arith,
  if◌then◌else◌, ◌==◌, String-IsKey, any, Option-cases, Bool-cases, inl, inr,
}
use Prim.Native.String.{◌++◌ as append}
use cyber_security_platform.Prelude.Dict
use cyber_security_platform.Prelude.Dict.{Dict, get-put}
use cyber_security_platform.Orchestrator.State.{
  Content, snapshot, Stored, stored, States, nil, cons, content, Store, StateManager, Written,
  accepted, with_meta, notified, conflicts, set_state, get_state, restore_states, restore_snapshot,
}
use cyber_security_platform.Orchestrator.State.Versions.{set_state_cache, get_state_cached}

-- The last state of a key.
unfoldable pub latest : {V : Type 0} → String → States V → Option (Stored V)
latest key nil = none
latest key (cons k v states) = elim (latest key states) [
  | some w ↦ some w
  | none ↦ if k == key then some v else none
]

module _ {V S : Type 0} (store : Store V S) (raises : String → Bool) (now : ℕ)
    (calm : (l : String) → raises l ≡ false) where
  none_raise : (listeners : List String) → any raises listeners ≡ false
  none_raise [] = refl
  none_raise (l ∷ ls) = ground (arith, calm l, none_raise ls)

  set_state_unguarded :
      (key : String) (value : Content V) (m : StateManager V S)
      → (set_state store raises now key value none m).0 ≡ accepted
  unfolding set_state notified conflicts
  set_state_unguarded key value m = ground (arith, none_raise (Dict.get_default key [] m.listeners))

  -- What the restoration leaves of a key: its last state among these, as a first version.
  restored : String → States V → StateManager V S → Option (Stored V)
  restored key states m = elim (latest key states) [
    | some v ↦ some (stored (content v) 1 now none)
    | none ↦ Dict.get key m.cache
  ]

  restored_last :
      (key : String) (states : States V) (m : StateManager V S) (v : Stored V)
      → latest key states ≡ some v
      → restored key states m ≡ some (stored (content v) 1 now none)
  unfolding restored
  restored_last key states m v last = rw (last, restored) refl

  restore_states_step :
      (k : String) (v : Stored V) (states : States V) (m : StateManager V S)
      → restore_states store raises now (cons k v states) m
        ≡ restore_states store raises now states (set_state store raises now k (content v) none m).1
  unfolding restore_states
  restore_states_step k v states m = rw (set_state_unguarded k (content v) m, restore_states) refl

  -- One write more, before the others.
  restored-cons :
      (key k : String) (v : Stored V) (states : States V) (m : StateManager V S)
      → restored key states (set_state store raises now k (content v) none m).1
        ≡ restored key (cons k v states) m
  unfolding restored latest with_meta
  restored-cons key k v states m =
      let m1 = (set_state store raises now k (content v) none m).1 in
      let found : Dict.get key m1.cache
          ≡ (if k == key then some (stored (content v) 1 now none) else Dict.get key m.cache) =
        ap (Dict.get key) (set_state_cache store raises now k (content v) none m)
        ∙ get-put k key (with_meta now (content v) none) m.cache in
      elim (Option-cases (latest key states)) [
        | inr (w, later) ↦ rw (later, restored, latest) refl
        | inl nothing ↦ elim (Bool-cases (k == key)) [
          | inl same ↦ rw (nothing, same, restored, latest) (found ∙ rw same refl)
          | inr other ↦ rw (nothing, other, restored, latest) (found ∙ rw other refl)
        ]
      ]

  restore_states_lem :
      (key : String) (states : States V) (m : StateManager V S)
      → ((restore_states store raises now states m).0 ≡ accepted)
        × (Dict.get key (restore_states store raises now states m).1.cache ≡ restored key states m)
  unfolding restore_states restored latest
  restore_states_lem key nil m = (refl, refl)
  restore_states_lem key (cons k v states) m =
      let m1 = (set_state store raises now k (content v) none m).1 in
      let rest = restore_states_lem key states m1 in
      let step = restore_states_step k v states m in
      (
        ap (λ (r : Written × StateManager V S). r.0) step ∙ rest.0,
        ap (λ (r : Written × StateManager V S). Dict.get key r.1.cache) step
            ∙ rest.1
            ∙ restored-cons key k v states m,
      )

  -- While no listener raises an exception: the restoration of a snapshot that is found succeeds, and a
  -- read of any key whose state it holds returns the last state of that key with its content; its
  -- version is 1 again, whatever it was.
  pub restore_snapshot_lem :
      (id key execution : String) (taken : ℕ) (states : States V) (meta v : Stored V)
      (m : StateManager V S)
      → (get_state store (append "snapshot:" id) m).0 ≡ some meta
      → content meta ≡ snapshot execution taken states
      → latest key states ≡ some v
      → let (answer, m') = restore_snapshot store raises now id m in
        (answer ≡ some accepted)
        × ((get_state store key m').0 ≡ some (stored (content v) 1 now none))
  unfolding restore_snapshot
  restore_snapshot_lem id key execution taken states meta v m found holds last =
      let m1 = (get_state store (append "snapshot:" id) m).1 in
      let r = restore_states_lem key states m1 in
      rw (found, restore_snapshot, holds)
        (
          ap some r.0,
          get_state_cached store raises now key _ _ (r.1 ∙ restored_last key states m1 v last),
        )
