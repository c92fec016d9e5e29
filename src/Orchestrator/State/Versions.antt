-- ===== src/Orchestrator/State/Versions.antt =====
-- What a write with an expected version does in src/orchestrator/state_manager.py, with Redis.
use cyber_security_platform.Prelude.{
  ℕ, ◌+◌, String, Bool, true, false, Option, none, some, ◌≡◌, ◌≢◌, ◌⊎◌, inl, inr, refl, ◌∙◌, ap,
  arith, nat_beq, nat_beq_iff, String-IsKey, Option-cases, Bool-cases,
}
use cyber_security_platform.Prelude.Dict
use cyber_security_platform.Prelude.Dict.{Dict, get-put_self}
use cyber_security_platform.Orchestrator.State.{
  Content, Stored, stored, version_of, Store, StateManager, Written, conflict, type_error,
  with_meta, conflicts, set_state, get_state,
}

module _ {V S : Type 0} (store : Store V S) (raises : String → Bool) (now : ℕ) (key : String) where
  -- What a write with an expected version does, with Redis: it ends in False or in TypeError.
  pub data Refused (version : ℕ) (s : S) (answer : Written) : Type 0 where
    other_version :
        (current : Stored V)
        → store.get key s ≡ some current
        → version_of current ≢ version
        → answer ≡ conflict
        → Refused version s answer
    fits :
        (store.get key s ≡ none)
          ⊎ ((current : Stored V) × (store.get key s ≡ some current)
              × (version_of current ≡ version))
        → answer ≡ type_error
        → Refused version s answer

  set_state_conflict :
      (value : Content V) (version : ℕ) (s : S) (m : StateManager V S)
      → m.redis ≡ some s
      → conflicts store key version s ≡ true
      → (set_state store raises now key value (some version) m).0 ≡ conflict
  unfolding set_state
  set_state_conflict value version s m there clash = ground arith

  set_state_type_error :
      (value : Content V) (version : ℕ) (s : S) (m : StateManager V S)
      → m.redis ≡ some s
      → conflicts store key version s ≡ false
      → (set_state store raises now key value (some version) m).0 ≡ type_error
  unfolding set_state
  set_state_type_error value version s m there free = ground arith

  set_state_redis :
      (value : Content V) (version : ℕ) (s : S) (m : StateManager V S)
      → m.redis ≡ some s
      → (set_state store raises now key value (some version) m).1.redis ≡ some s
  unfolding set_state
  set_state_redis value version s m there = ground arith

  set_state-Refused :
      (value : Content V) (version : ℕ) (s : S) (m : StateManager V S)
      → m.redis ≡ some s
      → Refused version s (set_state store raises now key value (some version) m).0
  unfolding conflicts
  set_state-Refused value version s m there = elim (Option-cases (store.get key s)) [
    | inl missing ↦
        fits (inl missing)
          (set_state_type_error value version s m there (rw (missing, conflicts) refl))
    | inr (current, found) ↦ elim (Bool-cases (nat_beq (version_of current) version)) [
      | inl same ↦
          fits (inr (current, found, (nat_beq_iff (version_of current) version).0 same))
            (set_state_type_error value version s m there (rw (found, conflicts, same) refl))
      | inr differs ↦
          other_version current found (ground arith)
            (set_state_conflict value version s m there (rw (found, conflicts, differs) refl))
    ]
  ]

  pub set_state_cache :
      (value : Content V) (version : Option ℕ) (m : StateManager V S)
      → (set_state store raises now key value version m).1.cache
        ≡ Dict.put key (with_meta now value version) m.cache
  unfolding set_state
  set_state_cache value version m = ground arith

  pub get_state_cached :
      (m : StateManager V S) (v : Stored V)
      → Dict.get key m.cache ≡ some v
      → (get_state store key m).0 ≡ some v
  unfolding get_state
  get_state_cached m v here = ground arith

  -- A refused write is in the cache all the same, and the next read returns it.
  pub get_state-set_state :
      (value : Content V) (version : Option ℕ) (m : StateManager V S)
      → (get_state store key (set_state store raises now key value version m).1).0
        ≡ some (with_meta now value version)
  unfolding set_state get_state
  get_state-set_state value version m =
      get_state_cached (set_state store raises now key value version m).1
        (with_meta now value version)
        (ap (Dict.get key) (set_state_cache value version m)
          ∙ get-put_self key (with_meta now value version) m.cache)

  -- With Redis, a write with an expected version is never stored: it ends in False if Redis has a
  -- state of another version, and in TypeError if it has none or one of this version; Redis stays
  -- as it was in both cases, and the next read of the key returns the value that was not stored, as
  -- the next version.
  pub set_state_versioned :
      (value : Content V) (version : ℕ) (s : S) (m : StateManager V S)
      → m.redis ≡ some s
      → let (answer, m') = set_state store raises now key value (some version) m in
        Refused version s answer
        × (m'.redis ≡ some s)
        × ((get_state store key m').0 ≡ some (stored value (version + 1) now (some version)))
  unfolding with_meta
  set_state_versioned value version s m there = (
    set_state-Refused value version s m there,
    set_state_redis value version s m there,
    get_state-set_state value (some version) m,
  )
