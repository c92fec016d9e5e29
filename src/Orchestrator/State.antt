-- ===== src/Orchestrator/State.antt =====
-- src/orchestrator/state_manager.py. Redis is an interface, `Store`: the commands that the manager
-- sends and what it relies on; JSON texts stand for the values that they encode, and keys do not
-- expire. `V` is the type of the states of callers. A listener is named, `raises` says which of its calls
-- raise an exception, and listeners do not call the manager.
pub mod Versions
pub mod Snapshots
mod Samples
use Prim.Native.String.{◌++◌ as append}
use cyber_security_platform.Prelude.{
  ℕ, ◌+◌, String, Bool, true, false, Option, none, some, List, [], ◌∷◌, ◌++◌, ◌≡◌, nat_beq, any,
  if◌then◌else◌, ◌==◌, String-IsKey,
}
use cyber_security_platform.Prelude.Dict
use cyber_security_platform.Prelude.Dict.{Dict}

-- A stored state: what a caller or a snapshot gives, and its metadata. A snapshot holds states.
mutual
  pub data Content (V : Type 0) : Type 0 where
    plain : V → Content V
    snapshot : (execution : String) (created_at : ℕ) → States V → Content V

  pub data Stored (V : Type 0) : Type 0 where
    stored : Content V → (version updated_at : ℕ) (previous_version : Option ℕ) → Stored V

  pub data States (V : Type 0) : Type 0 where
    nil : States V
    cons : String → Stored V → States V → States V

abbrev pub content : {V : Type 0} → Stored V → Content V
content (stored c _ _ _) = c

abbrev pub version_of : {V : Type 0} → Stored V → ℕ
version_of (stored _ v _ _) = v

-- Redis: `get`, `set`, `delete` and `keys` of a pattern, and what they do to each other.
pub record Store (V S : Type 0) : Type 0 where
  pub get : String → S → Option (Stored V)
  pub set : String → Stored V → S → S
  pub delete : String → S → S
  pub keys : String → S → List String
  pub get-set :
      (k j : String) (v : Stored V) (s : S)
      → get j (set k v s) ≡ (if k == j then some v else get j s)
  pub get-delete : (k j : String) (s : S) → get j (delete k s) ≡ (if k == j then none else get j s)

pub record StateManager (V S : Type 0) : Type 0 where
  pub redis : Option S
  pub cache : Dict String (Stored V)
  pub listeners : Dict String (List String)

-- How `set_state` ends: True, False, the NameError of `logger`, which the file does not import, when a
-- listener raises an exception, or the TypeError of `await pipe.multi()`: `multi` of the pipelines of
-- redis.asyncio is a plain method that returns None, which cannot be awaited.
pub data Written : Type 0 where
  accepted conflict name_error type_error : Written

module _ {V : Type 0} where
  -- `(version or 0) + 1`
  unfoldable pub with_meta : (now : ℕ) → Content V → Option ℕ → Stored V
  with_meta now value none = stored value 1 now none
  with_meta now value (some v) = stored value (v + 1) now (some v)

module _ {V S : Type 0} where
  -- `_notify_listeners`
  unfoldable pub notified : (raises : String → Bool) → String → StateManager V S → Written
  notified raises key m =
      if any raises (Dict.get_default key [] m.listeners) then name_error else accepted

  unfoldable pub watch_state : String → String → StateManager V S → StateManager V S
  watch_state key listener m = record m {
    listeners = Dict.put key (Dict.get_default key [] m.listeners ++ listener ∷ []) m.listeners;
  }

module _ {V S : Type 0} (store : Store V S) where
  -- What Redis says to an expected version: a state of another version is there.
  unfoldable pub conflicts : String → ℕ → S → Bool
  conflicts key version s = elim (store.get key s) [
    | none ↦ false
    | some current ↦ if nat_beq (version_of current) version then false else true
  ]

  unfoldable pub get_state : String → StateManager V S → Option (Stored V) × StateManager V S
  get_state key m = elim (Dict.get key m.cache) [
    | some v ↦ (some v, m)
    | none ↦ elim m.redis [
      | none ↦ (none, m)
      | some s ↦ elim (store.get key s) [
        | none ↦ (none, m)
        | some v ↦ (some v, record m { cache = Dict.put key v m.cache })
      ]
    ]
  ]

  unfoldable pub delete_state : String → StateManager V S → StateManager V S
  delete_state key m = record m {
    cache = Dict.remove key m.cache;
    redis = elim m.redis [ none ↦ none | some s ↦ some (store.delete key s) ];
  }

  -- The states of these keys.
  unfoldable pub collect : List String → StateManager V S → States V × StateManager V S
  unfolding get_state
  collect [] m = (nil, m)
  collect (key ∷ keys) m =
      let (found, m1) = get_state key m in
      let (rest, m2) = collect keys m1 in
      (elim found [ none ↦ rest | some v ↦ cons key v rest ], m2)

  -- The present state alone.
  unfoldable pub get_state_history : String → StateManager V S → List (Stored V) × StateManager V S
  unfolding get_state
  get_state_history key m =
      let (found, m') = get_state key m in (elim found [ none ↦ [] | some v ↦ v ∷ [] ], m')

module _ {V S : Type 0} (store : Store V S) (raises : String → Bool) where
  unfoldable pub set_state :
      (now : ℕ)
      → String
      → Content V
      → (version : Option ℕ) → StateManager V S
      → Written × StateManager V S
  unfolding notified with_meta conflicts
  set_state now key value version m =
      let v = with_meta now value version in
      let cached = record m { cache = Dict.put key v m.cache } in
      elim m.redis [
        | none ↦ (notified raises key m, cached)
        | some s ↦ elim version [
          | none ↦ (notified raises key m, record cached { redis = some (store.set key v s) })
          | some expected ↦
              if conflicts store key expected s then (conflict, cached) else (type_error, cached)
        ]
      ]

  -- `stamp` is the text of the time in the identifier.
  unfoldable pub create_snapshot :
      (now : ℕ) (stamp execution : String) → StateManager V S → Written × String × StateManager V S
  unfolding collect set_state
  create_snapshot now stamp execution m =
      let id = append "snapshot_" (append execution (append "_" stamp)) in
      let keys : List String = elim m.redis [
        | none ↦ []
        | some s ↦ store.keys (append "state:" (append execution ":*")) s
      ] in
      let (states, m1) = collect store keys m in
      let (written, m2) =
        set_state now (append "snapshot:" id) (snapshot execution now states) none m1 in
      (written, id, m2)

  -- The writes of a restoration, up to the first exception.
  unfoldable pub restore_states :
      (now : ℕ) → States V → StateManager V S → Written × StateManager V S
  unfolding set_state
  restore_states now nil m = (accepted, m)
  restore_states now (cons key v states) m =
      let (written, m1) = set_state now key (content v) none m in
      let rest = restore_states now states m1 in
      elim written [
        | name_error ↦ (name_error, m1)
        | type_error ↦ (type_error, m1)
        | accepted ↦ rest
        | conflict ↦ rest
      ]

  -- False for a missing snapshot; a state that is no snapshot has no states.
  unfoldable pub restore_snapshot :
      (now : ℕ) → String → StateManager V S → Option Written × StateManager V S
  unfolding get_state restore_states
  restore_snapshot now id m =
      let (found, m1) = get_state store (append "snapshot:" id) m in
      elim found [
        | none ↦ (none, m1)
        | some v ↦ elim (content v) [
          | plain _ ↦ (some accepted, m1)
          | snapshot _ _ states ↦
              let (written, m2) = restore_states now states m1 in (some written, m2)
        ]
      ]
