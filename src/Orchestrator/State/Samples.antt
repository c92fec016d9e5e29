-- ===== src/Orchestrator/State/Samples.antt =====
-- The state manager on small inputs, with a dict for Redis.
use Prim.Native.String.{◌++◌ as append}
use cyber_security_platform.Prelude.{
  ℕ, String, Bool, false, none, some, [], ◌∷◌, ◌≡◌, refl, String-IsKey,
}
use cyber_security_platform.Prelude.Dict
use cyber_security_platform.Prelude.Dict.{Dict, get-put, get-remove}
use cyber_security_platform.Orchestrator.State.{
  plain, snapshot, Stored, stored, States, nil, cons, Store, StateManager, accepted, conflict,
  type_error, with_meta, notified, conflicts, set_state, get_state, collect, create_snapshot,
  restore_states, restore_snapshot,
}
use cyber_security_platform.Orchestrator.State.Versions.{Refused, set_state_versioned}
use cyber_security_platform.Orchestrator.State.Snapshots.{latest, restore_snapshot_lem}

program : Unit {0}
unfolding Dict.get Dict.put Dict.remove Dict.get_default notified with_meta conflicts set_state
    get_state collect create_snapshot restore_states restore_snapshot latest
program = tt

abbrev redis : Store ℕ (Dict String (Stored ℕ))
redis = record {
  get = Dict.get;
  set = Dict.put;
  delete = Dict.remove;
  keys = λ pattern s. Dict.keys s;
  get-set = λ k j v s. get-put k j v s;
  get-delete = λ k j s. get-remove k j s;
}

abbrev silent : String → Bool
silent l = false

abbrev start : StateManager ℕ (Dict String (Stored ℕ))
start = record { redis = some []; cache = []; listeners = [] }

abbrev written_once : StateManager ℕ (Dict String (Stored ℕ))
written_once = (set_state redis silent 1 "a" (plain 7) none start).1

abbrev held : Dict String (Stored ℕ)
held = ("a", stored (plain 7) 1 1 none) ∷ []

held_there : written_once.redis ≡ some held
unfolding program
held_there = refl

stale_refused : (set_state redis silent 2 "a" (plain 8) (some 4) written_once).0 ≡ conflict
unfolding program
stale_refused = refl

-- A write that expects the version that is there raises an exception.
fitting_raises : (set_state redis silent 2 "a" (plain 8) (some 1) written_once).0 ≡ type_error
unfolding program
fitting_raises = refl

set_state_versioned_example :
    let (answer, m') = set_state redis silent 2 "a" (plain 8) (some 1) written_once in
    Refused redis silent 2 "a" 1 held answer
    × (m'.redis ≡ some held)
    × ((get_state redis "a" m').0 ≡ some (stored (plain 8) 2 2 (some 1)))
set_state_versioned_example =
    set_state_versioned redis silent 2 "a" (plain 8) 1 held written_once held_there

abbrev taken : StateManager ℕ (Dict String (Stored ℕ))
taken = (create_snapshot redis silent 3 "3.0" "x" written_once).2

abbrev changed : StateManager ℕ (Dict String (Stored ℕ))
changed = (set_state redis silent 4 "a" (plain 9) (some 1) taken).1

abbrev states : States ℕ
states = cons "a" (stored (plain 7) 1 1 none) nil

snapshot_found :
    (get_state redis (append "snapshot:" "snapshot_x_3.0") changed).0
    ≡ some (stored (snapshot "x" 3 states) 1 3 none)
unfolding program
snapshot_found = refl

last_state : latest "a" states ≡ some (stored (plain 7) 1 1 none)
unfolding program
last_state = refl

restore_snapshot_lem_example :
    let (answer, m') = restore_snapshot redis silent 5 "snapshot_x_3.0" changed in
    (answer ≡ some accepted) × ((get_state redis "a" m').0 ≡ some (stored (plain 7) 1 5 none))
restore_snapshot_lem_example =
    restore_snapshot_lem redis silent 5 (λ l. refl) "snapshot_x_3.0" "a" "x" 3 states
      (stored (snapshot "x" 3 states) 1 3 none) (stored (plain 7) 1 1 none) changed snapshot_found
      refl last_state
