-- ===== src/Recovery/CircuitBreaker/Effect.antt =====
-- What each method of the breaker does to the circuit of its name, and to the others.
pub mod Steps
use mathlib.Core.Path.{subst₂}
use text.Mathlib.Text.{◌==◌ as str_eq}
use cyber_security_platform.Prelude.{
  ◌⊎◌, ℕ, ◌+◌, String, none, some, ◌≡◌, ◌≢◌, refl, ap, ◌∙◌, arith, ltb, leb, if◌then◌else◌,
  String-IsKey, Option-cases, Bool-cases, inl, inr,
}
use cyber_security_platform.Prelude.Dict
use cyber_security_platform.Recovery.CircuitBreaker.Fields.{
  State, closed, opened, half_open, Circuit, fresh, recovery_timeout_elapsed, as_opened, as_closed,
  as_half_open, as_reset,
}
use cyber_security_platform.Recovery.CircuitBreaker.{
  CircuitBreaker, store, get_circuit, open_circuit, close_circuit, transition_to_half_open,
  can_execute, after_success, after_failure, dispatch, record_success, record_failure,
  record_timeout, reset_circuit, get_state,
}
pub use cyber_security_platform.Recovery.CircuitBreaker.Effect.Steps.{
  Sets, store-Sets, Sets-Sets, Sets-cases, success_step, failure_step, timed_out,
}
unfoldable pub use cyber_security_platform.Recovery.CircuitBreaker.Effect.Steps.{
  current, settle_success, settle_failure, admit,
}

module _ (name : String) (now : ℕ) where
  get_circuit-fst : (b : CircuitBreaker) → (get_circuit name now b).0 ≡ current name now b
  unfolding get_circuit current
  get_circuit-fst b = ground arith

  pub current-found :
      (c : Circuit) (b : CircuitBreaker)
      → Dict.get name b.circuits ≡ some c
      → current name now b ≡ c
  unfolding current
  current-found c b found = rw (found, current)

  pub Sets-current :
      {c : Circuit} {b b' : CircuitBreaker} → Sets name c b b' → current name now b' ≡ c
  unfolding current
  Sets-current s = rw (s.here, current)

  get_circuit-Sets :
      (b : CircuitBreaker) → Sets name (current name now b) b (get_circuit name now b).1
  unfolding get_circuit current
  get_circuit-Sets b = elim (Option-cases (Dict.get name b.circuits)) [
    | inl new ↦ rw (new, get_circuit, current) (store-Sets name (fresh now) b)
    | inr (c, old) ↦
        rw (old, get_circuit, current)
          (record { here = old; elsewhere = λ other h. refl; config = refl })
  ]

  get_circuit-store :
      (c : Circuit) (b : CircuitBreaker)
      → get_circuit name now (store name c b) ≡ (c, store name c b)
  unfolding get_circuit
  get_circuit-store c b = rw ((store-Sets name c b).here, get_circuit)

  get_circuit-found :
      (c : Circuit) (b : CircuitBreaker)
      → Dict.get name b.circuits ≡ some c
      → get_circuit name now b ≡ (c, b)
  unfolding get_circuit
  get_circuit-found c b h = rw (h, get_circuit)

  open_circuit-store :
      (c : Circuit) (b : CircuitBreaker)
      → Sets name (as_opened now c) b (open_circuit name now (store name c b))
  unfolding open_circuit
  open_circuit-store c b =
      rw get_circuit-store (Sets-Sets name (store-Sets name c b) (store-Sets name _ _))

  close_circuit-store :
      (c : Circuit) (b : CircuitBreaker)
      → Sets name (as_closed now c) b (close_circuit name now (store name c b))
  unfolding close_circuit
  close_circuit-store c b =
      rw get_circuit-store (Sets-Sets name (store-Sets name c b) (store-Sets name _ _))

  transition_to_half_open-Sets :
      (c : Circuit) (b : CircuitBreaker)
      → Dict.get name b.circuits ≡ some c
      → Sets name (as_half_open now c) b (transition_to_half_open name now b)
  unfolding transition_to_half_open
  transition_to_half_open-Sets c b h = rw (get_circuit-found c b h) (store-Sets name _ b)

  -- The tests on the state that follow the counting.
  after_success-Sets :
      (st : State) (c : Circuit) (b : CircuitBreaker)
      → Sets name
          (settle_success b.config now st c)
          b
          (after_success name now st c (store name c b))
  unfolding after_success settle_success store
  after_success-Sets half_open c b =
      elim (Bool-cases (leb b.config.success_threshold c.consecutive_successes)) [
        | inl e ↦ rw e (close_circuit-store c b)
        | inr e ↦ rw e (store-Sets name c b)
      ]
  after_success-Sets _ c b = store-Sets name c b

  after_failure-Sets :
      (st : State) (c : Circuit) (b : CircuitBreaker)
      → Sets name
          (settle_failure b.config now st c)
          b
          (after_failure name now st c (store name c b))
  unfolding after_failure settle_failure store
  after_failure-Sets half_open c b = open_circuit-store c b
  after_failure-Sets closed c b =
      elim (Bool-cases (leb b.config.failure_threshold c.consecutive_failures)) [
        | inl e ↦ rw e (open_circuit-store c b)
        | inr e ↦ rw e (store-Sets name c b)
      ]
  after_failure-Sets opened c b = store-Sets name c b

  dispatch-Sets :
      (st : State) (c : Circuit) (b : CircuitBreaker)
      → Dict.get name b.circuits ≡ some c
      → ((dispatch name now st c b).0 ≡ (admit b.config now st c).0)
        × Sets name (admit b.config now st c).1 b (dispatch name now st c b).1
  unfolding dispatch admit
  dispatch-Sets closed c b h = (refl, record { here = h; elsewhere = λ o n. refl; config = refl })
  dispatch-Sets opened c b h = elim (Bool-cases (recovery_timeout_elapsed b.config now c)) [
    | inl e ↦ rw e (refl, transition_to_half_open-Sets c b h)
    | inr e ↦ rw e (refl, record { here = h; elsewhere = λ o n. refl; config = refl })
  ]
  dispatch-Sets half_open c b h =
      elim (Bool-cases (ltb c.half_open_calls b.config.half_open_max_calls)) [
        | inl e ↦ rw e (refl, store-Sets name _ b)
        | inr e ↦ rw e (refl, record { here = h; elsewhere = λ o n. refl; config = refl })
      ]

-- A recorded success moves the circuit of its name by `success_step`, and leaves the others alone.
pub record_success-Sets :
    (name : String) (now : ℕ) (b : CircuitBreaker)
    → Sets name (success_step b.config now (current name now b)) b (record_success name now b)
unfolding record_success
record_success-Sets name now b =
    let found = get_circuit-Sets name now b in
    subst₂ (λ g c. Sets name (success_step g now c) b (record_success name now b)) found.config
      (get_circuit-fst name now b)
      (Sets-Sets name found (after_success-Sets name now _ _ (get_circuit name now b).1))

-- A recorded failure moves the circuit of its name by `failure_step`, and leaves the others alone.
pub record_failure-Sets :
    (name : String) (now : ℕ) (b : CircuitBreaker)
    → Sets name (failure_step b.config now (current name now b)) b (record_failure name now b)
unfolding record_failure
record_failure-Sets name now b =
    let found = get_circuit-Sets name now b in
    subst₂ (λ g c. Sets name (failure_step g now c) b (record_failure name now b)) found.config
      (get_circuit-fst name now b)
      (Sets-Sets name found (after_failure-Sets name now _ _ (get_circuit name now b).1))

-- A timeout moves the circuit of its name, or a fresh one, by the step of a failure, after it has
-- counted the timeout; the other circuits and the configuration stay as they were.
pub record_timeout-Sets :
    (name : String) (now : ℕ) (b : CircuitBreaker)
    → Sets name
        (failure_step b.config now (timed_out (current name now b)))
        b
        (record_timeout name now b)
unfolding record_timeout
record_timeout-Sets name now b =
    let found = get_circuit-Sets name now b in
    let c = (get_circuit name now b).0 in
    let b' = (get_circuit name now b).1 in
    let marked = store-Sets name (timed_out c) b' in
    let failed = record_failure-Sets name now (store name (timed_out c) b') in
    subst₂ (λ g d. Sets name (failure_step g now d) b (record_timeout name now b))
      (marked.config ∙ found.config)
      (Sets-current name now marked ∙ ap timed_out (get_circuit-fst name now b))
      (Sets-Sets name (Sets-Sets name found marked) failed)

-- `can_execute` answers and moves the circuit of its name by `admit`, and leaves the others alone.
pub can_execute-Sets :
    (name : String) (now : ℕ) (b : CircuitBreaker)
    → let c = current name now b in
      ((can_execute name now b).0 ≡ (admit b.config now c.state c).0)
      × Sets name (admit b.config now c.state c).1 b (can_execute name now b).1
unfolding can_execute
can_execute-Sets name now b =
    let found = get_circuit-Sets name now b in
    let c = (get_circuit name now b).0 in
    let b' = (get_circuit name now b).1 in
    let same = get_circuit-fst name now b in
    let (answer, moved) = dispatch-Sets name now c.state c b' (rw same found.here) in
    subst₂
      (λ g d.
        ((can_execute name now b).0 ≡ (admit g now d.state d).0)
        × Sets name (admit g now d.state d).1 b (can_execute name now b).1)
      found.config same (answer, Sets-Sets name found moved)

-- `get_state` makes a fresh circuit for a name that has none, and moves nothing.
pub get_state-Sets :
    (name : String) (now : ℕ) (b : CircuitBreaker)
    → Sets name (current name now b) b (get_state name now b).1
unfolding get_state
get_state-Sets name now b = get_circuit-Sets name now b

-- A reset of a circuit that exists moves it by `as_reset`, and leaves the others alone.
pub reset_circuit-Sets :
    (name : String) (now : ℕ) (b : CircuitBreaker) {c : Circuit}
    → Dict.get name b.circuits ≡ some c
    → Sets name (as_reset now c) b (reset_circuit name now b)
unfolding reset_circuit
reset_circuit-Sets name now b h = rw (h, reset_circuit) (store-Sets name _ b)

-- A reset of a name that has no circuit changes nothing.
pub reset_circuit_missing :
    (name : String) (now : ℕ) (b : CircuitBreaker)
    → Dict.get name b.circuits ≡ none
    → reset_circuit name now b ≡ b
unfolding reset_circuit
reset_circuit_missing name now b h = rw (h, reset_circuit)
