-- ===== src/Recovery/CircuitBreaker.antt =====
-- src/recovery/circuit_breaker.py. A method takes the breaker and the clock's reading `now`, in
-- microseconds, and returns the new breaker. No method waits for anything, so one reading serves a call.
pub mod Fields
pub mod Effect
pub mod Runs
pub mod Invariant
pub mod Transitions
pub mod Admission
mod Samples
use cyber_security_platform.Prelude.{
  ℕ, ◌+◌, ◌*◌, String, Bool, true, false, not, Option, none, some, List, [], ◌∷◌, map, ltb, leb,
  if◌then◌else◌, length, filter_by, String-IsKey,
}
use cyber_security_platform.Prelude.Dict
use cyber_security_platform.Prelude.Dict.{Dict}
use Fields.{
  State, closed, opened, half_open, Config, ConfigKey, Circuit, Sample, default_config, configure,
  fresh, add_to_rolling_window, recovery_timeout_elapsed, as_opened, as_closed, as_half_open,
  as_reset, counted_success, counted_failure,
}

pub record CircuitBreaker : Type 0 where
  pub circuits : Dict String Circuit
  pub config : Config

-- `__init__`
abbrev pub init : CircuitBreaker
init = record { circuits = []; config = default_config }

module _ (name : String) where
  -- The dict that `_get_circuit` returns is the one that `self.circuits` holds: an assignment to
  -- one of its keys is a `store`.
  unfoldable pub store : Circuit → CircuitBreaker → CircuitBreaker
  store c b = record b { circuits = Dict.put name c b.circuits }

module _ (name : String) (now : ℕ) where
  unfoldable pub get_circuit : CircuitBreaker → Circuit × CircuitBreaker
  unfolding store
  get_circuit b = elim (Dict.get name b.circuits) [
    | none ↦ (fresh now, store name (fresh now) b)
    | some c ↦ (c, b)
  ]

  unfoldable pub open_circuit : CircuitBreaker → CircuitBreaker
  open_circuit b = let (c, b') = get_circuit b in store name (as_opened now c) b'

  pub close_circuit : CircuitBreaker → CircuitBreaker
  close_circuit b = let (c, b') = get_circuit b in store name (as_closed now c) b'

  pub transition_to_half_open : CircuitBreaker → CircuitBreaker
  transition_to_half_open b = let (c, b') = get_circuit b in store name (as_half_open now c) b'

  -- The branches of `can_execute` on the state.
  dispatch : State → Circuit → CircuitBreaker → Bool × CircuitBreaker
  dispatch closed c b = (true, b)
  dispatch opened c b =
      if recovery_timeout_elapsed b.config now c
      then (true, transition_to_half_open b)
      else (false, b)
  dispatch half_open c b =
      if ltb c.half_open_calls b.config.half_open_max_calls
      then (true, store name (record c { half_open_calls = c.half_open_calls + 1 }) b)
      else (false, b)

  unfoldable pub can_execute : CircuitBreaker → Bool × CircuitBreaker
  unfolding dispatch
  can_execute b = let (c, b') = get_circuit b in dispatch c.state c b'

  -- What `record_success` does in each state, once the success is counted.
  after_success : State → Circuit → CircuitBreaker → CircuitBreaker
  after_success half_open c b =
      if leb b.config.success_threshold c.consecutive_successes then close_circuit b else b
  after_success _ c b = b

  unfoldable pub record_success : CircuitBreaker → CircuitBreaker
  unfolding after_success
  record_success b =
      let (c, b') = get_circuit b in
      let c' = counted_success now c in after_success c'.state c' (store name c' b')

  after_failure : State → Circuit → CircuitBreaker → CircuitBreaker
  after_failure closed c b =
      if leb b.config.failure_threshold c.consecutive_failures then open_circuit b else b
  after_failure half_open c b = open_circuit b
  after_failure opened c b = b

  unfoldable pub record_failure : CircuitBreaker → CircuitBreaker
  unfolding after_failure
  record_failure b =
      let (c, b') = get_circuit b in
      let c' = counted_failure now c in after_failure c'.state c' (store name c' b')

  pub record_timeout : CircuitBreaker → CircuitBreaker
  record_timeout b =
      let (c, b') = get_circuit b in
      record_failure (store name (record c { timeouts = c.timeouts + 1 }) b')

  -- A name that has no circuit is left without one.
  pub reset_circuit : CircuitBreaker → CircuitBreaker
  reset_circuit b = elim (Dict.get name b.circuits) [
    | none ↦ b
    | some c ↦ store name (as_reset now c) b
  ]

pub update_config : List (ConfigKey × ℕ) → CircuitBreaker → CircuitBreaker
update_config updates b = record b { config = configure updates b.config }

-- The numbers of `get_state`. The error rate is the fraction `failed / sampled`, in per cent.
pub record Report : Type 0 where
  pub state : State
  pub total_requests : ℕ
  pub successes : ℕ
  pub failures : ℕ
  pub timeouts : ℕ
  pub failed_percent : ℕ
  pub sampled : ℕ

pub get_state : String → ℕ → CircuitBreaker → Report × CircuitBreaker
get_state name now b =
    let (c, b') = get_circuit name now b in
    (
      record {
        state = c.state;
        total_requests = c.successes + c.failures;
        successes = c.successes;
        failures = c.failures;
        timeouts = c.timeouts;
        failed_percent = length (filter_by (λ s. not s.success) c.rolling_window) * 100;
        sampled = length c.rolling_window;
      },
      b',
    )

-- `get_all_states`, over the circuits that exist.
pub get_all_states : ℕ → CircuitBreaker → List (String × Report)
get_all_states now b = map (λ e. (e.0, (get_state e.0 now b).0)) b.circuits
