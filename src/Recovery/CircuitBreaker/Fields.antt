-- ===== src/Recovery/CircuitBreaker/Fields.antt =====
-- The state of one circuit (src/recovery/circuit_breaker.py) and the assignments to its keys.
use cyber_security_platform.Prelude.{
  ℕ, ◌+◌, ◌-◌, ◌*◌, Bool, true, false, Option, none, some, List, [], ◌∷◌, ◌++◌, ltb, leb,
  if◌then◌else◌, length, drop,
}

-- "CLOSED", "OPEN", "HALF_OPEN"
pub data State : Type 0 where
  closed opened half_open : State

pub record Config : Type 0 where
  pub failure_threshold : ℕ
  pub recovery_timeout : ℕ
  pub half_open_max_calls : ℕ
  pub success_threshold : ℕ
  pub timeout_duration : ℕ
  pub volume_threshold : ℕ

abbrev pub default_config : Config
default_config = record {
  failure_threshold = 5;
  recovery_timeout = 60;
  half_open_max_calls = 3;
  success_threshold = 2;
  timeout_duration = 30;
  volume_threshold = 10;
}

-- The keys of `self.config`.
pub data ConfigKey : Type 0 where
  failure_threshold recovery_timeout half_open_max_calls : ConfigKey
  success_threshold timeout_duration volume_threshold : ConfigKey

assign : ConfigKey → ℕ → Config → Config
assign failure_threshold n g = record g { failure_threshold = n }
assign recovery_timeout n g = record g { recovery_timeout = n }
assign half_open_max_calls n g = record g { half_open_max_calls = n }
assign success_threshold n g = record g { success_threshold = n }
assign timeout_duration n g = record g { timeout_duration = n }
assign volume_threshold n g = record g { volume_threshold = n }

-- `self.config.update(config_updates)`
unfoldable pub configure : List (ConfigKey × ℕ) → Config → Config
unfolding assign
configure [] g = g
configure ((key, n) ∷ updates) g = configure updates (assign key n g)

-- An entry of the rolling window.
pub record Sample : Type 0 where
  pub timestamp : ℕ
  pub success : Bool

pub record Circuit : Type 0 where
  pub state : State
  pub failures : ℕ
  pub successes : ℕ
  pub timeouts : ℕ
  pub consecutive_failures : ℕ
  pub consecutive_successes : ℕ
  pub last_failure_time : Option ℕ
  pub last_success_time : Option ℕ
  pub last_state_change : ℕ
  pub half_open_calls : ℕ
  pub rolling_window : List Sample
  pub response_times : List ℕ

-- The dict that `_get_circuit` makes for a new name.
abbrev pub fresh : ℕ → Circuit
fresh now = record {
  state = closed;
  failures = 0;
  successes = 0;
  timeouts = 0;
  consecutive_failures = 0;
  consecutive_successes = 0;
  last_failure_time = none;
  last_success_time = none;
  last_state_change = now;
  half_open_calls = 0;
  rolling_window = [];
  response_times = [];
}

-- `window[-100:]` of a window that is longer than 100.
unfoldable pub last_hundred : List Sample → List Sample
last_hundred window = if ltb 100 (length window) then drop (length window - 100) window else window

unfoldable pub add_to_rolling_window : ℕ → Bool → Circuit → Circuit
add_to_rolling_window now success c = record c {
  rolling_window =
      last_hundred (c.rolling_window ++ record { timestamp = now; success = success } ∷ []);
}

unfoldable pub recovery_timeout_elapsed : Config → ℕ → Circuit → Bool
recovery_timeout_elapsed g now c = elim c.last_failure_time [
  | none ↦ true
  | some t ↦ leb (t + g.recovery_timeout * 1_000_000) now
]

-- The assignments of `_open_circuit`.
unfoldable pub as_opened : ℕ → Circuit → Circuit
as_opened now c = record c { state = opened; last_state_change = now; half_open_calls = 0 }

-- The assignments of `_close_circuit`.
unfoldable pub as_closed : ℕ → Circuit → Circuit
as_closed now c = record c {
  state = closed;
  last_state_change = now;
  consecutive_failures = 0;
  half_open_calls = 0;
  failures = 0;
  successes = 0;
}

-- The assignments of `_transition_to_half_open`.
unfoldable pub as_half_open : ℕ → Circuit → Circuit
as_half_open now c = record c { state = half_open; last_state_change = now; half_open_calls = 0 }

-- The assignments of `reset_circuit`.
unfoldable pub as_reset : ℕ → Circuit → Circuit
as_reset now c = record c {
  state = closed;
  failures = 0;
  successes = 0;
  timeouts = 0;
  consecutive_failures = 0;
  consecutive_successes = 0;
  last_state_change = now;
  half_open_calls = 0;
  rolling_window = [];
}

-- The counters and the window in `record_success` and `record_failure`, before the state is read.
unfoldable pub counted_success : ℕ → Circuit → Circuit
unfolding add_to_rolling_window
counted_success now c = add_to_rolling_window now true (record c {
  successes = c.successes + 1;
  consecutive_successes = c.consecutive_successes + 1;
  consecutive_failures = 0;
})

unfoldable pub counted_failure : ℕ → Circuit → Circuit
unfolding add_to_rolling_window
counted_failure now c = add_to_rolling_window now false (record c {
  failures = c.failures + 1;
  consecutive_failures = c.consecutive_failures + 1;
  consecutive_successes = 0;
})
