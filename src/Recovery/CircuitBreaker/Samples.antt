-- ===== src/Recovery/CircuitBreaker/Samples.antt =====
-- The circuit breaker on small inputs.
use cyber_security_platform.Prelude.{
  ℕ, true, some, List, [], ◌∷◌, ◌++◌, map, ◌≡◌, refl, arith, String-IsKey, ◌<◌,
}
use cyber_security_platform.Prelude.Dict
use cyber_security_platform.Recovery.CircuitBreaker.Fields.{
  closed, opened, half_open, failure_threshold, configure, Circuit, last_hundred,
  recovery_timeout_elapsed, as_opened, as_closed, as_half_open, as_reset, counted_success,
  counted_failure,
}
use cyber_security_platform.Recovery.CircuitBreaker.{
  CircuitBreaker, init, store, get_circuit, can_execute, record_success, record_failure,
  record_timeout, reset_circuit, get_state, update_config, open_circuit, close_circuit,
  transition_to_half_open,
}
use cyber_security_platform.Recovery.CircuitBreaker.Effect.{current}
use cyber_security_platform.Recovery.CircuitBreaker.Runs.{
  Call, can_execute_call, record_failure_call, record_success_call, get_state_call,
  update_config_call, perform, run, Stays, Every, Every-init,
}
use cyber_security_platform.Recovery.CircuitBreaker.Invariant.{IsSound, IsWithin, run-IsSound}
use cyber_security_platform.Recovery.CircuitBreaker.Transitions.{state_of}
use cyber_security_platform.Recovery.CircuitBreaker.Admission.{can_execute-opened}

program : Unit {0}
unfolding can_execute record_success record_failure record_timeout reset_circuit open_circuit
    close_circuit transition_to_half_open store get_circuit counted_success counted_failure
    last_hundred as_opened as_closed as_half_open as_reset recovery_timeout_elapsed run perform
    Dict.get Dict.put current get_state update_config configure
program = tt

abbrev five : List ℕ
five = 10 ∷ 20 ∷ 30 ∷ 40 ∷ 50 ∷ []

-- One success of "nmap", then five failures.
abbrev tripping : List Call
tripping = record_success_call "nmap" 1 ∷ map (record_failure_call "nmap") five

abbrev once : CircuitBreaker
once = run (record_success_call "nmap" 1 ∷ []) init

abbrev trying : CircuitBreaker
trying = run (tripping ++ can_execute_call "nmap" 51 ∷ []) init

tripped_state : state_of "nmap" (run tripping init) ≡ some opened
unfolding program
tripped_state = refl

abbrev tripped : Circuit
tripped = current "nmap" 51 (run tripping init)

abbrev trial : Circuit
trial = current "nmap" 51 trying

abbrev healthy : Circuit
healthy = current "nmap" 51 once

tripped_found : Dict.get "nmap" (run tripping init).circuits ≡ some tripped
unfolding program
tripped_found = refl

trial_found : Dict.get "nmap" trying.circuits ≡ some trial
unfolding program
trial_found = refl

healthy_found : Dict.get "nmap" once.circuits ≡ some healthy
unfolding program
healthy_found = refl

tripped_opened : tripped.state ≡ opened
unfolding program
tripped_opened = refl

trial_half_open :
    (trial.state ≡ half_open) × (trial.consecutive_successes < trying.config.success_threshold)
unfolding program
trial_half_open = (refl, omega arith)

healthy_closed :
    (healthy.state ≡ closed) × (healthy.consecutive_failures < once.config.failure_threshold)
unfolding program
healthy_closed = (refl, omega arith)

-- Four failures, and a threshold of two after them: the circuit stays CLOSED.
abbrev lowering : List Call
lowering =
    map (record_failure_call "nmap") (10 ∷ 20 ∷ 30 ∷ 40 ∷ [])
    ++ update_config_call ((failure_threshold, 2) ∷ [])
      ∷ get_state_call "nmap" 41
      ∷ can_execute_call "nmap" 42
      ∷ []

still_closed : state_of "nmap" (run lowering init) ≡ some closed
unfolding program
still_closed = refl

lowering-IsWithin : Stays (IsWithin 5 3) lowering init
unfolding program
lowering-IsWithin = omega arith

run-IsSound_example : Every (IsSound 5 3) (run lowering init)
run-IsSound_example =
    run-IsSound 5 3 lowering init (omega arith) lowering-IsWithin (Every-init (IsSound 5 3))

-- One microsecond after it opened.
can_execute-opened_example :
    let (answer, b') = can_execute "nmap" 51 (run tripping init) in
    (answer ≡ true)
    × ((c' : Circuit) × (Dict.get "nmap" b'.circuits ≡ some c')
        × (c'.state ≡ half_open)
        × (c'.half_open_calls ≡ 0))
can_execute-opened_example =
    can_execute-opened tripping "nmap" 51 tripped tripped_found tripped_opened
