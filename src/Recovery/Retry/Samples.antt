-- ===== src/Recovery/Retry/Samples.antt =====
-- The retry manager on small inputs.
use cyber_security_platform.Prelude.{
  ℕ, ◌+◌, ◌<◌, true, false, none, some, [], ◌∷◌, map, ◌≡◌, ◌⊎◌, refl, arith, String, String-IsKey,
  ltb, if◌then◌else◌,
}
use cyber_security_platform.Prelude.Dict
use cyber_security_platform.Recovery.CircuitBreaker
use cyber_security_platform.Recovery.Escalation
use cyber_security_platform.Recovery.Fallback
use cyber_security_platform.Recovery.CircuitBreaker.{
  CircuitBreaker, can_execute, record_failure, record_success, store, get_circuit, open_circuit,
}
use cyber_security_platform.Recovery.CircuitBreaker.Fields.{
  closed, Circuit, counted_success, counted_failure, last_hundred, recovery_timeout_elapsed,
  as_opened,
}
use cyber_security_platform.Recovery.CircuitBreaker.Effect.{current}
use cyber_security_platform.Recovery.CircuitBreaker.Runs.{
  record_failure_call, record_success_call, perform, run,
}
use cyber_security_platform.Recovery.Escalation.{escalate}
use cyber_security_platform.Recovery.Fallback.{raised as unavailable, get_fallback}
use cyber_security_platform.Recovery.Retry.{
  RetryConfig, default_config, RetryManager, Attempt, returned, raised, World, Error, not_imported,
  bad_arguments, value, error, noted_success, noted_failure, attempts, fall_back, after_attempts,
  execute_with_retry, calculate_delay, behind_of, message_of,
}
use cyber_security_platform.Recovery.Retry.Statistics.{
  Stats, empty, IsCounted, error_type, record-IsCounted,
}
use cyber_security_platform.Recovery.Retry.Statistics
use cyber_security_platform.Recovery.Retry.Attempts.{times}
use cyber_security_platform.Recovery.Retry.Replies.{
  execute_with_retry-error, execute_with_retry-returned,
}

program : Unit {0}
unfolding execute_with_retry after_attempts attempts noted_success noted_failure fall_back behind_of
    message_of calculate_delay get_fallback escalate can_execute record_failure record_success store
    get_circuit open_circuit counted_success counted_failure last_hundred as_opened
    recovery_timeout_elapsed run perform current Dict.get Dict.put Dict.get_default error_type
    Statistics.record_success Statistics.record_failure
program = tt

-- A manager that has seen one success of "scan".
abbrev manager : RetryManager
manager = record {
  breaker = run (record_success_call "scan" 1 ∷ []) CircuitBreaker.init;
  fallbacks = Fallback.init;
  escalations = Escalation.init;
  stats = [];
}

-- A function that takes no argument; exceptions are texts.
abbrev scan : (ℕ → Attempt ℕ String) → World ℕ String
scan attempt = record {
  name = "scan";
  attempt = attempt;
  clock = λ i. 10 + i;
  duration = λ i. 1;
  finish = 20;
  describe = λ e. e;
  stamp = "20.0";
  handlers = λ f. unavailable;
  caller = record { task_type = none; params = [] };
  has_args = false;
}

abbrev never : ℕ → Attempt ℕ String
never i = raised "timed out"

-- The third attempt returns 7.
abbrev third : ℕ → Attempt ℕ String
third i = if ltb i 2 then raised "timed out" else returned (some 7)

abbrev config : RetryConfig String
config = default_config String

-- With four retries the attempts reach the threshold of five failures.
abbrev patient : RetryConfig String
patient = record config { max_retries = 4 }

abbrev known : Circuit
known = current "scan" 10 manager.breaker

known_found : Dict.get "scan" manager.breaker.circuits ≡ some known
unfolding program
known_found = refl

known_closed :
    (known.state ≡ closed) × (known.consecutive_failures < manager.breaker.config.failure_threshold)
unfolding program
known_closed = (refl, omega arith)

manager_admits : (can_execute "scan" 10 manager.breaker).0 ≡ true
unfolding program
manager_admits = refl

never_error : (execute_with_retry (scan never) config manager).0 ≡ error not_imported
unfolding program
never_error = refl

execute_with_retry-error_example :
    (◌≡◌ {A = Error String} not_imported not_imported)
    ⊎ (◌≡◌ {A = Error String} not_imported bad_arguments)
execute_with_retry-error_example =
    execute_with_retry-error (scan never) config manager not_imported never_error

execute_with_retry-returned_example :
    let (reply, m') = execute_with_retry (scan third) config manager in
    (reply ≡ value (some 7))
    × (m'.breaker
        ≡ record_success "scan" 12 (
            run
              (map (record_failure_call "scan") (times (λ (i : ℕ). 10 + i) 2 0))
              (can_execute "scan" 10 manager.breaker).1))
execute_with_retry-returned_example =
    execute_with_retry-returned (scan third) config (λ i. "timed out") 2 (some 7) manager
      manager_admits (omega arith) (λ j low high. (ground arith, refl)) refl

delay_samples :
    (calculate_delay (λ d. d) 2 config ≡ 8)
    × (calculate_delay (λ d. 0) 2 (record config { exponential = false }) ≡ 3)
unfolding program
delay_samples = (refl, refl)

empty_IsCounted : IsCounted []
unfolding program
empty_IsCounted name s found = cc
