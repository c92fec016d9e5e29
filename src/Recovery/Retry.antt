-- ===== src/Recovery/Retry.antt =====
-- src/recovery/retry_manager.py. The retried function and the fallback handlers are arguments: what
-- each call does. `clock` has the time of each
-- attempt, the sleeps between them included, and `finish` the time after the last.
pub mod Statistics
pub mod Attempts
pub mod Replies
mod Samples
use Prim.Native.String.{◌++◌ as append}
use cyber_security_platform.Prelude.{
  ℕ, zero, suc, ◌+◌, ◌*◌, ◌^◌, min, String, Bool, true, false, Option, none, some, List, [], ◌∷◌,
  nat_beq, if◌then◌else◌, String-IsKey,
}
use cyber_security_platform.Recovery.CircuitBreaker
use cyber_security_platform.Recovery.CircuitBreaker.{CircuitBreaker, can_execute}
use cyber_security_platform.Recovery.Escalation.{EscalationManager, name_error, text, escalate}
use cyber_security_platform.Recovery.Fallback.{FallbackManager, Caller, Outcome, get_fallback}
use Statistics.{Stats, record_success, record_failure}

-- The configuration after `config.update(retry_config)`.
pub record RetryConfig (E : Type 0) : Type 0 where
  pub max_retries : ℕ
  pub base_delay : ℕ
  pub max_delay : ℕ
  pub backoff_factor : ℕ
  pub jitter : Bool
  pub exponential : Bool
  pub retry_on : E → Bool

abbrev pub default_config : (E : Type 0) → RetryConfig E
default_config E = record {
  max_retries = 3;
  base_delay = 1;
  max_delay = 60;
  backoff_factor = 2;
  jitter = true;
  exponential = true;
  retry_on = λ e. true;
}

-- `random.uniform(0, delay)` is the argument `draw`, in the unit of the delays.
pub calculate_delay : {E : Type 0} → (draw : ℕ → ℕ) → ℕ → RetryConfig E → ℕ
calculate_delay draw attempt config =
    let delay =
      min
        (if config.exponential
          then config.base_delay * config.backoff_factor ^ attempt
          else config.base_delay * (attempt + 1))
        config.max_delay in
    if config.jitter then delay + draw delay else delay

pub record RetryManager : Type 0 where
  pub breaker : CircuitBreaker
  pub fallbacks : FallbackManager
  pub escalations : EscalationManager
  pub stats : Stats

-- The exceptions that leave `execute_with_retry`.
pub data Error (E : Type 0) : Type 0 where
  own : E → Error E
  circuit_open not_imported bad_arguments : Error E

pub data Reply (V E : Type 0) : Type 0 where
  value : Option V → Reply V E
  error : Error E → Reply V E

pub data Attempt (V E : Type 0) : Type 0 where
  returned : Option V → Attempt V E
  raised : E → Attempt V E

-- The function that is retried and its surroundings.
pub record World (V E : Type 0) : Type 0 where
  pub name : String
  pub attempt : ℕ → Attempt V E
  pub clock : ℕ → ℕ
  pub duration : ℕ → ℕ
  pub finish : ℕ
  pub describe : E → String
  pub stamp : String
  pub handlers : String → Outcome V
  pub caller : Caller
  pub has_args : Bool

-- How the loop ends, and how often it called the function.
pub data Ended (V E : Type 0) : Type 0 where
  succeeded : Option V → Ended V E
  gave_up : Option E → Ended V E

module _ {V E : Type 0} (w : World V E) (config : RetryConfig E) where
  pub noted_success : ℕ → RetryManager → RetryManager
  noted_success i m = record m {
    stats = record_success w.name (w.duration i) m.stats;
    breaker = CircuitBreaker.record_success w.name (w.clock i) m.breaker;
  }

  pub noted_failure : ℕ → E → RetryManager → RetryManager
  noted_failure i e m = record m {
    stats = record_failure w.name (w.describe e) m.stats;
    breaker = CircuitBreaker.record_failure w.name (w.clock i) m.breaker;
  }

  -- `for attempt in range(max_retries + 1)`: `left` attempts remain, the next one is `i`.
  pub attempts : (left i : ℕ) → Option E → RetryManager → Ended V E × ℕ × RetryManager
  unfolding noted_success noted_failure
  attempts zero i last m = (gave_up last, 0, m)
  attempts (suc left) i last m = elim (w.attempt i) [
    | returned v ↦ (succeeded v, 1, noted_success i m)
    | raised e ↦
        let m' = noted_failure i e m in
        let (ended, calls, m'') = attempts left (suc i) (some e) m' in
        if config.retry_on e
        then (if nat_beq i config.max_retries
            then (gave_up (some e), 1, m')
            else (ended, calls + 1, m''))
        else (gave_up (some e), 1, m)
  ]

  -- A fallback, or an escalation. With positional arguments the call of `get_fallback` is a
  -- TypeError, since they meet `func_name`. The exception behind `escalate` is raised if that
  -- returns.
  pub fall_back : String → String → Error E → RetryManager → Reply V E × RetryManager
  fall_back level message behind m =
      if w.has_args
      then (error bad_arguments, m)
      else (let (result, fallbacks) =
            get_fallback w.finish w.handlers w.caller w.name m.fallbacks in
          let m1 = record m { fallbacks = fallbacks } in
          elim result [
            | some v ↦ (value (some v), m1)
            | none ↦
                let (e, escalations) =
                  escalate w.finish w.stamp (text level) w.name message none m1.escalations in
                let m2 = record m1 { escalations = escalations } in
                elim e [ none ↦ (error behind, m2) | some name_error ↦ (error not_imported, m2) ]
          ])

  -- `last_exception` is None only if no attempt was made, and then `raise` is a TypeError.
  pub behind_of : Option E → Error E
  behind_of none = bad_arguments
  behind_of (some e) = own e

  pub message_of : Option E → String
  message_of none = "All retries failed: None"
  message_of (some e) = append "All retries failed: " (w.describe e)

  after_attempts : Ended V E → RetryManager → Reply V E × RetryManager
  unfolding behind_of message_of
  after_attempts (succeeded v) m = (value v, m)
  after_attempts (gave_up last) m = fall_back "error" (message_of last) (behind_of last) m

  pub execute_with_retry : RetryManager → Reply V E × RetryManager
  unfolding after_attempts
  execute_with_retry m =
      let (admitted, breaker) = can_execute w.name (w.clock 0) m.breaker in
      let m0 = record m { breaker = breaker } in
      if admitted
      then (let (ended, calls, m1) = attempts (config.max_retries + 1) 0 none m0 in
          after_attempts ended m1)
      else fall_back "warning" "Circuit breaker open with no fallback" circuit_open m0
