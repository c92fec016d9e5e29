-- ===== src/Recovery/Retry/Replies.antt =====
-- How a retried call ends.
use Prim.Native.String.{◌++◌ as append}
use native.Mathlib.Numerals.{add-one}
use cyber_security_platform.Prelude.{
  ℕ, suc, ◌+◌, ◌*◌, ◌^◌, ◌≤◌, ◌<◌, min, String, true, false, Option, none, some, map, ◌≡◌, ◌⊎◌,
  refl, ap, sym, ◌∙◌, arith, if◌then◌else◌, String-IsKey, ltb, if_true, if_false, Bool-cases, inl,
  inr,
}
use cyber_security_platform.Prelude.Dict
use cyber_security_platform.Recovery.CircuitBreaker
use cyber_security_platform.Recovery.CircuitBreaker.{CircuitBreaker, can_execute}
use cyber_security_platform.Recovery.Escalation.{escalate}
use cyber_security_platform.Recovery.Retry.{
  RetryConfig, RetryManager, Error, own, not_imported, bad_arguments, Reply, value, error, returned,
  World, Ended, succeeded, gave_up, noted_success, attempts, fall_back, after_attempts,
  execute_with_retry, calculate_delay,
}
use cyber_security_platform.Recovery.CircuitBreaker.Fields.{closed, opened, Circuit}
use cyber_security_platform.Recovery.CircuitBreaker.Admission.{can_execute-closed}
use cyber_security_platform.Recovery.CircuitBreaker.Runs.{record_failure_call, run}
use cyber_security_platform.Recovery.CircuitBreaker.Transitions.{state_of, record_failure_opens}
use cyber_security_platform.Recovery.Retry.Attempts.{
  AreRetried, attempts-succeeded, attempts-exhausted, failed, times, breaker-failed, length-times,
}

module _ {V E : Type 0} (w : World V E) (config : RetryConfig E) where
  fall_back-error :
      (level message : String) (behind : Error E) (m : RetryManager) {x : Error E}
      → (fall_back w config level message behind m).0 ≡ error x
      → (x ≡ not_imported) ⊎ (x ≡ bad_arguments)
  unfolding fall_back escalate
  fall_back-error level message behind m h = ground arith

  after_attempts-error :
      (ended : Ended V E) (m : RetryManager) {x : Error E}
      → (after_attempts w config ended m).0 ≡ error x
      → (x ≡ not_imported) ⊎ (x ≡ bad_arguments)
  unfolding after_attempts
  after_attempts-error (succeeded v) m h = cc
  after_attempts-error (gave_up last) m h = fall_back-error _ _ _ m h

  -- Whatever the function and the fallbacks do, no exception of the function, and no exception for
  -- an open circuit, reaches the caller: the call ends in a value, or in the NameError of
  -- `escalate`, or in the TypeError that positional arguments cause.
  pub execute_with_retry-error :
      (m : RetryManager) (x : Error E)
      → (execute_with_retry w config m).0 ≡ error x
      → (x ≡ not_imported) ⊎ (x ≡ bad_arguments)
  unfolding execute_with_retry
  execute_with_retry-error m x h =
      let (admitted, breaker) = can_execute w.name (w.clock 0) m.breaker in
      let m0 = record m { breaker = breaker } in
      elim (Bool-cases admitted) [
        | inl yes_admitted ↦ after_attempts-error _ _ (
            ap (λ (r : Reply V E × RetryManager). r.0) (sym (if_true admitted _ _ yes_admitted))
            ∙ h)
        | inr refused ↦
            fall_back-error _ _ _ m0
              (ap (λ (r : Reply V E × RetryManager). r.0) (sym (if_false admitted _ _ refused)) ∙ h)
      ]

  breaker-fall_back :
      (level message : String) (behind : Error E) (m : RetryManager)
      → (fall_back w config level message behind m).1.breaker ≡ m.breaker
  unfolding fall_back escalate
  breaker-fall_back level message behind m = ground arith

  -- Where the breaker admits the call, the first `k` attempts raise exceptions that are retried,
  -- and attempt `k`, within the retries, returns `v`, the reply is `v`: the circuit has the `k`
  -- failures and then the success.
  pub execute_with_retry-returned :
      (e : ℕ → E) (k : ℕ) (v : Option V) (m : RetryManager)
      → (can_execute w.name (w.clock 0) m.breaker).0 ≡ true
      → k ≤ config.max_retries
      → AreRetried w config e 0 k
      → w.attempt k ≡ returned v
      → let (reply, m') = execute_with_retry w config m in
        (reply ≡ value v)
        × (m'.breaker
            ≡ CircuitBreaker.record_success w.name (w.clock k) (
                run
                  (map (record_failure_call w.name) (times w.clock k 0))
                  (can_execute w.name (w.clock 0) m.breaker).1))
  unfolding execute_with_retry after_attempts noted_success
  execute_with_retry-returned e k v m admitted within fails ok =
      let m0 = record m { breaker = (can_execute w.name (w.clock 0) m.breaker).1 } in
      let loop =
        attempts-succeeded w config e k (config.max_retries + 1) 0 k none m0 v (omega arith)
          (omega arith) within fails ok in
      rw (admitted, loop) (refl, rw breaker-failed)

  -- Where every attempt raises an exception that is retried, a circuit that the breaker knows,
  -- CLOSED and below its threshold, is OPEN afterwards exactly if the streak of failures and the
  -- `max_retries + 1` new ones reach the threshold, and else still CLOSED: one call can open it.
  pub execute_with_retry-exhausted :
      (e : ℕ → E) (m : RetryManager) (c : Circuit)
      → Dict.get w.name m.breaker.circuits ≡ some c
      → c.state ≡ closed
      → c.consecutive_failures < m.breaker.config.failure_threshold
      → AreRetried w config e 0 (config.max_retries + 1)
      → state_of w.name (execute_with_retry w config m).1.breaker
        ≡ some (
            if ltb
              (c.consecutive_failures + (config.max_retries + 1))
              m.breaker.config.failure_threshold
            then closed
            else opened)
  unfolding execute_with_retry after_attempts
  execute_with_retry-exhausted e m c found h room fails =
      let (admitted, moved) = can_execute-closed w.name (w.clock 0) m.breaker c found h in
      let b0 = (can_execute w.name (w.clock 0) m.breaker).1 in
      let m0 = record m { breaker = b0 } in
      let n = config.max_retries in
      let loop : attempts w config (n + 1) 0 none m0
          ≡ (gave_up (some (e n)), suc n, failed w config e (suc n) 0 m0) =
        rw add-one (attempts-exhausted w config e n 0 n none m0 (omega arith) refl fails) in
      let ended =
        breaker-fall_back "error" (append "All retries failed: " (w.describe (e n))) (own (e n))
          (failed w config e (suc n) 0 m0) in
      let opens =
        record_failure_opens w.name (times w.clock (suc n) 0) b0 c moved.here h
          (rw moved.config room) in
      rw (admitted, loop, ended, breaker-failed w config e (suc n) 0 m0, opens)
        (rw (length-times, moved.config, add-one))

-- With a draw that is at most the delay it is given, no delay is above twice the maximum; without
-- jitter none is above the maximum.
pub calculate_delay_bounds :
    {E : Type 0} (draw : ℕ → ℕ) (attempt : ℕ) (config : RetryConfig E)
    → ((d : ℕ) → draw d ≤ d)
    → (calculate_delay draw attempt config ≤ 2 * config.max_delay)
      × (config.jitter ≡ false → calculate_delay draw attempt config ≤ config.max_delay)
unfolding calculate_delay
calculate_delay_bounds draw attempt config h =
    let base =
      if config.exponential
      then config.base_delay * config.backoff_factor ^ attempt
      else config.base_delay * (attempt + 1) in
    let drawn = h (min base config.max_delay) in (ground arith, λ steady. ground arith)
