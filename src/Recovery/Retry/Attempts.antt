-- ===== src/Recovery/Retry/Attempts.antt =====
-- The loop of `execute_with_retry`: how many attempts are made, and what they leave.
use cyber_security_platform.Prelude.{
  ℕ, zero, suc, ◌+◌, ◌≤◌, ◌<◌, true, false, Option, some, List, [], ◌∷◌, ◌≡◌, refl, ap, ◌∙◌, arith,
  nat_beq, length, map, if_true, if_false,
}
use cyber_security_platform.Recovery.CircuitBreaker.Runs.{record_failure_call, perform, run}
use cyber_security_platform.Recovery.Retry.{
  RetryConfig, RetryManager, returned, raised, World, succeeded, gave_up, noted_success,
  noted_failure, attempts,
}

module _ {V E : Type 0} (w : World V E) (config : RetryConfig E) where
  -- One attempt.
  module _ (left i : ℕ) (last : Option E) (m : RetryManager) where
    attempt-returned :
        (v : Option V)
        → w.attempt i ≡ returned v
        → attempts w config (suc left) i last m ≡ (succeeded v, 1, noted_success w config i m)
    unfolding attempts
    attempt-returned v h = rw (h, attempts)

    pub attempt-not_retried :
        (x : E)
        → w.attempt i ≡ raised x
        → config.retry_on x ≡ false
        → attempts w config (suc left) i last m ≡ (gave_up (some x), 1, m)
    unfolding attempts
    attempt-not_retried x h stop = rw (h, attempts) (rw stop)

    attempt-last :
        (x : E)
        → w.attempt i ≡ raised x
        → config.retry_on x ≡ true
        → i ≡ config.max_retries
        → attempts w config (suc left) i last m
          ≡ (gave_up (some x), 1, noted_failure w config i x m)
    unfolding attempts
    attempt-last x h retry at_end =
        rw (h, attempts) (rw retry (if_true (nat_beq i config.max_retries) _ _ (ground arith)))

    attempt-again :
        (x : E)
        → w.attempt i ≡ raised x
        → config.retry_on x ≡ true
        → i < config.max_retries
        → attempts w config (suc left) i last m ≡ (
            let (ended, calls, m') =
              attempts w config left (suc i) (some x) (noted_failure w config i x m) in
            (ended, calls + 1, m'))
    unfolding attempts
    attempt-again x h retry before_end =
        rw (h, attempts) (rw retry (if_false (nat_beq i config.max_retries) _ _ (ground arith)))

  -- The manager after `k` failed attempts from the `i`-th on, with the exceptions `e`.
  abbrev pub failed : (e : ℕ → E) → (k i : ℕ) → RetryManager → RetryManager
  failed e zero i m = m
  failed e (suc k) i m = failed e k (suc i) (noted_failure w config i (e i) m)

  module _ (e : ℕ → E) where
    -- The attempts from `i` to before `n` raise exceptions that are retried.
    abbrev pub AreRetried : ℕ → ℕ → Type 0
    AreRetried i n =
        (j : ℕ) → i ≤ j → j < n → (w.attempt j ≡ raised (e j)) × (config.retry_on (e j) ≡ true)

    pub attempts-succeeded :
        (k left i n : ℕ) (last : Option E) (m : RetryManager) (v : Option V)
        → k < left
        → i + k ≡ n
        → n ≤ config.max_retries
        → AreRetried i n
        → w.attempt n ≡ returned v
        → attempts w config left i last m
          ≡ (succeeded v, suc k, noted_success w config n (failed e k i m))
    attempts-succeeded zero zero i n last m v room at_n within fails ok = elim room [ ]
    attempts-succeeded (suc k) zero i n last m v room at_n within fails ok = elim room [ ]
    attempts-succeeded zero (suc left) i n last m v room at_n within fails ok =
        let here : i ≡ n = omega arith in
        rw (← here) (attempt-returned left i last m v (rw here ok))
    attempts-succeeded (suc k) (suc left) i n last m v room at_n within fails ok =
        let (raises, retry) = fails i (omega arith) (omega arith) in
        let rest =
          attempts-succeeded k left (suc i) n (some (e i)) (noted_failure w config i (e i) m) v
            (omega arith) (omega arith) within (λ j low high. fails j (omega arith) high) ok in
        attempt-again left i last m (e i) raises retry (omega arith) ∙ rw rest (ground arith)

    pub attempts-exhausted :
        (k i n : ℕ) (last : Option E) (m : RetryManager)
        → i + k ≡ n
        → n ≡ config.max_retries
        → AreRetried i (n + 1)
        → attempts w config (suc k) i last m ≡ (gave_up (some (e n)), suc k, failed e (suc k) i m)
    attempts-exhausted zero i n last m at_n at_end fails =
        let (raises, retry) = fails i (omega arith) (omega arith) in
        let here : i ≡ n = omega arith in
        rw (← here) (attempt-last zero i last m (e i) raises retry (here ∙ at_end))
    attempts-exhausted (suc k) i n last m at_n at_end fails =
        let (raises, retry) = fails i (omega arith) (omega arith) in
        let rest =
          attempts-exhausted k (suc i) n (some (e i)) (noted_failure w config i (e i) m)
            (omega arith) at_end (λ j low high. fails j (omega arith) high) in
        attempt-again (suc k) i last m (e i) raises retry (omega arith) ∙ rw rest (ground arith)

-- The times of `k` attempts from the `i`-th on.
abbrev pub times : (ℕ → ℕ) → (k i : ℕ) → List ℕ
times clock zero i = []
times clock (suc k) i = clock i ∷ times clock k (suc i)

module _ {V E : Type 0} (w : World V E) (config : RetryConfig E) where
  -- What failed attempts leave in the breaker: a recorded failure at the time of each.
  pub breaker-failed :
      (e : ℕ → E) (k i : ℕ) (m : RetryManager)
      → (failed w config e k i m).breaker
        ≡ run (map (record_failure_call w.name) (times w.clock k i)) m.breaker
  unfolding noted_failure run perform
  breaker-failed e zero i m = refl
  breaker-failed e (suc k) i m = breaker-failed e k (suc i) (noted_failure w config i (e i) m)

pub length-times : (clock : ℕ → ℕ) (k i : ℕ) → length (times clock k i) ≡ k
length-times clock zero i = refl
length-times clock (suc k) i = ap suc (length-times clock k (suc i))
