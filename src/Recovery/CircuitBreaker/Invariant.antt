-- ===== src/Recovery/CircuitBreaker/Invariant.antt =====
-- What every circuit of the breaker keeps to, after any calls.
use cyber_security_platform.Prelude.{
  ℕ, ◌-◌, ◌≤◌, ◌<◌, true, false, List, [], ◌∷◌, ◌++◌, ◌≡◌, ◌≢◌, ◌⊎◌, arith, length, length-drop,
}
use cyber_security_platform.Recovery.CircuitBreaker.Fields.{
  closed, half_open, Config, Circuit, Sample, fresh, last_hundred, as_opened, as_closed,
  as_half_open, as_reset, counted_success, counted_failure,
}
use cyber_security_platform.Recovery.CircuitBreaker.{CircuitBreaker}
use cyber_security_platform.Recovery.CircuitBreaker.Effect.{
  settle_success, settle_failure, admit, success_step, failure_step, timed_out,
}
use cyber_security_platform.Recovery.CircuitBreaker.Runs.{
  Call, run, IsStable, Stays, Every, run-Every,
}

-- What one circuit keeps to while the failure threshold is at most `most_failures` and
-- `half_open_max_calls` at most `most_trials`.
pub record IsSound (most_failures most_trials : ℕ) (c : Circuit) : Type 0 where
  pub window : length c.rolling_window ≤ 100
  pub trials : c.half_open_calls ≤ most_trials
  pub trials_idle : c.state ≢ half_open → c.half_open_calls ≡ 0
  pub below : c.state ≡ closed → c.consecutive_failures < most_failures
  pub streak : (c.consecutive_failures ≡ 0) ⊎ (c.consecutive_successes ≡ 0)
  pub counted : c.consecutive_failures ≤ c.failures

-- A configuration within these bounds.
abbrev pub IsWithin : (most_failures most_trials : ℕ) → Config → Type 0
IsWithin most_failures most_trials g =
    (g.failure_threshold ≤ most_failures) × (g.half_open_max_calls ≤ most_trials)

last_hundred-le : (w : List Sample) → length (last_hundred w) ≤ 100
unfolding last_hundred
last_hundred-le w = ground (arith, length-drop (length w - 100) w)

module _ (f t : ℕ) where
  failure-IsSound :
      (g : Config)
      → IsWithin f t g
      → (now : ℕ) (c : Circuit) → IsSound f t c
      → IsSound f t (failure_step g now c)
  unfolding counted_failure settle_failure as_opened
  failure-IsSound g within now c s = ground (
    arith,
    last_hundred-le (c.rolling_window ++ record { timestamp = now; success = false } ∷ []),
  )

  admit-IsSound :
      (g : Config)
      → IsWithin f t g
      → (now : ℕ) (c : Circuit) → IsSound f t c
      → IsSound f t (admit g now c.state c).1
  unfolding admit as_half_open
  admit-IsSound g within now c s = ground arith

  timed_out-IsSound : (c : Circuit) → IsSound f t c → IsSound f t (timed_out c)
  timed_out-IsSound c s = ground arith

  module _ (room : 0 < f) where
    success-IsSound :
        (g : Config)
        → IsWithin f t g
        → (now : ℕ) (c : Circuit) → IsSound f t c
        → IsSound f t (success_step g now c)
    unfolding counted_success settle_success as_closed
    success-IsSound g within now c s = ground (
      arith,
      last_hundred-le (c.rolling_window ++ record { timestamp = now; success = true } ∷ []),
    )

    fresh-IsSound : (now : ℕ) → IsSound f t (fresh now)
    fresh-IsSound now = ground arith

    reset-IsSound : (now : ℕ) (c : Circuit) → IsSound f t c → IsSound f t (as_reset now c)
    unfolding as_reset
    reset-IsSound now c s = ground arith

    IsSound-IsStable : IsStable (IsWithin f t) (IsSound f t)
    IsSound-IsStable = record {
      at_fresh = fresh-IsSound;
      at_success = success-IsSound;
      at_failure = failure-IsSound;
      at_timeout = timed_out-IsSound;
      at_admit = admit-IsSound;
      at_reset = reset-IsSound;
    }

-- Any calls, updates of the configuration too, with bounds on the configurations that they pass
-- through: failure thresholds of at most `most_failures`, which is above 0, and at most
-- `most_trials` calls in HALF_OPEN. They keep these of every circuit: the window has at most 100
-- samples; at most `most_trials` trial calls are counted, and none outside HALF_OPEN; a CLOSED
-- circuit has a streak of fewer than `most_failures` failures; one of the two streaks is 0; and the
-- streak of failures is at most the number of failures.
pub run-IsSound :
    (most_failures most_trials : ℕ) (calls : List Call) (b : CircuitBreaker)
    → 0 < most_failures
    → Stays (IsWithin most_failures most_trials) calls b
    → Every (IsSound most_failures most_trials) b
    → Every (IsSound most_failures most_trials) (run calls b)
run-IsSound most_failures most_trials calls b room stays =
    run-Every (IsWithin most_failures most_trials) (IsSound most_failures most_trials) calls b
      (IsSound-IsStable most_failures most_trials room) stays
