-- ===== src/Recovery/CircuitBreaker/Transitions.antt =====
-- When failures open a circuit and successes close it.
use mathlib.Core.Path.{subst₂}
use mathlib.Core.Option
use native.Mathlib.Decide.{dec_lt}
use cyber_security_platform.Prelude.{
  ℕ, ◌+◌, ◌<◌, String, some, List, [], ◌∷◌, map, ◌≡◌, ap, ◌≤◌, Option, arith, ltb, if◌then◌else◌,
  length, String-IsKey,
}
use cyber_security_platform.Prelude.Dict
use cyber_security_platform.Recovery.CircuitBreaker.Fields.{
  State, closed, opened, half_open, Config, Circuit, as_opened, as_closed, counted_success,
  counted_failure,
}
use cyber_security_platform.Recovery.CircuitBreaker.{CircuitBreaker}
use cyber_security_platform.Recovery.CircuitBreaker.Effect.{
  current, Sets, current-found, settle_success, settle_failure, success_step, failure_step,
  record_success-Sets, record_failure-Sets,
}
use cyber_security_platform.Recovery.CircuitBreaker.Runs.{
  Call, record_success_call, record_failure_call, perform, run,
}

module _ (step : Config → ℕ → Circuit → Circuit) where
  -- One step at each of the times.
  repeat : Config → List ℕ → Circuit → Circuit
  repeat g [] c = c
  repeat g (now ∷ times) c = repeat g times (step g now c)

  -- A method that makes `step` of the circuit of its name makes it at each of the times.
  run-repeat :
      (call : String → ℕ → Call)
      → ((name : String) (now : ℕ) (b : CircuitBreaker)
          → Sets name (step b.config now (current name now b)) b (perform (call name now) b))
      → (name : String) (times : List ℕ) (b : CircuitBreaker) (c : Circuit)
      → Dict.get name b.circuits ≡ some c
      → Dict.get name (run (map (call name) times) b).circuits ≡ some (repeat b.config times c)
  unfolding run repeat
  run-repeat call moves name [] b c found = found
  run-repeat call moves name (now ∷ times) b c found =
      let moved = moves name now b in
      let rest = run-repeat call moves name times (perform (call name now) b) _ moved.here in
      subst₂
        (λ g d.
          Dict.get name (run (map (call name) times) (perform (call name now) b)).circuits
          ≡ some (repeat g times (step b.config now d)))
        moved.config (current-found name now c b found) rest

-- One failure, and one success.
module _ (g : Config) (now : ℕ) (c : Circuit) where
  failure_while_open : c.state ≡ opened → (failure_step g now c).state ≡ opened
  unfolding settle_failure counted_failure
  failure_while_open h = ground arith

  failure_below :
      c.state ≡ closed
      → c.consecutive_failures + 1 < g.failure_threshold
      → ((failure_step g now c).state ≡ closed)
        × ((failure_step g now c).consecutive_failures ≡ c.consecutive_failures + 1)
  unfolding settle_failure counted_failure
  failure_below h room = ground arith

  failure_at :
      c.state ≡ closed
      → g.failure_threshold ≤ c.consecutive_failures + 1
      → (failure_step g now c).state ≡ opened
  unfolding settle_failure counted_failure as_opened
  failure_at h full = ground arith

  success_while_closed : c.state ≡ closed → (success_step g now c).state ≡ closed
  unfolding settle_success counted_success
  success_while_closed h = ground arith

  success_below :
      c.state ≡ half_open
      → c.consecutive_successes + 1 < g.success_threshold
      → ((success_step g now c).state ≡ half_open)
        × ((success_step g now c).consecutive_successes ≡ c.consecutive_successes + 1)
  unfolding settle_success counted_success
  success_below h room = ground arith

  success_at :
      c.state ≡ half_open
      → g.success_threshold ≤ c.consecutive_successes + 1
      → (success_step g now c).state ≡ closed
  unfolding settle_success counted_success as_closed
  success_at h full = ground arith

stays :
    (step : Config → ℕ → Circuit → Circuit) (s : State)
    → ((g : Config) (now : ℕ) (c : Circuit) → c.state ≡ s → (step g now c).state ≡ s)
    → (g : Config) (times : List ℕ) (c : Circuit) → c.state ≡ s
    → (repeat step g times c).state ≡ s
unfolding repeat
stays step s keeps g [] c h = h
stays step s keeps g (now ∷ times) c h = stays step s keeps g times _ (keeps g now c h)

-- The state after failures at each of the times.
failures_state :
    (g : Config) (times : List ℕ) (c : Circuit)
    → c.state ≡ closed
    → c.consecutive_failures < g.failure_threshold
    → (repeat failure_step g times c).state
      ≡ (if ltb (c.consecutive_failures + length times) g.failure_threshold then closed else opened)
unfolding repeat
failures_state g [] c h room = ground arith
failures_state g (now ∷ times) c h room =
    elim (dec_lt (c.consecutive_failures + 1) g.failure_threshold) [
      | yes below ↦
          let (same, more) = failure_below g now c h below in
          ground (arith, failures_state g times (failure_step g now c) same (omega arith))
      | no full ↦
          let tripped = failure_at g now c h (omega arith) in
          ground (
            arith,
            stays failure_step opened failure_while_open g times (failure_step g now c) tripped,
          )
    ]

-- The state after successes at each of the times.
successes_state :
    (g : Config) (times : List ℕ) (c : Circuit)
    → c.state ≡ half_open
    → c.consecutive_successes < g.success_threshold
    → (repeat success_step g times c).state ≡ (
        if ltb (c.consecutive_successes + length times) g.success_threshold
        then half_open
        else closed)
unfolding repeat
successes_state g [] c h room = ground arith
successes_state g (now ∷ times) c h room =
    elim (dec_lt (c.consecutive_successes + 1) g.success_threshold) [
      | yes below ↦
          let (same, more) = success_below g now c h below in
          ground (arith, successes_state g times (success_step g now c) same (omega arith))
      | no full ↦
          let shut = success_at g now c h (omega arith) in
          ground (
            arith,
            stays success_step closed success_while_closed g times (success_step g now c) shut,
          )
    ]

-- The state of a name's circuit.
abbrev pub state_of : String → CircuitBreaker → Option State
state_of name b = Option.map (λ c. c.state) (Dict.get name b.circuits)

module _ (name : String) (times : List ℕ) (b : CircuitBreaker) (c : Circuit)
    (found : Dict.get name b.circuits ≡ some c) where
  -- From a CLOSED circuit that is below the failure threshold, consecutive recorded failures leave
  -- it CLOSED while their number and the streak before them stay below the threshold, and make it
  -- OPEN from then on.
  pub record_failure_opens :
      c.state ≡ closed
      → c.consecutive_failures < b.config.failure_threshold
      → state_of name (run (map (record_failure_call name) times) b)
        ≡ some (
            if ltb (c.consecutive_failures + length times) b.config.failure_threshold
            then closed
            else opened)
  record_failure_opens h room =
      rw
        (run-repeat failure_step record_failure_call (unfold perform in record_failure-Sets) name
          times b c found)
        (ap some (failures_state b.config times c h room))

  -- From a HALF_OPEN circuit that is below the success threshold, consecutive recorded successes
  -- leave it HALF_OPEN while their number and the streak before them stay below the threshold, and
  -- make it CLOSED from then on.
  pub record_success_closes :
      c.state ≡ half_open
      → c.consecutive_successes < b.config.success_threshold
      → state_of name (run (map (record_success_call name) times) b)
        ≡ some (
            if ltb (c.consecutive_successes + length times) b.config.success_threshold
            then half_open
            else closed)
  record_success_closes h room =
      rw
        (run-repeat success_step record_success_call (unfold perform in record_success-Sets) name
          times b c found)
        (ap some (successes_state b.config times c h room))
