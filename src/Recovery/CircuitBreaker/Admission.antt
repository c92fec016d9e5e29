-- ===== src/Recovery/CircuitBreaker/Admission.antt =====
-- How many trial calls a HALF_OPEN circuit admits, and that an OPEN one never turns a call away.
use mathlib.Core.Path.{subst}
use native.Mathlib.Decide.{dec_lt}
use cyber_security_platform.Prelude.{
  ℕ, ◌+◌, ◌-◌, ◌≤◌, ◌<◌, min, String, true, false, none, some, List, [], ◌∷◌, ◌≡◌, refl, ◌∙◌, arith,
  if◌then◌else◌, length, String-IsKey,
}
use cyber_security_platform.Prelude.Dict
use cyber_security_platform.Recovery.CircuitBreaker.Fields.{
  State, closed, opened, half_open, Config, Circuit, recovery_timeout_elapsed, as_half_open,
  as_opened, as_closed, as_reset, counted_success, counted_failure,
}
use cyber_security_platform.Recovery.CircuitBreaker.{CircuitBreaker, init, can_execute}
use cyber_security_platform.Recovery.CircuitBreaker.Effect.{
  Sets, current-found, admit, settle_success, settle_failure, can_execute-Sets,
}
use cyber_security_platform.Recovery.CircuitBreaker.Runs.{
  Call, run, IsStable, Every, Stays-always, run-Every, Every-init,
}

-- `can_execute` at each of the times, with no outcome recorded between: how many calls are let in.
pub admitted : String → List ℕ → CircuitBreaker → ℕ
admitted name [] b = 0
admitted name (now ∷ times) b =
    let (answer, b') = can_execute name now b in (if answer then 1 else 0) + admitted name times b'

-- The answer and the next circuit at a circuit that is known.
can_execute-found :
    (name : String) (now : ℕ) (b : CircuitBreaker) (c : Circuit)
    → Dict.get name b.circuits ≡ some c
    → ((can_execute name now b).0 ≡ (admit b.config now c.state c).0)
      × Sets name (admit b.config now c.state c).1 b (can_execute name now b).1
can_execute-found name now b c found =
    subst
      (λ d.
        ((can_execute name now b).0 ≡ (admit b.config now d.state d).0)
        × Sets name (admit b.config now d.state d).1 b (can_execute name now b).1)
      (current-found name now c b found) (can_execute-Sets name now b)

module _ (g : Config) (now : ℕ) (c : Circuit) (h : c.state ≡ half_open) where
  trial_left :
      c.half_open_calls < g.half_open_max_calls
      → ((admit g now c.state c).0 ≡ true)
        × ((admit g now c.state c).1.state ≡ half_open)
        × ((admit g now c.state c).1.half_open_calls ≡ c.half_open_calls + 1)
  unfolding admit
  trial_left room = ground arith

  no_trial_left :
      g.half_open_max_calls ≤ c.half_open_calls
      → ((admit g now c.state c).0 ≡ false)
        × ((admit g now c.state c).1.state ≡ half_open)
        × ((admit g now c.state c).1.half_open_calls ≡ c.half_open_calls)
  unfolding admit
  no_trial_left full = ground arith

-- A HALF_OPEN circuit whose trial calls report no outcome admits as many further calls as its
-- counter leaves, and no call after that, however late.
pub admitted-half_open :
    (name : String) (times : List ℕ) (b : CircuitBreaker) (c : Circuit)
    → Dict.get name b.circuits ≡ some c
    → c.state ≡ half_open
    → admitted name times b ≡ min (length times) (b.config.half_open_max_calls - c.half_open_calls)
unfolding admitted
admitted-half_open name [] b c found h = omega arith
admitted-half_open name (now ∷ times) b c found h =
    let (answer, moved) = can_execute-found name now b c found in
    let b' = (can_execute name now b).1 in
    elim (dec_lt c.half_open_calls b.config.half_open_max_calls) [
      | yes room ↦
          let (let_in, same, more) = trial_left b.config now c h room in
          let rest = admitted-half_open name times b' _ moved.here same in
          rw (answer, let_in) (ground (arith, rest, moved.config, more))
      | no full ↦
          let (turned_away, same, kept) = no_trial_left b.config now c h (omega arith) in
          let rest = admitted-half_open name times b' _ moved.here same in
          rw (answer, turned_away) (ground (arith, rest, moved.config, kept))
    ]

-- No method writes `last_failure_time`.
abbrev pub IsUntimed : Circuit → Type 0
IsUntimed c = c.last_failure_time ≡ none

IsUntimed-IsStable : IsStable (λ g. Unit) IsUntimed
unfolding counted_success counted_failure settle_success settle_failure admit as_opened as_closed
    as_half_open as_reset
IsUntimed-IsStable = record {
  at_fresh = λ now. refl;
  at_success = λ g ok now c h. ground arith;
  at_failure = λ g ok now c h. ground arith;
  at_timeout = λ c h. h;
  at_admit = λ g ok now c h. ground arith;
  at_reset = λ now c h. h;
}

run-IsUntimed : (calls : List Call) → Every IsUntimed (run calls init)
run-IsUntimed calls =
    run-Every (λ g. Unit) IsUntimed calls init IsUntimed-IsStable
      (Stays-always (λ g. Unit) (λ g. tt) calls init) (Every-init IsUntimed)

open_admits :
    (g : Config) (now : ℕ) (c : Circuit)
    → IsUntimed c
    → c.state ≡ opened
    → ((admit g now c.state c).0 ≡ true)
      × ((admit g now c.state c).1.state ≡ half_open)
      × ((admit g now c.state c).1.half_open_calls ≡ 0)
unfolding admit recovery_timeout_elapsed as_half_open
open_admits g now c untimed h = ground arith

-- After any calls to a new breaker, a circuit that is OPEN lets the next call in, whatever the
-- time since it opened, and becomes HALF_OPEN with no trial call counted: `recovery_timeout` has
-- no effect.
pub can_execute-opened :
    (calls : List Call) (name : String) (now : ℕ) (c : Circuit)
    → Dict.get name (run calls init).circuits ≡ some c
    → c.state ≡ opened
    → let (answer, b') = can_execute name now (run calls init) in
      (answer ≡ true)
      × ((c' : Circuit) × (Dict.get name b'.circuits ≡ some c')
          × (c'.state ≡ half_open)
          × (c'.half_open_calls ≡ 0))
can_execute-opened calls name now c found h =
    let b = run calls init in
    let (answer, moved) = can_execute-found name now b c found in
    let (let_in, trial, none_yet) =
      open_admits b.config now c (run-IsUntimed calls name c found) h in
    (answer ∙ let_in, (_, moved.here, trial, none_yet))

-- In a breaker that any calls have made, an OPEN circuit whose callers report no outcome lets in
-- `half_open_max_calls` + 1 of the calls that ask, or all of them if they are fewer.
pub admitted-opened :
    (calls : List Call) (name : String) (times : List ℕ) (c : Circuit)
    → Dict.get name (run calls init).circuits ≡ some c
    → c.state ≡ opened
    → admitted name times (run calls init)
      ≡ min (length times) ((run calls init).config.half_open_max_calls + 1)
unfolding admitted
admitted-opened calls name [] c found h = omega arith
admitted-opened calls name (now ∷ times) c found h =
    let b = run calls init in
    let (answer, moved) = can_execute-found name now b c found in
    let (let_in, trial, none_yet) =
      open_admits b.config now c (run-IsUntimed calls name c found) h in
    let rest = admitted-half_open name times (can_execute name now b).1 _ moved.here trial in
    rw (answer, let_in) (ground (arith, rest, moved.config, none_yet))

admit-closed :
    (g : Config) (now : ℕ) (s : State) (c : Circuit) → s ≡ closed → admit g now s c ≡ (true, c)
unfolding admit
admit-closed g now s c h = rw h

-- A CLOSED circuit lets every call in, and stays as it is.
pub can_execute-closed :
    (name : String) (now : ℕ) (b : CircuitBreaker) (c : Circuit)
    → Dict.get name b.circuits ≡ some c
    → c.state ≡ closed
    → ((can_execute name now b).0 ≡ true) × Sets name c b (can_execute name now b).1
can_execute-closed name now b c found h =
    subst (λ r. ((can_execute name now b).0 ≡ r.0) × Sets name r.1 b (can_execute name now b).1)
      (admit-closed b.config now c.state c h) (can_execute-found name now b c found)
