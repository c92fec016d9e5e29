-- ===== src/Recovery/CircuitBreaker/Runs.antt =====
-- The breaker under any sequence of calls: a property of single circuits that every step keeps is
-- a property of all circuits of the breaker.
use mathlib.Core.Path.{subst}
use cyber_security_platform.Prelude.{
  ℕ, String, some, List, [], ◌∷◌, ◌≡◌, String-IsKey, Option-cases, inl, inr,
}
use cyber_security_platform.Prelude.Dict
use cyber_security_platform.Recovery.CircuitBreaker.Fields.{
  Config, ConfigKey, Circuit, fresh, as_reset,
}
use cyber_security_platform.Recovery.CircuitBreaker.{
  CircuitBreaker, init, can_execute, record_success, record_failure, record_timeout, reset_circuit,
  get_state, update_config,
}
use cyber_security_platform.Recovery.CircuitBreaker.Effect.{
  current, Sets, Sets-cases, admit, success_step, failure_step, timed_out, record_success-Sets,
  record_failure-Sets, record_timeout-Sets, can_execute-Sets, reset_circuit-Sets,
  reset_circuit_missing, get_state-Sets,
}

-- The calls that a client makes, each at a reading of the clock.
pub data Call : Type 0 where
  can_execute_call record_success_call record_failure_call record_timeout_call reset_call :
      (name : String) (now : ℕ) → Call
  get_state_call : (name : String) (now : ℕ) → Call
  update_config_call : List (ConfigKey × ℕ) → Call

unfoldable pub perform : Call → CircuitBreaker → CircuitBreaker
perform (can_execute_call name now) b = (can_execute name now b).1
perform (record_success_call name now) b = record_success name now b
perform (record_failure_call name now) b = record_failure name now b
perform (record_timeout_call name now) b = record_timeout name now b
perform (reset_call name now) b = reset_circuit name now b
perform (get_state_call name now) b = (get_state name now b).1
perform (update_config_call updates) b = update_config updates b

unfoldable pub run : List Call → CircuitBreaker → CircuitBreaker
run [] b = b
run (call ∷ calls) b = run calls (perform call b)

-- A property of a circuit that holds of a new one and that every step keeps, under each configuration
-- of a kind.
pub record IsStable (Ok : Config → Type 0) (P : Circuit → Type 0) : Type 0 where
  pub at_fresh : (now : ℕ) → P (fresh now)
  pub at_success : (g : Config) → Ok g → (now : ℕ) (c : Circuit) → P c → P (success_step g now c)
  pub at_failure : (g : Config) → Ok g → (now : ℕ) (c : Circuit) → P c → P (failure_step g now c)
  pub at_timeout : (c : Circuit) → P c → P (timed_out c)
  pub at_admit : (g : Config) → Ok g → (now : ℕ) (c : Circuit) → P c → P (admit g now c.state c).1
  pub at_reset : (now : ℕ) (c : Circuit) → P c → P (as_reset now c)

-- The configuration is of this kind before and after each of the calls.
abbrev pub Stays : (Config → Type 0) → List Call → CircuitBreaker → Type 0
Stays Ok [] b = Ok b.config
Stays Ok (call ∷ calls) b = Ok b.config × Stays Ok calls (perform call b)

pub Stays-always :
    (Ok : Config → Type 0)
    → ((g : Config) → Ok g)
    → (calls : List Call) (b : CircuitBreaker) → Stays Ok calls b
Stays-always Ok all [] b = all b.config
Stays-always Ok all (call ∷ calls) b = (all b.config, Stays-always Ok all calls (perform call b))

-- `P` holds of every circuit of the breaker.
abbrev pub Every : (Circuit → Type 0) → CircuitBreaker → Type 0
Every P b = (name : String) (c : Circuit) → Dict.get name b.circuits ≡ some c → P c

module _ (P : Circuit → Type 0) where
  Sets-Every :
      {name : String} {c : Circuit} {b b' : CircuitBreaker}
      → Sets name c b b'
      → Every P b
      → P c
      → Every P b'
  Sets-Every s v h other d found = elim (Sets-cases s other d found) [
    | inl (_, e) ↦ subst P e h
    | inr old ↦ v other d old
  ]

  pub current-Every :
      (b : CircuitBreaker)
      → ((now : ℕ) → P (fresh now))
      → Every P b
      → (name : String) (now : ℕ) → P (current name now b)
  unfolding current
  current-Every b new v name now = elim (Option-cases (Dict.get name b.circuits)) [
    | inl absent ↦ rw (absent, current) (new now)
    | inr (c, old) ↦ rw (old, current) (v name c old)
  ]

  pub perform-Every :
      (Ok : Config → Type 0) (call : Call) (b : CircuitBreaker)
      → IsStable Ok P
      → Ok b.config
      → Every P b
      → Every P (perform call b)
  unfolding perform update_config
  perform-Every Ok (can_execute_call name now) b t ok v =
      Sets-Every (can_execute-Sets name now b).1 v
        (t.at_admit b.config ok now _ (current-Every b t.at_fresh v name now))
  perform-Every Ok (record_success_call name now) b t ok v =
      Sets-Every (record_success-Sets name now b) v
        (t.at_success b.config ok now _ (current-Every b t.at_fresh v name now))
  perform-Every Ok (record_failure_call name now) b t ok v =
      Sets-Every (record_failure-Sets name now b) v
        (t.at_failure b.config ok now _ (current-Every b t.at_fresh v name now))
  perform-Every Ok (record_timeout_call name now) b t ok v =
      Sets-Every (record_timeout-Sets name now b) v
        (t.at_failure b.config ok now _ (t.at_timeout _ (current-Every b t.at_fresh v name now)))
  perform-Every Ok (reset_call name now) b t ok v = elim (Option-cases (Dict.get name b.circuits)) [
    | inl missing ↦ rw (reset_circuit_missing name now b missing) v
    | inr (c, found) ↦
        Sets-Every (reset_circuit-Sets name now b found) v (t.at_reset now c (v name c found))
  ]
  perform-Every Ok (get_state_call name now) b t ok v =
      Sets-Every (get_state-Sets name now b) v (current-Every b t.at_fresh v name now)
  perform-Every Ok (update_config_call updates) b t ok v = v

pub run-Every :
    (Ok : Config → Type 0) (P : Circuit → Type 0) (calls : List Call) (b : CircuitBreaker)
    → IsStable Ok P
    → Stays Ok calls b
    → Every P b
    → Every P (run calls b)
unfolding run
run-Every Ok P [] b t stays v = v
run-Every Ok P (call ∷ calls) b t stays v =
    run-Every Ok P calls (perform call b) t stays.1 (perform-Every P Ok call b t stays.0 v)

pub Every-init : (P : Circuit → Type 0) → Every P init
unfolding Dict.get
Every-init P name c h = cc
