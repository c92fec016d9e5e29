-- ===== src/Recovery/CircuitBreaker/Effect/Steps.antt =====
-- Circuits by themselves, for src/recovery/circuit_breaker.py: the circuit of a name, and what a call makes of one.
use text.Mathlib.Text.{◌==◌ as str_eq}
use text.Mathlib.TextEquality.{eq_iff}
use cyber_security_platform.Prelude.{
  ◌⊎◌, ℕ, ◌+◌, String, Bool, true, false, Option, none, some, ◌≡◌, ◌≢◌, refl, ltb, leb,
  if◌then◌else◌, String-IsKey, same-ne, Bool-cases, inl, inr,
}
use cyber_security_platform.Prelude.Dict
use cyber_security_platform.Prelude.Dict.{get-put}
use cyber_security_platform.Recovery.CircuitBreaker.Fields.{
  State, closed, opened, half_open, Config, Circuit, fresh, recovery_timeout_elapsed, as_opened,
  as_closed, as_half_open, counted_success, counted_failure,
}
use cyber_security_platform.Recovery.CircuitBreaker.{CircuitBreaker, store}

-- The circuit of a name as the next call finds it.
abbrev or_fresh : ℕ → Option Circuit → Circuit
or_fresh now none = fresh now
or_fresh now (some c) = c

unfoldable pub current : String → ℕ → CircuitBreaker → Circuit
current name now b = or_fresh now (Dict.get name b.circuits)

-- `b'` is `b` with the circuit `c` under `name`.
pub record Sets (name : String) (c : Circuit) (b b' : CircuitBreaker) : Type 0 where
  pub here : Dict.get name b'.circuits ≡ some c
  pub elsewhere :
      (other : String) → name ≢ other → Dict.get other b'.circuits ≡ Dict.get other b.circuits
  pub config : b'.config ≡ b.config

module _ (name : String) where
  pub store-Sets : (c : Circuit) (b : CircuitBreaker) → Sets name c b (store name c b)
  unfolding store
  store-Sets c b = record {
    here = Dict.get-put_self name c b.circuits;
    elsewhere = λ other h. simp (get-put, same-ne h);
    config = refl;
  }

  pub Sets-Sets :
      {c c' : Circuit} {b b' b'' : CircuitBreaker}
      → Sets name c b b'
      → Sets name c' b' b''
      → Sets name c' b b''
  Sets-Sets s t = record {
    here = t.here;
    elsewhere = λ other h. cc (s.elsewhere other h, t.elsewhere other h);
    config = cc (s.config, t.config);
  }

-- A circuit that is found afterwards is the one that was set, or was there before.
pub Sets-cases :
    {name : String} {c : Circuit} {b b' : CircuitBreaker} (s : Sets name c b b') (other : String)
    (d : Circuit)
    → Dict.get other b'.circuits ≡ some d
    → ((name ≡ other) × (c ≡ d)) ⊎ (Dict.get other b.circuits ≡ some d)
Sets-cases {name} {c} {b} {b'} s other d found = elim (Bool-cases (str_eq name other)) [
  | inl e ↦
      let same : name ≡ other = (eq_iff name other).0 e in inl (same, cc (same, s.here, found))
  | inr e ↦ inr (cc (s.elsewhere other (λ same. cc (e, (eq_iff name other).1 same)), found))
]

-- One circuit by itself: what an outcome does once it is counted, and whether a call is admitted.
unfoldable pub settle_success : Config → ℕ → State → Circuit → Circuit
settle_success g now half_open c =
    if leb g.success_threshold c.consecutive_successes then as_closed now c else c
settle_success g now _ c = c

unfoldable pub settle_failure : Config → ℕ → State → Circuit → Circuit
settle_failure g now closed c =
    if leb g.failure_threshold c.consecutive_failures then as_opened now c else c
settle_failure g now half_open c = as_opened now c
settle_failure g now opened c = c

unfoldable pub admit : Config → ℕ → State → Circuit → Bool × Circuit
admit g now closed c = (true, c)
admit g now opened c =
    if recovery_timeout_elapsed g now c then (true, as_half_open now c) else (false, c)
admit g now half_open c =
    if ltb c.half_open_calls g.half_open_max_calls
    then (true, record c { half_open_calls = c.half_open_calls + 1 })
    else (false, c)

abbrev pub success_step : Config → ℕ → Circuit → Circuit
success_step g now c = settle_success g now (counted_success now c).state (counted_success now c)

abbrev pub failure_step : Config → ℕ → Circuit → Circuit
failure_step g now c = settle_failure g now (counted_failure now c).state (counted_failure now c)

abbrev pub timed_out : Circuit → Circuit
timed_out c = record c { timeouts = c.timeouts + 1 }
