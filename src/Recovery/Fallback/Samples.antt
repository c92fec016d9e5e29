-- ===== src/Recovery/Fallback/Samples.antt =====
-- The fallback manager on small inputs.
use cyber_security_platform.Prelude.{
  ℕ, String, none, some, [], ◌∷◌, ◌≡◌, refl, String-IsKey, ◌==◌, if◌then◌else◌,
}
use cyber_security_platform.Prelude.Dict
use cyber_security_platform.Recovery.Fallback.{
  Fallback, FallbackManager, init, no_conditions, Caller, Outcome, returned, raised,
  register_fallback, sort_by_priority,
}

abbrev two : FallbackManager
two =
    register_fallback 1 "scan" "cached" 20 no_conditions
      (register_fallback 0 "scan" "slow" 30 no_conditions init)

abbrev caller : Caller
caller = record { task_type = some "scan"; params = [] }

-- "cached" raises and "slow" returns 7.
abbrev calls : String → Outcome ℕ
calls f = if f == "slow" then returned (some 7) else raised

abbrev handler : ℕ → String → ℕ → Fallback
handler now func priority = record {
  func = func;
  priority = priority;
  conditions = no_conditions;
  registered_at = now;
  success_count = 0;
  failure_count = 0;
  last_success = none;
}

two_found : Dict.get "scan" two.fallbacks ≡ some (handler 1 "cached" 20 ∷ handler 0 "slow" 30 ∷ [])
unfolding register_fallback sort_by_priority Dict.get Dict.put Dict.get_default
two_found = refl
