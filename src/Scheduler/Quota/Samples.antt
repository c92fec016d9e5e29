-- ===== src/Scheduler/Quota/Samples.antt =====
-- The quota manager on small inputs.
use text.Mathlib.Text.{starts_with}
use text.Mathlib.TextPositions.{starts_with-append}
use cyber_security_platform.Prelude.{
  ℕ, ◌≤◌, String, false, none, some, List, [], ◌∷◌, ◌≡◌, refl, String-IsKey,
}
use cyber_security_platform.Prelude.Calendar.{
  start_of_day, days_into_month, start_of_month, start_of_year, days_into_year,
}
use cyber_security_platform.Prelude.Dict
use cyber_security_platform.Prelude.Keys.{join}
use cyber_security_platform.Scheduler.Quota.{
  QuotaType, daily_executions, concurrent_executions, Quota, QuotaManager, init,
  configure_tenant_quota, check_quota, check_quotas, check_quota_value, check_concurrent_quota,
  check_concurrent_limit, get_usage, get_period_cutoff, total_since, passed, value, usage_key,
  tenant_key, user_key, active, QuotaType-IsKey,
}
use cyber_security_platform.Scheduler.Quota.Tracking.{
  increment_usage, start_execution, end_execution, recent, count_up, count_down,
}
use cyber_security_platform.Scheduler.Quota.Executions.{start_execution-le_limit}
use cyber_security_platform.Scheduler.Quota.Enforcement.{
  Event, started, ended, replay, IsPlain, check_quota-replay,
}

program : Unit {0}
unfolding configure_tenant_quota check_quota check_quotas check_quota_value check_concurrent_quota
    check_concurrent_limit get_usage get_period_cutoff total_since value usage_key tenant_key
    user_key active recent start_execution increment_usage count_up end_execution count_down replay
    Dict.get Dict.put Dict.get_default join start_of_day start_of_month days_into_month
    start_of_year days_into_year
program = tt

-- Noon of 17 July 2024.
abbrev noon : ℕ
noon = 1_721_217_600_000_000

-- A tenant with one execution a day, and two at a time.
abbrev limited : QuotaManager
limited =
    configure_tenant_quota noon "acme" concurrent_executions 2 "daily" 0
      (configure_tenant_quota noon "acme" daily_executions 1 "daily" 0 init)

abbrev busy : List Event
busy = started noon "acme" "ann" ∷ ended "acme" "ann" ∷ started noon "acme" "bob" ∷ []

limited_passes : check_quota "acme" "ann" noon none limited ≡ passed
unfolding program
limited_passes = refl

busy_free : check_concurrent_quota "acme" "ann" (replay busy limited) ≡ passed
unfolding program
busy_free = refl

plain :
    (entity : String)
    → starts_with entity "tenant:" ≡ false
    → starts_with entity "user:" ≡ false
    → IsPlain entity
unfolding tenant_key user_key
plain entity no_tenant no_user x = (
  λ e. cc (no_tenant, e, starts_with-append "tenant:" x),
  λ e. cc (no_user, e, starts_with-append "user:" x),
)

check_quota-replay_example : check_quota "acme" "ann" noon none (replay busy limited) ≡ passed
check_quota-replay_example =
    check_quota-replay noon "acme" "ann" none busy limited (plain "acme" refl refl)
      (plain "ann" refl refl) limited_passes busy_free

abbrev of_acme : List (QuotaType × Quota)
of_acme = Dict.get_default "acme" [] limited.tenant_quotas

abbrev two_at_a_time : Quota
two_at_a_time = record { limit = 2; period = "daily"; grace_period = 0; created_at = noon }

of_acme_found :
    (Dict.get "acme" limited.tenant_quotas ≡ some of_acme)
    × (Dict.get concurrent_executions of_acme ≡ some two_at_a_time)
unfolding program
of_acme_found = (refl, refl)

start_execution-le_limit_example :
    active (tenant_key "acme") (start_execution noon "acme" "ann" limited) ≤ 2
start_execution-le_limit_example =
    start_execution-le_limit noon "acme" "ann" none limited of_acme two_at_a_time of_acme_found.0
      of_acme_found.1 limited_passes

abbrev used : QuotaManager
used = increment_usage noon "acme" daily_executions 1 limited
