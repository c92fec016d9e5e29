-- ===== src/Scheduler/Quota/Executions.antt =====
-- Executions that start and end: the counts of active ones, the quotas they are checked against,
-- and the use that is recorded for them.
use Prim.Native.Char.{code}
use text.Mathlib.TextLemmas.{cons-append}
use cyber_security_platform.Prelude.{
  ℕ, ◌+◌, ◌-◌, ◌≤◌, String, Option, some, ◌≡◌, ◌≢◌, refl, sym, ap, ◌∙◌, arith, if◌then◌else◌,
  String-IsKey, ◌==◌,
}
use cyber_security_platform.Prelude.Dict
use cyber_security_platform.Prelude.Dict.{Dict, get-put, get_default-put}
use cyber_security_platform.Scheduler.Quota.{
  QuotaType, concurrent_executions, Quota, QuotaManager, passed, check_concurrent_limit,
  check_concurrent_quota, check_quota, tenant_key, user_key, active, QuotaType-IsKey,
}
use cyber_security_platform.Scheduler.Quota.Tracking.{
  increment_usage, count_up, count_down, start_execution, end_execution,
}

active-count_up :
    (key other : String) (m : QuotaManager)
    → active other (count_up key m) ≡ (if key == other then active key m + 1 else active other m)
unfolding active count_up
active-count_up key other m = get_default-put _ _ _ _ m.active_executions

active-count_down :
    (key other : String) (m : QuotaManager)
    → active other (count_down key m) ≡ (if key == other then active key m - 1 else active other m)
unfolding active count_down Dict.get_default
active-count_down key other m = ground (
  arith,
  get-put key other (active key m - 1) m.active_executions,
  String-IsKey.same_iff key other,
)

-- The keys of tenants and of users are apart: they begin with another character.
first_code : String → ℕ
first_code String.[] = 0
first_code (String.◌∷◌ c s) = code c

pub tenant_key-ne-user_key : (tenant user : String) → tenant_key tenant ≢ user_key user
tenant_key-ne-user_key tenant user e = omega (arith, sym at_tenant ∙ ap first_code e ∙ at_user)
  where
    at_tenant : first_code (tenant_key tenant) ≡ 116
    at_tenant = unfold first_code tenant_key in rw cons-append

    at_user : first_code (user_key user) ≡ 117
    at_user = unfold first_code user_key in rw cons-append

active-start :
    (now : ℕ) (tenant user key : String) (m : QuotaManager)
    → active key (start_execution now tenant user m)
      ≡ active key (count_up (user_key user) (count_up (tenant_key tenant) m))
unfolding active start_execution increment_usage
active-start now tenant user key m = refl

-- An execution that ends gives back, under every key, what it took when it started.
pub active-end-start :
    (now : ℕ) (tenant user key : String) (m : QuotaManager)
    → active key (end_execution tenant user (start_execution now tenant user m)) ≡ active key m
unfolding end_execution
active-end-start now tenant user key m =
    let t = tenant_key tenant in
    let u = user_key user in
    let started = start_execution now tenant user m in
    let m1 = count_up t m in
    ground (
      arith,
      active-count_down u key (count_down t started),
      active-count_down t u started,
      active-count_down t key started,
      active-start now tenant user key m,
      active-start now tenant user t m,
      active-start now tenant user u m,
      active-count_up u key m1,
      active-count_up u t m1,
      active-count_up u u m1,
      active-count_up t key m,
      active-count_up t t m,
      active-count_up t u m,
      String-IsKey.same_iff u key,
      String-IsKey.same_iff t key,
      String-IsKey.same_iff t t,
      String-IsKey.same_iff u u,
      String-IsKey.same_iff u t,
      String-IsKey.same_iff t u,
      tenant_key-ne-user_key tenant user,
    )

-- A tenant with a limit on concurrent executions: a start that the check has passed keeps the count
-- within the limit.
pub start_execution-le_limit :
    (now : ℕ) (tenant user : String) (only : Option QuotaType) (m : QuotaManager)
    (quotas : Dict QuotaType Quota) (quota : Quota)
    → Dict.get tenant m.tenant_quotas ≡ some quotas
    → Dict.get concurrent_executions quotas ≡ some quota
    → check_quota tenant user now only m ≡ passed
    → active (tenant_key tenant) (start_execution now tenant user m) ≤ quota.limit
unfolding check_quota check_concurrent_quota check_concurrent_limit
start_execution-le_limit now tenant user only m quotas quota found limited ok =
    let t = tenant_key tenant in
    let u = user_key user in
    ground (
      arith,
      active-start now tenant user t m,
      active-count_up u t (count_up t m),
      active-count_up t t m,
      String-IsKey.same_iff t t,
      String-IsKey.same_iff u t,
      tenant_key-ne-user_key tenant user,
    )
