-- ===== src/Scheduler/Quota/Enforcement.antt =====
-- When a quota is enforced, and what the use of executions has to do with it.
use text.Mathlib.TextEquality.{eq_iff}
use cyber_security_platform.Prelude.{
  ℕ, ◌+◌, String, Option, none, List, [], ◌∷◌, ◌≡◌, ◌≢◌, refl, sym, ◌∙◌, arith, leb, nat_beq, ◌&&◌,
  if◌then◌else◌, String-IsKey,
}
use cyber_security_platform.Prelude.Dict
use cyber_security_platform.Prelude.Dict.{Dict}
use cyber_security_platform.Prelude.Keys.{last_part, join_inj}
use cyber_security_platform.Scheduler.Quota.{
  QuotaType, daily_executions, monthly_executions, concurrent_executions, daily_cost, monthly_cost,
  tool_usage, Quota, QuotaManager, passed, exceeded, value, usage_key, get_usage, check_quota_value,
  check_quotas, check_quota, check_concurrent_quota, tenant_key, user_key, QuotaType-IsKey,
}
use cyber_security_platform.Scheduler.Quota.Tracking.{
  increment_usage, count_up, count_down, start_execution, end_execution,
}
use cyber_security_platform.Scheduler.Quota.Executions.{tenant_key-ne-user_key}
use cyber_security_platform.Scheduler.Quota.Usages.{get_usage-increment_ne, get_usage-increment}

-- The check of one quota fails exactly if its limit is reached and it has no grace period: with a
-- grace period it never fails, however far the use is over the limit.
pub check_quota_value_exact :
    (now : ℕ) (m : QuotaManager) (entity : String) (q : QuotaType) (quota : Quota)
    → check_quota_value now m entity q quota ≡ (
        if leb quota.limit (get_usage now m entity q quota.period) && nat_beq quota.grace_period 0
        then exceeded q
        else passed)
unfolding check_quota_value
check_quota_value_exact now m entity q quota = ground arith

-- The names of quota types have no colon, so an entity's key is another entity's only if they are
-- the same entity.
last_part-value : (q : QuotaType) → last_part (value q) ≡ none
unfolding last_part value
last_part-value daily_executions = refl
last_part-value monthly_executions = refl
last_part-value concurrent_executions = refl
last_part-value daily_cost = refl
last_part-value monthly_cost = refl
last_part-value tool_usage = refl

usage_key-ne : (a b : String) (q r : QuotaType) → a ≢ b → usage_key a q ≢ usage_key b r
unfolding usage_key
usage_key-ne a b q r h e =
    h (join_inj a b (value q) (value r) (last_part-value q) (last_part-value r) e).0

-- Executions that start and end, in any order.
pub data Event : Type 0 where
  started : (now : ℕ) (tenant user : String) → Event
  ended : (tenant user : String) → Event

unfoldable pub replay : List Event → QuotaManager → QuotaManager
replay [] m = m
replay (started now tenant user ∷ events) m = replay events (start_execution now tenant user m)
replay (ended tenant user ∷ events) m = replay events (end_execution tenant user m)

-- An entity whose name does not itself begin with "tenant:" or "user:".
abbrev pub IsPlain : String → Type 0
IsPlain entity = (x : String) → (tenant_key x ≢ entity) × (user_key x ≢ entity)

module _ (entity : String) (plain : IsPlain entity) (later : ℕ) (q : QuotaType)
    (period : String) where
  untouched :
      (now : ℕ) (other : String) (r : QuotaType) (m : QuotaManager)
      → other ≢ entity
      → get_usage later (increment_usage now other r 1 m) entity q period
        ≡ get_usage later m entity q period
  untouched now other r m h =
      get_usage-increment_ne later now other r 1 m entity q period (usage_key-ne other entity r q h)

  get_usage-start :
      (now : ℕ) (tenant user : String) (m : QuotaManager)
      → get_usage later (start_execution now tenant user m) entity q period
        ≡ get_usage later m entity q period
  unfolding start_execution count_up get_usage
  get_usage-start now tenant user m =
      let t = tenant_key tenant in
      let u = user_key user in
      let counted = count_up u (count_up t m) in
      let m1 = increment_usage now t daily_executions 1 counted in
      let m2 = increment_usage now t monthly_executions 1 m1 in
      let m3 = increment_usage now u daily_executions 1 m2 in
      untouched now u monthly_executions m3 (plain user).1
      ∙ untouched now u daily_executions m2 (plain user).1
      ∙ untouched now t monthly_executions m1 (plain tenant).0
      ∙ untouched now t daily_executions counted (plain tenant).0

  get_usage-end :
      (tenant user : String) (m : QuotaManager)
      → get_usage later (end_execution tenant user m) entity q period
        ≡ get_usage later m entity q period
  unfolding get_usage end_execution count_down
  get_usage-end tenant user m = ground arith

  get_usage-replay :
      (events : List Event) (m : QuotaManager)
      → get_usage later (replay events m) entity q period ≡ get_usage later m entity q period
  unfolding replay
  get_usage-replay [] m = refl
  get_usage-replay (started now tenant user ∷ events) m =
      get_usage-replay events (start_execution now tenant user m)
      ∙ get_usage-start now tenant user m
  get_usage-replay (ended tenant user ∷ events) m =
      get_usage-replay events (end_execution tenant user m) ∙ get_usage-end tenant user m

daily-ne-monthly :
    (entity : String) → usage_key entity monthly_executions ≢ usage_key entity daily_executions
unfolding usage_key value last_part
daily-ne-monthly entity e =
    cc (
      (eq_iff "monthly_executions" "daily_executions").1 (join_inj entity entity _ _ refl refl e).1)

quotas-replay :
    (events : List Event) (m : QuotaManager)
    → ((replay events m).tenant_quotas ≡ m.tenant_quotas)
      × ((replay events m).user_quotas ≡ m.user_quotas)
unfolding replay start_execution increment_usage count_up end_execution count_down
quotas-replay [] m = (refl, refl)
quotas-replay (started now tenant user ∷ events) m =
    quotas-replay events (start_execution now tenant user m)
quotas-replay (ended tenant user ∷ events) m =
    let (same_tenant, same_user) = quotas-replay events (end_execution tenant user m) in
    ground arith

check_quota_value-replay :
    (later : ℕ) (m : QuotaManager) (events : List Event) (entity : String) (q : QuotaType)
    (quota : Quota)
    → IsPlain entity
    → check_quota_value later (replay events m) entity q quota
      ≡ check_quota_value later m entity q quota
check_quota_value-replay later m events entity q quota plain =
    rw (check_quota_value_exact, check_quota_value_exact later m)
      (rw (get_usage-replay entity plain later q quota.period events m))

check_quotas-replay :
    (later : ℕ) (m : QuotaManager) (events : List Event) (entity : String) (only : Option QuotaType)
    (quotas : Dict QuotaType Quota)
    → IsPlain entity
    → check_quotas later (replay events m) entity only quotas
      ≡ check_quotas later m entity only quotas
unfolding check_quotas
check_quotas-replay later m events entity only [] plain = refl
check_quotas-replay later m events entity only ((q, quota) ∷ quotas) plain = rw (
  check_quota_value-replay later m events entity q quota plain,
  check_quotas-replay later m events entity only quotas plain,
)

-- For a tenant and a user of plain names, executions that start and end never use up a quota: a
-- check that passes before them still passes after them, unless the limit on concurrent executions
-- is reached.
pub check_quota-replay :
    (later : ℕ) (tenant user : String) (only : Option QuotaType) (events : List Event)
    (m : QuotaManager)
    → IsPlain tenant
    → IsPlain user
    → check_quota tenant user later only m ≡ passed
    → check_concurrent_quota tenant user (replay events m) ≡ passed
    → check_quota tenant user later only (replay events m) ≡ passed
unfolding check_quota
check_quota-replay later tenant user only events m plain_tenant plain_user before free =
    let (same_tenant, same_user) = quotas-replay events m in
    let of_tenant = Dict.get_default tenant [] m.tenant_quotas in
    let of_user = Dict.get_default user [] m.user_quotas in
    rw (same_tenant, same_user)
      (ground (
        arith,
        check_quotas-replay later m events tenant only of_tenant plain_tenant,
        check_quotas-replay later m events user only of_user plain_user,
      ))

-- `get_quota_status` looks where `start_execution` writes: the use of the day that it reports for a
-- tenant goes up by one with each execution that the tenant starts.
pub get_usage-start_execution :
    (now : ℕ) (tenant user : String) (m : QuotaManager)
    → get_usage now (start_execution now tenant user m) (tenant_key tenant) daily_executions "daily"
      ≡ get_usage now m (tenant_key tenant) daily_executions "daily" + 1
unfolding start_execution
get_usage-start_execution now tenant user m =
    let t = tenant_key tenant in
    let u = user_key user in
    let q = daily_executions in
    let counted = count_up u (count_up t m) in
    let m1 = increment_usage now t daily_executions 1 counted in
    let m2 = increment_usage now t monthly_executions 1 m1 in
    let m3 = increment_usage now u daily_executions 1 m2 in
    let apart =
      λ (r : QuotaType). usage_key-ne u t r q (λ e. tenant_key-ne-user_key tenant user (sym e)) in
    get_usage-increment_ne now now u monthly_executions 1 m3 t q "daily" (apart monthly_executions)
    ∙ get_usage-increment_ne now now u daily_executions 1 m2 t q "daily" (apart daily_executions)
    ∙ get_usage-increment_ne now now t monthly_executions 1 m1 t q "daily" (daily-ne-monthly t)
    ∙ get_usage-increment now t q "daily" 1 counted not_yearly
    ∙ uncounted
  where
    not_yearly : ◌≢◌ {A = String} "daily" "yearly"
    not_yearly e = cc ((eq_iff "daily" "yearly").1 e)

    uncounted :
        get_usage now
            (count_up (user_key user) (count_up (tenant_key tenant) m))
            (tenant_key tenant)
            daily_executions
            "daily"
          + 1
        ≡ get_usage now m (tenant_key tenant) daily_executions "daily" + 1
    uncounted = unfold get_usage count_up in refl
