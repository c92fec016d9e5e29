-- ===== src/Scheduler/Quota/Tracking.antt =====
-- The methods of src/scheduler/quota_manager.py that track use: increments, and executions that
-- start and end.
use cyber_security_platform.Prelude.{
  ℕ, ◌+◌, ◌-◌, ◌*◌, String, none, some, List, [], ◌∷◌, ◌++◌, map, leb, filter_by, String-IsKey,
}
use cyber_security_platform.Prelude.Calendar.{day}
use cyber_security_platform.Prelude.Dict
use cyber_security_platform.Prelude.Dict.{Dict}
use cyber_security_platform.Scheduler.Quota.{
  QuotaType, daily_executions, monthly_executions, Quota, Usage, QuotaManager, usage_key, get_usage,
  tenant_key, user_key, active, QuotaType-IsKey,
}

-- The records that are left: those of the last 31 days.
unfoldable pub recent : ℕ → List Usage → List Usage
recent now = filter_by (λ u. leb (now - 31 * day) u.timestamp)

unfoldable pub increment_usage : ℕ → String → QuotaType → ℕ → QuotaManager → QuotaManager
unfolding recent
increment_usage now entity quota_type amount m =
    let key = usage_key entity quota_type in
    let records = Dict.get_default key [] m.usage in
    record m {
      usage =
          Dict.put key (recent now (records ++ record { timestamp = now; amount = amount } ∷ []))
            m.usage;
    }

-- `self.active_executions[key] = self.active_executions.get(key, 0) + 1`
unfoldable pub count_up : String → QuotaManager → QuotaManager
unfolding active
count_up key m = record m {
  active_executions = Dict.put key (active key m + 1) m.active_executions;
}

-- `if key in self.active_executions: ... = max(0, ... - 1)`
unfoldable pub count_down : String → QuotaManager → QuotaManager
count_down key m = elim (Dict.get key m.active_executions) [
  | none ↦ m
  | some n ↦ record m { active_executions = Dict.put key (n - 1) m.active_executions }
]

module _ (now : ℕ) (tenant user : String) where
  unfoldable pub start_execution : QuotaManager → QuotaManager
  start_execution m =
      let counted = count_up (user_key user) (count_up (tenant_key tenant) m) in
      let m1 = increment_usage now (tenant_key tenant) daily_executions 1 counted in
      let m2 = increment_usage now (tenant_key tenant) monthly_executions 1 m1 in
      let m3 = increment_usage now (user_key user) daily_executions 1 m2 in
      increment_usage now (user_key user) monthly_executions 1 m3

unfoldable pub end_execution : String → String → QuotaManager → QuotaManager
end_execution tenant user m = count_down (user_key user) (count_down (tenant_key tenant) m)

-- An entry of `get_quota_status`: the limit, the use and the period.
pub record Status : Type 0 where
  pub limit : ℕ
  pub usage : ℕ
  pub period : String

unfoldable pub status_of :
    ℕ → QuotaManager → String → Dict QuotaType Quota → List (QuotaType × Status)
status_of now m entity = map (λ e. (
  e.0,
  record { limit = e.1.limit; usage = get_usage now m entity e.0 e.1.period; period = e.1.period },
))

pub record QuotaStatus : Type 0 where
  pub tenant : List (QuotaType × Status)
  pub user : List (QuotaType × Status)
  pub concurrent_tenant : ℕ
  pub concurrent_user : ℕ

unfoldable pub get_quota_status : ℕ → String → String → QuotaManager → QuotaStatus
unfolding status_of
get_quota_status now tenant user m = record {
  tenant = status_of now m (tenant_key tenant) (Dict.get_default tenant [] m.tenant_quotas);
  user = status_of now m (user_key user) (Dict.get_default user [] m.user_quotas);
  concurrent_tenant = active (tenant_key tenant) m;
  concurrent_user = active (user_key user) m;
}
