-- ===== src/Scheduler/Quota.antt =====
-- src/scheduler/quota_manager.py. The clock is read once in a call; QuotaExceededError is a value.
pub mod Tracking
pub mod Usages
pub mod Enforcement
pub mod Executions
mod Samples
use Prim.Native.String.{◌++◌ as append}
use cyber_security_platform.Prelude.{
  ℕ, zero, suc, ◌+◌, ◌-◌, ◌*◌, String, Bool, true, false, Option, none, some, List, [], ◌∷◌, ◌++◌,
  ◌≡◌, ◌↔◌, arith, ltb, leb, nat_beq, nat_beq_iff, if◌then◌else◌, filter_by, IsKey, ◌==◌,
  String-IsKey,
}
use cyber_security_platform.Prelude.Calendar.{
  day, weekday, start_of_day, start_of_month, start_of_year,
}
use cyber_security_platform.Prelude.Dict
use cyber_security_platform.Prelude.Dict.{Dict}
use cyber_security_platform.Prelude.Keys.{join}

pub data QuotaType : Type 0 where
  daily_executions monthly_executions concurrent_executions : QuotaType
  daily_cost monthly_cost tool_usage : QuotaType

-- `quota_type.value`
unfoldable pub value : QuotaType → String
value daily_executions = "daily_executions"
value monthly_executions = "monthly_executions"
value concurrent_executions = "concurrent_executions"
value daily_cost = "daily_cost"
value monthly_cost = "monthly_cost"
value tool_usage = "tool_usage"

abbrev position : QuotaType → ℕ
position daily_executions = 0
position monthly_executions = 1
position concurrent_executions = 2
position daily_cost = 3
position monthly_cost = 4
position tool_usage = 5

abbrev same_type : QuotaType → QuotaType → Bool
same_type a b = nat_beq (position a) (position b)

pub same_type_iff : (a b : QuotaType) → (same_type a b ≡ true) ↔ (a ≡ b)
same_type_iff a b = ground arith

instance abbrev pub QuotaType-IsKey : IsKey QuotaType
QuotaType-IsKey = record { same = same_type; same_iff = same_type_iff }

-- A quota's configuration.
pub record Quota : Type 0 where
  pub limit : ℕ
  pub period : String
  pub grace_period : ℕ
  pub created_at : ℕ

-- A record of use.
pub record Usage : Type 0 where
  pub timestamp : ℕ
  pub amount : ℕ

pub record QuotaManager : Type 0 where
  pub tenant_quotas : Dict String (Dict QuotaType Quota)
  pub user_quotas : Dict String (Dict QuotaType Quota)
  pub usage : Dict String (List Usage)
  pub active_executions : Dict String ℕ

abbrev pub init : QuotaManager
init = record { tenant_quotas = []; user_quotas = []; usage = []; active_executions = [] }

-- `None`, or the quota type of the QuotaExceededError that is raised.
pub data Verdict : Type 0 where
  passed : Verdict
  exceeded : QuotaType → Verdict

infixl 6 ◌then_check◌
-- The next check runs if the one before did not raise.
abbrev pub ◌then_check◌ : Verdict → Verdict → Verdict
passed then_check next = next
(exceeded q) then_check next = exceeded q

configured :
    QuotaType
    → Quota
    → String
    → Dict String (Dict QuotaType Quota)
    → Dict String (Dict QuotaType Quota)
configured quota_type quota entity quotas =
    Dict.put entity (Dict.put quota_type quota (Dict.get_default entity [] quotas)) quotas

module _ (now : ℕ) (entity : String) (quota_type : QuotaType) (limit : ℕ) (period : String)
    (grace_period : ℕ) where
  abbrev new_quota : Quota
  new_quota = record {
    limit = limit;
    period = period;
    grace_period = grace_period;
    created_at = now;
  }

  pub configure_tenant_quota : QuotaManager → QuotaManager
  unfolding configured
  configure_tenant_quota m = record m {
    tenant_quotas = configured quota_type new_quota entity m.tenant_quotas;
  }

  pub configure_user_quota : QuotaManager → QuotaManager
  unfolding configured
  configure_user_quota m = record m {
    user_quotas = configured quota_type new_quota entity m.user_quotas;
  }

pub get_period_cutoff : ℕ → String → ℕ
get_period_cutoff now period =
    if period == "daily"
    then start_of_day now
    else if period == "weekly"
    then now - weekday now * day
    else if period == "monthly"
    then start_of_month now
    else if period == "yearly"
    then start_of_year now
    else now - 30 * day

-- The `for` loop of `_get_usage`.
pub total_since : ℕ → List Usage → ℕ
total_since cutoff [] = 0
total_since cutoff (u ∷ us) =
    (if leb cutoff u.timestamp then u.amount else 0) + total_since cutoff us

pub usage_key : String → QuotaType → String
usage_key entity quota_type = join entity (value quota_type)

module _ (now : ℕ) (m : QuotaManager) where
  pub get_usage : String → QuotaType → String → ℕ
  get_usage entity quota_type period = elim (Dict.get (usage_key entity quota_type) m.usage) [
    | none ↦ 0
    | some records ↦ total_since (get_period_cutoff now period) records
  ]

  -- "Track grace usage separately": the method returns 0.
  pub get_grace_usage : String → QuotaType → ℕ
  get_grace_usage entity quota_type = 0

  pub check_quota_value : String → QuotaType → Quota → Verdict
  unfolding get_grace_usage
  check_quota_value entity quota_type quota =
      if leb quota.limit (get_usage entity quota_type quota.period)
      then (if ltb 0 quota.grace_period
          then (if ltb (get_grace_usage entity quota_type) quota.grace_period
              then passed
              else exceeded quota_type)
          else exceeded quota_type)
      else passed

  -- `if quota_type and qtype != quota_type: continue`
  skipped : Option QuotaType → QuotaType → Bool
  skipped none qtype = false
  skipped (some only) qtype = if qtype == only then false else true

  -- The loop over the quotas of one entity.
  pub check_quotas : String → Option QuotaType → Dict QuotaType Quota → Verdict
  unfolding skipped
  check_quotas entity only [] = passed
  check_quotas entity only ((qtype, quota) ∷ quotas) =
      (if skipped only qtype then passed else check_quota_value entity qtype quota)
      then_check check_quotas entity only quotas

-- One half of `_check_concurrent_quota`.
pub check_concurrent_limit : Dict String (Dict QuotaType Quota) → String → ℕ → Verdict
check_concurrent_limit quotas entity count = elim (Dict.get entity quotas) [
  | none ↦ passed
  | some of_entity ↦ elim (Dict.get concurrent_executions of_entity) [
    | none ↦ passed
    | some quota ↦ if leb quota.limit count then exceeded concurrent_executions else passed
  ]
]

pub tenant_key : String → String
tenant_key tenant = append "tenant:" tenant

pub user_key : String → String
user_key user = append "user:" user

pub active : String → QuotaManager → ℕ
active key m = Dict.get_default key 0 m.active_executions

module _ (tenant user : String) where
  pub check_concurrent_quota : QuotaManager → Verdict
  unfolding tenant_key user_key
  check_concurrent_quota m =
      check_concurrent_limit m.tenant_quotas tenant (active (tenant_key tenant) m)
      then_check check_concurrent_limit m.user_quotas user (active (user_key user) m)

  pub check_quota : ℕ → Option QuotaType → QuotaManager → Verdict
  check_quota now quota_type m =
      check_concurrent_quota m
      then_check check_quotas now m tenant quota_type (Dict.get_default tenant [] m.tenant_quotas)
      then_check check_quotas now m user quota_type (Dict.get_default user [] m.user_quotas)
