-- ===== src/Scheduler/Quota/Usages.antt =====
-- What `get_usage` reports after `increment_usage`.
use cyber_security_platform.Prelude.{
  ℕ, ◌+◌, ◌-◌, ◌*◌, ◌≤◌, max, String, List, [], ◌∷◌, ◌++◌, ◌≡◌, ◌≢◌, refl, arith, leb, le→leb,
  if◌then◌else◌, String-IsKey, same-ne,
}
use cyber_security_platform.Prelude.Calendar.{
  day, weekday, start_of_day, start_of_month, days_into_month-le,
}
use cyber_security_platform.Prelude.Dict
use cyber_security_platform.Prelude.Dict.{get-put, get_default-put_self}
use cyber_security_platform.Scheduler.Quota.{
  QuotaType, Usage, QuotaManager, usage_key, get_usage, get_period_cutoff, total_since,
}
use cyber_security_platform.Scheduler.Quota.Tracking.{recent, increment_usage}

-- The records under an entity's key.
abbrev pub records : QuotaManager → String → QuotaType → List Usage
records m entity quota_type = Dict.get_default (usage_key entity quota_type) [] m.usage

pub get_usage-records :
    (now : ℕ) (m : QuotaManager) (entity : String) (q : QuotaType) (period : String)
    → get_usage now m entity q period
      ≡ total_since (get_period_cutoff now period) (records m entity q)
unfolding get_usage total_since Dict.get_default
get_usage-records now m entity q period = ground arith

total_since-append :
    (c : ℕ) (us vs : List Usage) → total_since c (us ++ vs) ≡ total_since c us + total_since c vs
unfolding total_since
total_since-append c [] vs = omega arith
total_since-append c (u ∷ us) vs = omega (arith, total_since-append c us vs)

total_since-recent :
    (c now : ℕ) (us : List Usage)
    → total_since c (recent now us) ≡ total_since (max c (now - 31 * day)) us
unfolding total_since recent
total_since-recent c now [] = refl
total_since-recent c now (u ∷ us) = ground (arith, total_since-recent c now us)

-- The cutoffs of all periods but the year lie in the last 31 days.
pub get_period_cutoff_bounds :
    (now : ℕ) (period : String)
    → period ≢ "yearly"
    → (now - 31 * day ≤ get_period_cutoff now period) × (get_period_cutoff now period ≤ now)
unfolding get_period_cutoff weekday start_of_day start_of_month
get_period_cutoff_bounds now period h = rw (same-ne h) (ground (arith, days_into_month-le now))

records-increment_self :
    (now : ℕ) (entity : String) (q : QuotaType) (amount : ℕ) (m : QuotaManager)
    → records (increment_usage now entity q amount m) entity q
      ≡ recent now (records m entity q ++ record { timestamp = now; amount = amount } ∷ [])
unfolding increment_usage
records-increment_self now entity q amount m = get_default-put_self _ _ _ m.usage

-- An increment at `now` counts once, in each later reading whose period reaches back to it; of the
-- older records only those of the 31 days before `now` still count, whatever the period.
pub get_usage-increment_self :
    (later now : ℕ) (entity : String) (q : QuotaType) (period : String) (amount : ℕ)
    (m : QuotaManager)
    → get_usage later (increment_usage now entity q amount m) entity q period
      ≡ total_since (max (get_period_cutoff later period) (now - 31 * day)) (records m entity q)
        + (if leb (get_period_cutoff later period) now then amount else 0)
unfolding total_since
get_usage-increment_self later now entity q period amount m =
    let c = get_period_cutoff later period in
    rw (get_usage-records, records-increment_self, total_since-recent, total_since-append)
      (ground arith)

-- For every period but the year, an increment adds its amount to the use, as read at once.
pub get_usage-increment :
    (now : ℕ) (entity : String) (q : QuotaType) (period : String) (amount : ℕ) (m : QuotaManager)
    → period ≢ "yearly"
    → get_usage now (increment_usage now entity q amount m) entity q period
      ≡ get_usage now m entity q period + amount
get_usage-increment now entity q period amount m h =
    let (recent_enough, past) = get_period_cutoff_bounds now period h in
    rw (get_usage-increment_self, get_usage-records)
      (let same : max (get_period_cutoff now period) (now - 31 * day)
            ≡ get_period_cutoff now period =
          omega arith in
        rw (same, le→leb _ _ past))

-- Under another key an increment changes nothing.
pub get_usage-increment_ne :
    (later now : ℕ) (entity : String) (q : QuotaType) (amount : ℕ) (m : QuotaManager)
    (other : String) (r : QuotaType) (period : String)
    → usage_key entity q ≢ usage_key other r
    → get_usage later (increment_usage now entity q amount m) other r period
      ≡ get_usage later m other r period
unfolding increment_usage get_usage
get_usage-increment_ne later now entity q amount m other r period h =
    rw
      (
        (get-put (usage_key entity q) (usage_key other r)
            (recent now (records m entity q ++ record { timestamp = now; amount = amount } ∷ []))
            m.usage),
        get_usage,
      )
      (rw (same-ne h))
