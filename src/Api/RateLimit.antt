-- ===== src/Api/RateLimit.antt =====
-- src/api/middleware/rate_limit.py: the log in memory, the token bucket and the checks of a request.
-- Times are microseconds. The limits are those of the settings, already split into their number and
-- their period; the replies of Redis are arguments.
pub mod Window
mod Samples
use cyber_security_platform.Prelude.{
  ℕ, ◌+◌, ◌-◌, ◌*◌, min, String, Bool, true, false, Option, none, some, List, [], ◌∷◌, ◌++◌, ltb,
  leb, if◌then◌else◌, length, filter_by, String-IsKey, ◌==◌,
}
use cyber_security_platform.Prelude.Dict
use cyber_security_platform.Prelude.Dict.{Dict}
use cyber_security_platform.Prelude.Calendar.{second}
use cyber_security_platform.Prelude.Keys.{join}

-- The seconds of a period's name.
pub parse_period : String → ℕ
parse_period period =
    if period == "second"
    then 1
    else if period == "minute"
    then 60
    else if period == "hour"
    then 3_600
    else if period == "day"
    then 86_400
    else if period == "week"
    then 604_800
    else 60

pub record Limit : Type 0 where
  pub max_requests : ℕ
  pub period : String

-- The period of a limit in microseconds.
pub span : Limit → ℕ
unfolding parse_period
span limit = parse_period limit.period * second

-- `self.memory_storage`
abbrev pub Storage : Type 0
Storage = Dict String (List ℕ)

-- `timestamp > now - period`
abbrev pub is_recent : (period now : ℕ) → ℕ → Bool
is_recent period now timestamp = ltb now (timestamp + period)

pub check_memory_limit : (now : ℕ) → String → (period : ℕ) → Storage → ℕ × Storage
check_memory_limit now key period storage =
    let cleaned = filter_by (is_recent period now) (Dict.get_default key [] storage) in
    let entries = cleaned ++ now ∷ [] in (length entries, Dict.put key entries storage)

pub data Verdict : Type 0 where
  passed : Verdict
  exceeded : (retry_after : ℕ) → Verdict

-- The end of `_check_limit`.
pub verdict : (current : ℕ) → Limit → Verdict
unfolding parse_period
verdict current limit =
    if ltb limit.max_requests current then exceeded (parse_period limit.period) else passed

-- `_check_limit` with no Redis client.
pub check_limit : (now : ℕ) → String → Limit → Storage → Verdict × Storage
unfolding verdict span
check_limit now key limit storage =
    let (current, storage') = check_memory_limit now key (span limit) storage in
    (verdict current limit, storage')

-- The strategy "token-bucket" of `_check_redis_limit`. Tokens are in units of 1 / `period`, so that
-- each microsecond adds `max_requests` of them. The result, and what is written back.
pub token_bucket :
    (now max_requests period : ℕ) → (tokens last_refill : Option ℕ) → ℕ × Option (ℕ × ℕ)
token_bucket now max_requests period none last_refill = (0, some (max_requests * period, now))
token_bucket now max_requests period (some tokens) last_refill =
    let refilled : ℕ = elim last_refill [ none ↦ now | some t ↦ t ] in
    let available = min (max_requests * period) (tokens + (now - refilled) * max_requests) in
    if leb period available then (0, some (available - period, now)) else (max_requests, none)

pub record RateLimits : Type 0 where
  pub endpoint_limits : Dict String Limit
  pub user_limits : Dict String Limit
  pub tenant_limits : Dict String Limit
  pub default_limit : Limit

-- The identifiers of a request; the key "api_key" is not read.
pub record Identifiers : Type 0 where
  pub user : Option String
  pub tenant : Option String
  pub ip : String
  pub endpoint : String

abbrev one : String → Option String → Dict String Limit → List (String × Limit)
one kind none limits = []
one kind (some name) limits = elim (Dict.get name limits) [
  | none ↦ []
  | some limit ↦ if name == "" then [] else (join kind name, limit) ∷ []
]

abbrev endpoint_check : String → Dict String Limit → List (String × Limit)
endpoint_check endpoint limits = elim (Dict.get endpoint limits) [
  | none ↦ []
  | some limit ↦ (join "endpoint" endpoint, limit) ∷ []
]

-- The checks that apply, in their order.
pub applicable : RateLimits → Identifiers → List (String × Limit)
applicable settings ids =
    endpoint_check ids.endpoint settings.endpoint_limits
    ++ (one "user" ids.user settings.user_limits
        ++ (one "tenant" ids.tenant settings.tenant_limits
            ++ (join "default" ids.ip, settings.default_limit) ∷ []))

-- The first check that raises ends `_check_rate_limits`.
pub check_all : ℕ → List (String × Limit) → Storage → Verdict × Storage
check_all now [] storage = (passed, storage)
check_all now ((key, limit) ∷ checks) storage =
    let (result, storage') = check_limit now key limit storage in
    elim result [
      | exceeded seconds ↦ (exceeded seconds, storage')
      | passed ↦ check_all now checks storage'
    ]

pub check_rate_limits : ℕ → RateLimits → Identifiers → Storage → Verdict × Storage
unfolding check_all applicable
check_rate_limits now settings ids storage = check_all now (applicable settings ids) storage
