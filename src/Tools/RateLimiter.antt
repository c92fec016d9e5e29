-- ===== src/Tools/RateLimiter.antt =====
-- src/tools/rate_limiter.py: token buckets in memory, the limits of tools and the checks of a call of
-- tools. Times are microseconds and the clock does not go back. A rate is a number of tokens in a
-- period of seconds; a bucket counts its tokens in parts, of which one token has as many as the period
-- has microseconds, so that a refill is exact. Redis is a parameter: its state, and what the script
-- of `_check_redis_limit` answers.
pub mod Bucket
pub mod Limits
mod Samples
use Prim.Native.String.{◌++◌ as append}
use cyber_security_platform.Prelude.{
  ℕ, ◌+◌, ◌-◌, ◌*◌, min, String, Bool, true, false, Option, none, some, List, [], ◌∷◌, leb,
  if◌then◌else◌, String-IsKey,
}
use cyber_security_platform.Prelude.Dict
use cyber_security_platform.Prelude.Dict.{Dict}
use cyber_security_platform.Prelude.Texts.{occurs, split, int}

-- `count / period_seconds` tokens per second.
pub record Rate : Type 0 where
  pub count : ℕ
  pub period : ℕ

-- The parts of one token.
abbrev pub token : Rate → ℕ
token rate = rate.period * 1_000_000

pub record TokenBucket : Type 0 where
  pub rate : Rate
  pub capacity : ℕ
  pub tokens : ℕ
  pub last_refill : ℕ

unfoldable pub new_bucket : (now : ℕ) → Rate → ℕ → TokenBucket
new_bucket now rate capacity = record {
  rate = rate;
  capacity = capacity;
  tokens = capacity * token rate;
  last_refill = now;
}

unfoldable pub refilled : ℕ → TokenBucket → TokenBucket
refilled now b = record b {
  tokens = min (b.capacity * token b.rate) (b.tokens + (now - b.last_refill) * b.rate.count);
  last_refill = now;
}

unfoldable pub consume : (now tokens : ℕ) → TokenBucket → Bool × TokenBucket
unfolding refilled
consume now tokens b =
    let b' = refilled now b in
    if leb (tokens * token b'.rate) b'.tokens
    then (true, record b' { tokens = b'.tokens - tokens * token b'.rate })
    else (false, b')

pub record LimitConfig : Type 0 where
  pub rate : Rate
  pub capacity : ℕ

pub record Tool : Type 0 where
  pub name : String
  pub rate_limits : Dict String String

-- The period of a limit in seconds.
unfoldable pub period_seconds : String → ℕ
period_seconds = λ period.
    Dict.get_default period 60
      (("second", 1) ∷ ("minute", 60) ∷ ("hour", 3_600) ∷ ("day", 86_400) ∷ [])

abbrev pub default_limit : LimitConfig
default_limit = record { rate = record { count = 100; period = 60 }; capacity = 100 }

-- A text without exactly one slash or without a number falls back to the default.
unfoldable pub parse_limit : String → LimitConfig
unfolding period_seconds
parse_limit limit = elim (split b'/' limit) [
  | count ∷ period ∷ [] ↦ elim (int count) [
    | none ↦ default_limit
    | some n ↦ record { rate = record { count = n; period = period_seconds period }; capacity = n }
  ]
  | _ ↦ default_limit
]

-- `tool_limits.get(name, tool_limits.get("default", default))`
unfoldable pub limit_text : String → String → Tool → String
limit_text name default tool =
    Dict.get_default name (Dict.get_default "default" default tool.rate_limits) tool.rate_limits

-- The three keys of a tool, for everyone, for a tenant and for a user.
unfoldable pub tool_keys : (user tenant : String) → Tool → List String
tool_keys user tenant tool =
    append "tool:global:" tool.name
    ∷ append "tool:tenant:" (append tenant (append ":" tool.name))
    ∷ append "tool:user:" (append user (append ":" tool.name))
    ∷ []

-- The script in Redis: what it answers for a key, a rate and a capacity, and what it changes.
pub record Script (S : Type 0) : Type 0 where
  pub call : (now : ℕ) → String → LimitConfig → S → Bool × S

pub record ToolRateLimiter (S : Type 0) : Type 0 where
  pub redis : Option S
  pub local_limiters : Dict String TokenBucket
  pub limits : Dict String LimitConfig

module _ {S : Type 0} where
  unfoldable pub configure_limit : String → LimitConfig → ToolRateLimiter S → ToolRateLimiter S
  configure_limit key config m = record m { limits = Dict.put key config m.limits }

  unfoldable pub get_limit_config : String → Tool → ToolRateLimiter S → LimitConfig
  unfolding limit_text parse_limit
  get_limit_config key tool m = elim (Dict.get key m.limits) [
    | some config ↦ config
    | none ↦ parse_limit (
        if occurs "global" key
        then limit_text "global" "100/minute" tool
        else if occurs "tenant" key
        then limit_text "tenant" "50/minute" tool
        else if occurs "user" key
        then limit_text "user" "10/minute" tool
        else Dict.get_default "default" "100/minute" tool.rate_limits)
  ]

  -- The bucket of a key is made at its first use, with the limit of that time.
  unfoldable pub check_local_limit :
      (now : ℕ) → String → LimitConfig → ToolRateLimiter S → Bool × ToolRateLimiter S
  unfolding consume new_bucket
  check_local_limit now key config m =
      let b = Dict.get_default key (new_bucket now config.rate config.capacity) m.local_limiters in
      let (allowed, b') = consume now 1 b in
      (allowed, record m { local_limiters = Dict.put key b' m.local_limiters })

  -- Redis tells the tokens that are left; the local buckets are not read.
  unfoldable pub get_remaining : (String → S → ℕ) → String → ToolRateLimiter S → ℕ
  get_remaining tokens key m = elim m.redis [ some s ↦ tokens key s | none ↦ 0 ]

  unfoldable pub reset_limit : (String → S → S) → String → ToolRateLimiter S → ToolRateLimiter S
  reset_limit delete key m = elim m.redis [
    | some s ↦ record m { redis = some (delete key s) }
    | none ↦ record m { local_limiters = Dict.remove key m.local_limiters }
  ]

  module _ (script : Script S) where
    -- `_check_limit`: whether the call is allowed; otherwise RateLimitExceededError is raised.
    unfoldable pub check_limit :
        (now : ℕ) → String → Tool → ToolRateLimiter S → Bool × ToolRateLimiter S
    unfolding get_limit_config check_local_limit
    check_limit now key tool m =
        let config = get_limit_config key tool m in
        elim m.redis [
          | some s ↦
              let (allowed, s') = script.call now key config s in
              (allowed, record m { redis = some s' })
          | none ↦ check_local_limit now key config m
        ]

    -- Checks in their order, up to the first that is refused: its key.
    unfoldable pub check_keys :
        (now : ℕ) → Tool → List String → ToolRateLimiter S → Option String × ToolRateLimiter S
    unfolding check_limit
    check_keys now tool [] m = (none, m)
    check_keys now tool (key ∷ keys) m =
        let (allowed, m') = check_limit now key tool m in
        let rest = check_keys now tool keys m' in if allowed then rest else (some key, m')

    unfoldable pub check_limits :
        (now : ℕ)
        → (user tenant : String) → List Tool
        → ToolRateLimiter S
        → Option String × ToolRateLimiter S
    unfolding check_keys tool_keys
    check_limits now user tenant [] m = (none, m)
    check_limits now user tenant (tool ∷ tools) m =
        let (refused, m') = check_keys now tool (tool_keys user tenant tool) m in
        let rest = check_limits now user tenant tools m' in
        elim refused [ some key ↦ (some key, m') | none ↦ rest ]
