-- ===== src/Tools/RateLimiter/Samples.antt =====
-- The rate limiter of tools on small inputs, without Redis.
use cyber_security_platform.Prelude.{
  ℕ, ◌+◌, ◌-◌, ◌*◌, ◌≤◌, none, some, [], ◌∷◌, ◌≡◌, refl, true, String-IsKey, arith,
}
use cyber_security_platform.Prelude.Dict
use cyber_security_platform.Prelude.Texts.{occurs, split, int, digits}
use cyber_security_platform.Tools.RateLimiter.{
  Rate, token, TokenBucket, new_bucket, refilled, consume, Tool, Script, ToolRateLimiter,
  get_limit_config, parse_limit, period_seconds, limit_text, check_local_limit, check_limit,
  check_keys, tool_keys, check_limits,
}
use cyber_security_platform.Tools.RateLimiter.Bucket.{consume_all, Rising, consume_all-window}
use cyber_security_platform.Tools.RateLimiter.Limits.{all_checks, Row, check_limits-Row}

program : Unit {0}
unfolding new_bucket refilled consume consume_all split int digits parse_limit period_seconds
    limit_text get_limit_config occurs check_local_limit check_limit check_keys tool_keys
    check_limits Dict.get Dict.put Dict.get_default
program = tt

-- Two a second and at most three at once.
abbrev rate : Rate
rate = record { count = 2; period = 1 }

abbrev used : TokenBucket
used = (consume_all (0 ∷ 0 ∷ 0 ∷ 0 ∷ []) (new_bucket 0 rate 3)).1

admits_three : (consume_all (0 ∷ 0 ∷ 0 ∷ 0 ∷ []) (new_bucket 0 rate 3)).0 ≡ 3
unfolding program
admits_three = refl

one_a_half_second : (consume_all (500_000 ∷ 600_000 ∷ []) used).0 ≡ 1
unfolding program
one_a_half_second = refl

later : Rising used.last_refill (500_000 ∷ 600_000 ∷ []) 600_000
unfolding program
later = omega arith

consume_all-window_example :
    (consume_all (500_000 ∷ 600_000 ∷ []) used).0 * token rate
    ≤ 3 * token rate + (600_000 - used.last_refill) * rate.count
consume_all-window_example =
    consume_all-window 0 rate 3 (0 ∷ 0 ∷ 0 ∷ 0 ∷ []) (500_000 ∷ 600_000 ∷ []) 600_000 later

parsed :
    parse_limit "10/hour" ≡ record { rate = record { count = 10; period = 3_600 }; capacity = 10 }
unfolding program
parsed = refl

-- Redis is not used.
abbrev no_script : Script ℕ
no_script = record { call = λ now key config s. (true, s) }

abbrev limiter : ToolRateLimiter ℕ
limiter = record { redis = none; local_limiters = []; limits = [] }

abbrev scan : Tool
scan = record {
  name = "globalscan";
  rate_limits = ("user", "1/minute") ∷ ("global", "2/minute") ∷ [];
}

-- The second call of a user passes, although the limit for a user is one a minute.
second_passes :
    let m = (check_limits no_script 0 "ann" "t" (scan ∷ []) limiter).1 in
    (check_limits no_script 1 "ann" "t" (scan ∷ []) m).0 ≡ none
unfolding program
second_passes = refl

third_refused :
    let m = (check_limits no_script 0 "ann" "t" (scan ∷ scan ∷ []) limiter).1 in
    (check_limits no_script 1 "ann" "t" (scan ∷ []) m).0 ≡ some "tool:global:globalscan"
unfolding program
third_refused = refl

check_limits-Row_example :
    Row no_script 1
      (all_checks "ann" "t" (scan ∷ []))
      limiter
      (check_limits no_script 1 "ann" "t" (scan ∷ []) limiter)
check_limits-Row_example = check_limits-Row no_script 1 "ann" "t" (scan ∷ []) limiter
