-- ===== src/Api/RateLimit/Samples.antt =====
-- Two requests a second.
use cyber_security_platform.Prelude.{
  ◌+◌, none, some, List, [], ◌∷◌, ◌≡◌, refl, arith, ltb, if◌then◌else◌, length, filter_by,
  String-IsKey,
}
use cyber_security_platform.Prelude.Dict
use cyber_security_platform.Prelude.Keys.{join}
use cyber_security_platform.Api.RateLimit.{
  Limit, RateLimits, Identifiers, passed, exceeded, span, parse_period, is_recent,
  check_memory_limit, verdict, check_limit, token_bucket, applicable, check_all, check_rate_limits,
}
use cyber_security_platform.Api.RateLimit.Window.{
  Request, storage_after, times_of, check_limit-window,
}

program : Unit {0}
unfolding span parse_period check_memory_limit verdict check_limit token_bucket applicable check_all
    check_rate_limits storage_after Dict.get Dict.put Dict.get_default join
program = tt

abbrev limit : Limit
limit = record { max_requests = 2; period = "second" }

abbrev requests : List Request
requests = (1_000_000, "ip:a") ∷ (1_200_000, "ip:b") ∷ (1_400_000, "ip:a") ∷ []

abbrev limits : RateLimits
limits = record {
  endpoint_limits = [];
  user_limits = ("ann", limit) ∷ [];
  tenant_limits = [];
  default_limit = limit;
}

abbrev ann : Identifiers
ann = record { user = some "ann"; tenant = none; ip = "1.2.3.4"; endpoint = "/scan" }

third_refused :
    ((check_limit 1_600_000 "ip:a" limit (storage_after (λ k. limit) requests [])).0 ≡ exceeded 1)
    × ((check_limit 2_600_000 "ip:a" limit (storage_after (λ k. limit) requests [])).0 ≡ passed)
    × ((check_rate_limits 0 limits ann []).0 ≡ passed)
unfolding program
third_refused = (refl, refl, refl)

check_limit-window_example :
    (check_limit 1_600_000 "ip:a" limit (storage_after (λ k. limit) requests [])).0 ≡ (
      if ltb 2
        (length (filter_by (is_recent (span limit) 1_600_000) (times_of "ip:a" requests)) + 1)
      then exceeded (parse_period "second")
      else passed)
check_limit-window_example =
    check_limit-window (λ k. limit) requests 1_600_000 "ip:a" (omega arith) (omega arith)
