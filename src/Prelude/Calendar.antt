-- ===== src/Prelude/Calendar.antt =====
-- Python's naive `datetime`: a number of microseconds since the start of 1970, read in the proleptic
-- Gregorian calendar. The day, the month and the year of a day number come by the usual division
-- into eras of 400 years that start in March.
use Prim.Native.Nat.{ℕ, ◌+◌, ◌-◌, ◌*◌, ◌/◌, ◌%◌, ◌≤◌}
use mathlib.Core.Path.{◌≡◌, refl}
use mathlib.Core.Bool.{Bool, ◌&&◌, ◌||◌, not}
use native.Mathlib.Omega.{arith}
use cyber_security_platform.Prelude.Tests.{ltb, nat_beq, if◌then◌else◌}

-- Microseconds.
abbrev pub second : ℕ
second = 1_000_000

abbrev pub hour : ℕ
hour = 3_600_000_000

abbrev pub day : ℕ
day = 86_400_000_000

-- Days since 1 March of the year 0, of its era, and of its year (which starts in March).
abbrev pub march_days : ℕ → ℕ
march_days now = now / day + 719_468

abbrev pub day_of_era : ℕ → ℕ
day_of_era now = march_days now % 146_097

abbrev pub year_of_era : ℕ → ℕ
year_of_era now = let d = day_of_era now in (d - d / 1_460 + d / 36_524 - d / 146_096) / 365

abbrev pub day_of_march_year : ℕ → ℕ
day_of_march_year now = let y = year_of_era now in day_of_era now - (365 * y + y / 4 - y / 100)

-- `now.day - 1`
unfoldable pub days_into_month : ℕ → ℕ
days_into_month now = let d = day_of_march_year now in d - (153 * ((5 * d + 2) / 153) + 2) / 5

-- The months since March, `now.month` and `now.year`.
unfoldable pub months_since_march : ℕ → ℕ
months_since_march now = (5 * day_of_march_year now + 2) / 153

unfoldable pub month : ℕ → ℕ
unfolding months_since_march
month now = let m = months_since_march now in if ltb m 10 then m + 3 else m - 9

unfoldable pub year : ℕ → ℕ
unfolding months_since_march
year now =
    year_of_era now
    + march_days now / 146_097 * 400
    + (if ltb (months_since_march now) 10 then 0 else 1)

abbrev is_leap : ℕ → Bool
is_leap y = nat_beq (y % 4) 0 && (not (nat_beq (y % 100) 0) || nat_beq (y % 400) 0)

unfoldable pub days_into_year : ℕ → ℕ
unfolding months_since_march year
days_into_year now =
    if ltb (months_since_march now) 10
    then day_of_march_year now + 59 + (if is_leap (year now) then 1 else 0)
    else day_of_march_year now - 306

-- `now.weekday()`: 1 January 1970 was a Thursday.
unfoldable pub weekday : ℕ → ℕ
weekday now = (now / day + 3) % 7

-- `now.hour`, `now.date()`
unfoldable pub hour_of : ℕ → ℕ
hour_of now = now % day / hour

unfoldable pub date_of : ℕ → ℕ
date_of now = now / day

-- `now.replace(hour=0, minute=0, second=0, microsecond=0)`, with `day=1`, with `month=1, day=1`.
unfoldable pub start_of_day : ℕ → ℕ
start_of_day now = now / day * day

unfoldable pub start_of_month : ℕ → ℕ
start_of_month now = (now / day - days_into_month now) * day

unfoldable pub start_of_year : ℕ → ℕ
start_of_year now = (now / day - days_into_year now) * day

pub days_into_month-le : (now : ℕ) → days_into_month now ≤ 30
unfolding days_into_month
days_into_month-le now = omega arith

-- 17 July 2024, a Wednesday; 29 February 2024.
calendar_samples :
    (year 1_721_174_400_000_000 ≡ 2024)
    × (month 1_721_174_400_000_000 ≡ 7)
    × (days_into_month 1_721_174_400_000_000 ≡ 16)
    × (weekday 1_721_174_400_000_000 ≡ 2)
    × (days_into_year 1_721_174_400_000_000 ≡ 198)
    × (days_into_month 1_709_164_800_000_000 ≡ 28)
unfolding year month days_into_month weekday days_into_year
calendar_samples = (refl, refl, refl, refl, refl, refl)
