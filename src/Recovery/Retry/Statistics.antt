-- ===== src/Recovery/Retry/Statistics.antt =====
-- The statistics of src/recovery/retry_manager.py.
use Prim.Native.Char.{code}
use cyber_security_platform.Prelude.{
  Option-cases, inl, inr, ◌==◌, ℕ, ◌+◌, String, Option, none, some, [], ◌≡◌, ◌⊎◌, arith, nat_beq,
  if◌then◌else◌, String-IsKey,
}
use cyber_security_platform.Prelude.Dict
use cyber_security_platform.Prelude.Dict.{Dict, get-put, get-put_self}

pub record Stat : Type 0 where
  pub total : ℕ
  pub successes : ℕ
  pub failures : ℕ
  pub total_duration : ℕ
  pub errors : Dict String ℕ

abbrev pub Stats : Type 0
Stats = Dict String Stat

abbrev pub empty : Stat
empty = record { total = 0; successes = 0; failures = 0; total_duration = 0; errors = [] }

-- `error.split(":")[0]`; a text with no colon is its own first part.
unfoldable pub error_type : String → String
error_type String.[] = ""
error_type (String.◌∷◌ c s) = if nat_beq (code c) b':' then "" else String.◌∷◌ c (error_type s)

unfoldable pub record_success : String → ℕ → Stats → Stats
record_success name duration stats =
    let s = Dict.get_default name empty stats in
    Dict.put name
      (record s {
        total = s.total + 1;
        successes = s.successes + 1;
        total_duration = s.total_duration + duration;
      })
      stats

unfoldable pub record_failure : String → String → Stats → Stats
record_failure name err stats =
    let s = Dict.get_default name empty stats in
    let kind = error_type err in
    Dict.put name
      (record s {
        total = s.total + 1;
        failures = s.failures + 1;
        errors = Dict.put kind (Dict.get_default kind 0 s.errors + 1) s.errors;
      })
      stats

-- With no name, or an empty one, they return, or clear, the whole table.
pub get_stats : Option String → Stats → Option Stat ⊎ Stats
get_stats none stats = inr stats
get_stats (some name) stats = if name == "" then inr stats else inl (Dict.get name stats)

pub reset_stats : Option String → Stats → Stats
reset_stats none stats = []
reset_stats (some name) stats = if name == "" then [] else Dict.remove name stats

-- Every record of the statistics counts each call once, as a success or as a failure.
abbrev pub IsCounted : Stats → Type 0
IsCounted stats =
    (name : String) (s : Stat) → Dict.get name stats ≡ some s → s.total ≡ s.successes + s.failures

IsCounted-put :
    (name : String) (s : Stat) (stats : Stats)
    → s.total ≡ s.successes + s.failures
    → IsCounted stats
    → IsCounted (Dict.put name s stats)
IsCounted-put name s stats h counted other t found =
    elim (Dict.put-cases name other s stats found) [
      | inl same ↦ rw (← same) h
      | inr before ↦ counted other t before
    ]

empty-IsCounted :
    (name : String) (stats : Stats)
    → IsCounted stats
    → let s = Dict.get_default name empty stats in s.total ≡ s.successes + s.failures
unfolding Dict.get_default
empty-IsCounted name stats counted = elim (Option-cases (Dict.get name stats)) [
  | inl absent ↦ rw (absent, Dict.get_default) (omega arith)
  | inr (s, found) ↦ rw (found, Dict.get_default) (counted name s found)
]

-- If in each record of the statistics the total is that of the successes and the failures, it
-- still is after a recorded success, and after a recorded failure.
pub record-IsCounted :
    (name err : String) (duration : ℕ) (stats : Stats)
    → IsCounted stats
    → IsCounted (record_success name duration stats) × IsCounted (record_failure name err stats)
unfolding record_success record_failure
record-IsCounted name err duration stats counted =
    let before = empty-IsCounted name stats counted in
    (
      IsCounted-put name _ stats (omega arith) counted,
      IsCounted-put name _ stats (omega arith) counted,
    )
