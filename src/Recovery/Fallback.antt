-- ===== src/Recovery/Fallback.antt =====
-- src/recovery/fallback_manager.py. A handler is the name of a function; what a call of it does is
-- an argument of the methods that make the call.
pub mod Order
pub mod Choice
mod Samples
use cyber_security_platform.Prelude.{
  ℕ, ◌+◌, String, Bool, true, false, Option, none, some, List, [], ◌∷◌, ◌++◌, ltb, leb,
  if◌then◌else◌, all, contains, ◌&&◌, String-IsKey,
}
use cyber_security_platform.Prelude.Calendar.{hour_of}
use cyber_security_platform.Prelude.Dict
use cyber_security_platform.Prelude.Dict.{Dict}

-- The conditions of a handler; `none` for a key that is not there.
pub record Conditions : Type 0 where
  pub time_window : Option (ℕ × ℕ)
  pub task_types : Option (List String)
  pub required_params : Option (List String)

abbrev pub no_conditions : Conditions
no_conditions = record { time_window = none; task_types = none; required_params = none }

pub record Fallback : Type 0 where
  pub func : String
  pub priority : ℕ
  pub conditions : Conditions
  pub registered_at : ℕ
  pub success_count : ℕ
  pub failure_count : ℕ
  pub last_success : Option ℕ

pub record FallbackManager : Type 0 where
  pub fallbacks : Dict String (List Fallback)

abbrev pub init : FallbackManager
init = record { fallbacks = [] }

-- `sort(key=lambda x: x["priority"])` is stable.
unfoldable pub insert_by_priority : Fallback → List Fallback → List Fallback
insert_by_priority f [] = f ∷ []
insert_by_priority f (g ∷ gs) =
    if leb f.priority g.priority then f ∷ g ∷ gs else g ∷ insert_by_priority f gs

unfoldable pub sort_by_priority : List Fallback → List Fallback
unfolding insert_by_priority
sort_by_priority [] = []
sort_by_priority (f ∷ fs) = insert_by_priority f (sort_by_priority fs)

unfoldable pub register_fallback :
    ℕ → String → String → ℕ → Conditions → FallbackManager → FallbackManager
register_fallback now func_name fallback_func priority conditions m =
    let added : Fallback = record {
      func = fallback_func;
      priority = priority;
      conditions = conditions;
      registered_at = now;
      success_count = 0;
      failure_count = 0;
      last_success = none;
    } in
    let before = Dict.get_default func_name [] m.fallbacks in
    record m {
      fallbacks = Dict.put func_name (sort_by_priority (before ++ added ∷ [])) m.fallbacks;
    }

-- What the caller passes on: the type of its task, if it has one, and the keys of `params`.
pub record Caller : Type 0 where
  pub task_type : Option String
  pub params : List String

in_window : ℕ → Option (ℕ × ℕ) → Bool
in_window current none = true
in_window current (some (start, end)) = leb start current && leb current end

of_type : Option String → Option (List String) → Bool
of_type none types = true
of_type (some task_type) none = true
of_type (some task_type) (some types) = contains task_type types

has_params : List String → Option (List String) → Bool
has_params params none = true
has_params params (some required) = all (λ p. contains p params) required

unfoldable pub check_conditions : ℕ → Conditions → Caller → Bool
unfolding in_window of_type has_params
check_conditions now conditions caller =
    in_window (hour_of now) conditions.time_window
    && of_type caller.task_type conditions.task_types
    && has_params caller.params conditions.required_params

-- A call returns a value, which may be None, or raises.
pub data Outcome (V : Type 0) : Type 0 where
  returned : Option V → Outcome V
  raised : Outcome V

module _ {V : Type 0} (now : ℕ) (call : String → Outcome V) (caller : Caller) where
  -- One handler: the value that ends the loop, if it does, and the handler's new counters.
  unfoldable pub try_fallback : Fallback → Option (Option V) × Fallback
  try_fallback f =
      if check_conditions now f.conditions caller
      then elim (call f.func) [
        | returned v ↦
            (some v, record f { success_count = f.success_count + 1; last_success = some now })
        | raised ↦ (none, record f { failure_count = f.failure_count + 1 })
      ]
      else (none, f)

  -- The loop: the value, or `none` when no handler returned, and the handlers afterwards.
  unfoldable pub try_fallbacks : List Fallback → Option (Option V) × List Fallback
  try_fallbacks [] = (none, [])
  try_fallbacks (f ∷ fs) =
      let (done, f') = try_fallback f in
      let (later, fs') = try_fallbacks fs in
      elim done [ some v ↦ (some v, f' ∷ fs) | none ↦ (later, f' ∷ fs') ]

  unfoldable pub get_fallback : String → FallbackManager → Option V × FallbackManager
  get_fallback func_name m = elim (Dict.get func_name m.fallbacks) [
    | none ↦ (none, m)
    | some fs ↦
        let (done, fs') = try_fallbacks fs in
        (
          elim done [ none ↦ none | some v ↦ v ],
          record m { fallbacks = Dict.put func_name fs' m.fallbacks },
        )
  ]

-- `register_default_fallbacks`
unfoldable pub register_default_fallbacks : ℕ → FallbackManager → FallbackManager
register_default_fallbacks now m =
    let scans = record no_conditions { task_types = some ("scan" ∷ "recon" ∷ []) } in
    let m1 = register_fallback now "*" "cache_fallback" 100 no_conditions m in
    let m2 = register_fallback now "tool_execution" "alternative_tool_fallback" 50 scans m1 in
    register_fallback now "*" "degraded_mode_fallback" 200 no_conditions m2
