-- ===== src/Recovery/Fallback/Choice.antt =====
-- Which handler's result `get_fallback` returns.
use cyber_security_platform.Prelude.{
  ℕ, String, true, false, Option, none, some, List, [], ◌∷◌, ◌++◌, ◌≡◌, ◌≢◌, ◌⊎◌, refl, ap, arith,
  String-IsKey, same-ne, Option-cases, Bool-cases, inl, inr,
}
use cyber_security_platform.Prelude.Dict
use cyber_security_platform.Prelude.Dict.{get-put}
use cyber_security_platform.Recovery.Fallback.{
  Fallback, FallbackManager, Caller, Outcome, returned, raised, init, check_conditions,
  try_fallback, try_fallbacks, get_fallback, register_fallback, register_default_fallbacks,
}

default_missing :
    (now : ℕ) (name : String)
    → "*" ≢ name
    → "tool_execution" ≢ name
    → Dict.get name (register_default_fallbacks now init).fallbacks ≡ none
unfolding register_default_fallbacks register_fallback Dict.get
default_missing now name h k = simp (get-put, same-ne h, same-ne k)

Outcome-cases : {V : Type 0} (o : Outcome V) → ((v : Option V) × (o ≡ returned v)) ⊎ (o ≡ raised)
Outcome-cases (returned v) = inl (v, refl)
Outcome-cases raised = inr refl

module _ {V : Type 0} (now : ℕ) (call : String → Outcome V) (caller : Caller) where
  -- The handler's conditions are not met, or its call raises.
  abbrev pub Fails : Fallback → Type 0
  Fails f = (check_conditions now f.conditions caller ≡ false) ⊎ (call f.func ≡ raised)

  abbrev pub AllFail : List Fallback → Type 0
  AllFail [] = Unit
  AllFail (f ∷ fs) = Fails f × AllFail fs

  -- The first handler that does not fail returns `v`.
  pub record Chooses (fs : List Fallback) (v : Option V) : Type 0 where
    pub before : List Fallback
    pub chosen : Fallback
    pub after : List Fallback
    pub split : fs ≡ before ++ chosen ∷ after
    pub skipped : AllFail before
    pub applies : check_conditions now chosen.conditions caller ≡ true
    pub returns : call chosen.func ≡ returned v

  try_cases :
      (f : Fallback)
      → ((v : Option V) × ((try_fallback now call caller f).0 ≡ some v)
          × (check_conditions now f.conditions caller ≡ true)
          × (call f.func ≡ returned v))
        ⊎ (((try_fallback now call caller f).0 ≡ none) × Fails f)
  unfolding try_fallback
  try_cases f = elim (Bool-cases (check_conditions now f.conditions caller)) [
    | inr unmet ↦ inr (ground arith, inl unmet)
    | inl met ↦ elim (Outcome-cases (call f.func)) [
      | inl (v, ok) ↦ inl (v, ground arith, met, ok)
      | inr fails ↦ inr (ground arith, inr fails)
    ]
  ]

  try_fallbacks-Chooses :
      (fs : List Fallback) {v : Option V}
      → (try_fallbacks now call caller fs).0 ≡ some v
      → Chooses fs v
  unfolding try_fallbacks
  try_fallbacks-Chooses [] h = cc
  try_fallbacks-Chooses (f ∷ fs) {v} h = elim (try_cases f) [
    | inl (w, done, met, ok) ↦ record {
      before = [];
      chosen = f;
      after = fs;
      split = refl;
      skipped = tt;
      applies = met;
      returns = ground arith;
    }
    | inr (more, fails) ↦
        let rest = try_fallbacks-Chooses fs {v = v} (ground arith) in
        record {
          before = f ∷ rest.before;
          chosen = rest.chosen;
          after = rest.after;
          split = ap (λ l. f ∷ l) rest.split;
          skipped = (fails, rest.skipped);
          applies = rest.applies;
          returns = rest.returns;
        }
  ]

  try_fallbacks-AllFail :
      (fs : List Fallback) → (try_fallbacks now call caller fs).0 ≡ none → AllFail fs
  unfolding try_fallbacks
  try_fallbacks-AllFail [] h = tt
  try_fallbacks-AllFail (f ∷ fs) h = elim (try_cases f) [
    | inl (w, done, met, ok) ↦ absurd (ground arith)
    | inr (more, fails) ↦ (fails, try_fallbacks-AllFail fs (ground arith))
  ]

  -- For a name with handlers, `get_fallback` returns what the first of them returns, in their
  -- order, whose conditions are met and whose call does not raise; or else all of them fail so,
  -- and it returns None.
  pub get_fallback_lem :
      (name : String) (m : FallbackManager) (fs : List Fallback)
      → Dict.get name m.fallbacks ≡ some fs
      → let result = (get_fallback now call caller name m).0 in
        Chooses fs result ⊎ ((result ≡ none) × AllFail fs)
  unfolding get_fallback
  get_fallback_lem name m fs found = elim (Option-cases (try_fallbacks now call caller fs).0) [
    | inl exhausted ↦
        inr (rw (found, get_fallback) (rw exhausted), try_fallbacks-AllFail fs exhausted)
    | inr (v, done) ↦ inl (rw (found, get_fallback) (rw done (try_fallbacks-Chooses fs done)))
  ]

  -- The handlers registered for "*", which are meant for all functions, are used for no other name:
  -- with the default handlers alone there is no fallback for any name but "*" and "tool_execution".
  pub get_fallback-default :
      (then_now : ℕ) (name : String)
      → "*" ≢ name
      → "tool_execution" ≢ name
      → (get_fallback now call caller name (register_default_fallbacks then_now init)).0 ≡ none
  unfolding get_fallback
  get_fallback-default then_now name h k = rw (default_missing then_now name h k, get_fallback)
