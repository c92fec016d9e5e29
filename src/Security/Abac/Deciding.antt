-- ===== src/Security/Abac/Deciding.antt =====
-- Which policy decides in src/security/abac.py, and what the default policies allow.
use Prim.Native.String.{String}
use cyber_security_platform.Prelude.{
  Bool, true, false, Option, none, some, List, [], ◌∷◌, ◌++◌, ◌≡◌, ◌⊎◌, inl, inr, refl, ap, ◌==◌,
  String-IsKey, Bool-cases, answer-cases,
}
use cyber_security_platform.Security.Abac.{
  Policy, AbacManager, Attributes, concerns, evaluate_policy, authorize,
}
use cyber_security_platform.Prelude.Values.{Value}

module _ (matches : Value → Value → Option Bool) (action : String) (attrs : Attributes) where
  -- The policy says nothing: it concerns another action or resource, or one of its conditions fails.
  abbrev pub Passes : Policy → Type 0
  Passes p =
      (concerns action attrs p ≡ false) ⊎ (evaluate_policy matches p.conditions attrs ≡ some false)

  abbrev pub AllPass : List Policy → Type 0
  AllPass [] = Unit
  AllPass (p ∷ ps) = Passes p × AllPass ps

  -- How a request is decided: by default, by the first policy that says something, or by the
  -- exception of its conditions.
  pub data Decided (policies : List Policy) (answer : Option Bool) : Type 0 where
    by_default : AllPass policies → answer ≡ some false → Decided policies answer
    by_policy :
        (before after : List Policy) (p : Policy)
        → policies ≡ before ++ p ∷ after
        → AllPass before
        → concerns action attrs p ≡ true
        → ((evaluate_policy matches p.conditions attrs ≡ some true)
            × (answer ≡ some (p.effect == "allow")))
          ⊎ ((evaluate_policy matches p.conditions attrs ≡ none) × (answer ≡ none))
        → Decided policies answer

  Decided-cons :
      (p : Policy) (ps : List Policy) (answer : Option Bool)
      → Passes p
      → Decided ps answer
      → Decided (p ∷ ps) answer
  Decided-cons p ps answer silent (by_default all a) = by_default (silent, all) a
  Decided-cons p ps answer silent (by_policy before after q e all c d) =
      by_policy (p ∷ before) after q (ap (λ l. p ∷ l) e) (silent, all) c d

  -- The first policy that concerns the request and whose conditions hold gives the answer, a later
  -- one never does; an exception in the conditions of a policy before it ends the call; and without
  -- such a policy the request is denied.
  pub authorize-Decided :
      (policies : AbacManager) → Decided policies (authorize matches action attrs policies)
  unfolding authorize
  authorize-Decided [] = by_default tt refl
  authorize-Decided (p ∷ ps) = elim (Bool-cases (concerns action attrs p)) [
    | inr other ↦ rw (other, authorize) (Decided-cons p ps _ (inl other) (authorize-Decided ps))
    | inl meant ↦ elim (answer-cases (evaluate_policy matches p.conditions attrs)) [
      | inl raised ↦
          rw (meant, raised, authorize) (by_policy [] ps p refl tt meant (inr (raised, refl)))
      | inr (inl holds) ↦
          rw (meant, holds, authorize) (by_policy [] ps p refl tt meant (inl (holds, refl)))
      | inr (inr fails) ↦
          rw (meant, fails, authorize) (Decided-cons p ps _ (inr fails) (authorize-Decided ps))
    ]
  ]
