-- ===== src/Scheduler/Budget/Thresholds.antt =====
-- Thresholds that amounts cross, and how often alerts name them (src/scheduler/budget_tracker.py).
use cyber_security_platform.Prelude.{
  ℕ, ◌+◌, ◌*◌, ◌≤◌, ◌<◌, Bool, true, false, List, [], ◌∷◌, ◌++◌, ◌&&◌, ltb, leb, nat_beq, ◌≡◌, inl,
  inr, refl, arith, if◌then◌else◌, ℕ-IsKey, contains, Bool-cases, same_refl,
}
use cyber_security_platform.Scheduler.Budget.{Alert}

-- How often the threshold is among the alerts.
abbrev pub times_alerted : ℕ → List Alert → ℕ
times_alerted t [] = 0
times_alerted t (a ∷ alerts) = (if nat_beq a.threshold t then 1 else 0) + times_alerted t alerts

pub times_alerted-append :
    (t : ℕ) (xs : List Alert) (a : Alert)
    → times_alerted t (xs ++ a ∷ []) ≡ times_alerted t xs + (if nat_beq a.threshold t then 1 else 0)
times_alerted-append t [] a = omega arith
times_alerted-append t (x ∷ xs) a = omega (arith, times_alerted-append t xs a)

-- The thresholds rise from above `k` to at most 1000.
abbrev pub Rises : ℕ → List ℕ → Type 0
Rises k [] = Unit
Rises k (t ∷ ts) = (k < t) × (t ≤ 1_000) × Rises t ts

-- The cost reaches the threshold.
abbrev pub crossed : (old new : ℕ) → ℕ → ℕ → Bool
crossed old new limit t = ltb (old * 1_000) (t * limit) && leb (t * limit) (new * 1_000)

pub contains-top : (u k : ℕ) (ts : List ℕ) → Rises k ts → 1_000 ≤ k → contains u ts ≡ false
unfolding contains
contains-top u k [] rises top = refl
contains-top u k (t ∷ ts) rises top = absurd (omega (arith, rises.0, rises.1))

pub contains-head :
    (c : ℕ → Bool) (t : ℕ) (ts : List ℕ) → c t ≡ true → (contains t (t ∷ ts) && c t) ≡ true
unfolding contains
contains-head c t ts h = ground (arith, same_refl t)

-- The thresholds of a list that a test passes, when the list has one more.
module _ (c : ℕ → Bool) (t u : ℕ) (ts : List ℕ) where
  pub passes_later : c t ≡ false → (contains u ts && c u) ≡ (contains u (t ∷ ts) && c u)
  unfolding contains
  passes_later h = elim (Bool-cases (nat_beq u t)) [
    | inr differs ↦ ground arith
    | inl same ↦ let eq : u ≡ t = ground arith in let off : c u ≡ false = rw eq h in ground arith
  ]

  pub passes_other : nat_beq u t ≡ false → (contains u ts && c u) ≡ (contains u (t ∷ ts) && c u)
  unfolding contains
  passes_other h = ground arith

  pub passes_first :
      c t ≡ true
      → contains t ts ≡ false
      → (if nat_beq t u then 1 else 0) + (if contains u ts && c u then 1 else 0)
        ≡ (if contains u (t ∷ ts) && c u then 1 else 0)
  unfolding contains
  passes_first h once = elim (Bool-cases (nat_beq u t)) [
    | inr differs ↦ ground arith
    | inl same ↦
        let eq : u ≡ t = ground arith in
        let on : c u ≡ true = rw eq h in
        let none_later : contains u ts ≡ false = rw eq once in ground arith
  ]
