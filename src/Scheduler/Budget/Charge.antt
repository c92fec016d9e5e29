-- ===== src/Scheduler/Budget/Charge.antt =====
-- What one cost changes in a budget of src/scheduler/budget_tracker.py.
use cyber_security_platform.Prelude.{
  ℕ, ◌+◌, ◌*◌, ◌≤◌, Bool, true, false, Option, none, some, List, ◌&&◌, nat_beq, ◌≡◌, inl, inr, refl,
  ◌∙◌, arith, if◌then◌else◌, ℕ-IsKey, contains, Bool-cases, String-IsKey,
}
use cyber_security_platform.Prelude.Dict
use cyber_security_platform.Prelude.Dict.{get-put_self}
use cyber_security_platform.Scheduler.Budget.{
  Budget, Error, budget_exceeded, alert_thresholds, check_each, check_budget_thresholds, charge,
}
use cyber_security_platform.Scheduler.Budget.Alerts.{Checked, check_each-Checked}
use cyber_security_platform.Scheduler.Budget.Thresholds.{times_alerted, crossed}

-- Every alert was for a threshold that has been reached.
abbrev pub AreReached : Budget → Type 0
AreReached b =
    (t last : ℕ) → Dict.get t b.last_alert_sent ≡ some last → t * b.limit ≤ b.spent * 1_000

abbrev pub errors : Option Error → ℕ
errors none = 0
errors (some e) = 1

-- What costs that make the amount spent `new` leave of a budget, and how many of them raised.
pub record Charged (b : Budget) (new raised : ℕ) (b' : Budget) : Type 0 where
  pub limit : b'.limit ≡ b.limit
  pub spent : b'.spent ≡ new
  pub reached : AreReached b'
  pub alerts :
      (t : ℕ)
      → times_alerted t b'.alerts
        ≡ times_alerted t b.alerts
          + (if contains t alert_thresholds && crossed b.spent new b.limit t then 1 else 0)
  pub raises : raised ≡ (if crossed b.spent new b.limit 1_000 then 1 else 0)

crossed_free : (a c limit t : ℕ) → limit ≡ 0 → crossed a c limit t ≡ false
crossed_free a c limit t h = rw h (ground arith)

charge_free :
    (now cost : ℕ) (b : Budget)
    → nat_beq b.limit 0 ≡ true
    → charge now cost b ≡ (none, record b { spent = b.spent + cost })
unfolding charge check_budget_thresholds
charge_free now cost b h = rw h refl

charge_limited :
    (now cost : ℕ) (b : Budget)
    → nat_beq b.limit 0 ≡ false
    → charge now cost b
      ≡ check_each now b.spent
          (b.spent + cost)
          alert_thresholds
          (record b { spent = b.spent + cost })
unfolding charge check_budget_thresholds
charge_limited now cost b h = rw h refl

AreReached-Checked :
    (now old new k : ℕ) (ts : List ℕ) (b : Budget) (raised : Option Error) (b' : Budget)
    → old ≤ new
    → b.spent ≡ new
    → Checked now old new ts k b raised b'
    → AreReached b'
AreReached-Checked now old new k ts b raised b' grows at_new done t last found =
    let total : b'.spent ≡ new = done.spent ∙ at_new in
    elim (done.reached t last found) [ inl r ↦ omega arith | inr r ↦ omega arith ]

errors_if :
    (raised : Option Error) (c : Bool)
    → raised ≡ (if c then some budget_exceeded else none)
    → errors raised ≡ (if c then 1 else 0)
errors_if raised c h = rw h (elim (Bool-cases c) [ inl e ↦ rw e refl | inr e ↦ rw e refl ])

pub charge-Charged :
    (now cost : ℕ) (b : Budget)
    → AreReached b
    → let (raised, b') = charge now cost b in Charged b (b.spent + cost) (errors raised) b'
charge-Charged now cost b reached = elim (Bool-cases (nat_beq b.limit 0)) [
  | inl free ↦
      let off = λ (t : ℕ). crossed_free b.spent (b.spent + cost) b.limit t (ground arith) in
      rw (charge_free now cost b free) (record {
        limit = refl;
        spent = refl;
        reached = λ t last found. omega (arith, reached t last found);
        alerts = λ t. ground (arith, off t);
        raises = ground (arith, off 1_000);
      })
  | inr limited ↦
      let b0 : Budget = record b { spent = b.spent + cost } in
      let done =
        check_each-Checked now b.spent (b.spent + cost) alert_thresholds 0 b0 (omega arith)
          (λ t last found. inl (reached t last found)) in
      rw (charge_limited now cost b limited) (record {
        limit = done.limit;
        spent = done.spent;
        reached =
            AreReached-Checked now b.spent (b.spent + cost) 0 alert_thresholds b0 _ _ (omega arith)
              refl done;
        alerts = done.alerts;
        raises = unfold contains in errors_if _ _ done.raises;
      })
]
