-- ===== src/Scheduler/Budget/Costs.antt =====
-- Sequences of costs in src/scheduler/budget_tracker.py.
use cyber_security_platform.Prelude.{
  ℕ, ◌+◌, ◌≤◌, String, Bool, true, Option, none, some, List, [], ◌∷◌, ◌&&◌, ltb, leb, nat_beq, ◌≡◌,
  refl, sym, ◌∙◌, arith, if◌then◌else◌, ℕ-IsKey, contains, String-IsKey, leb→le,
}
use cyber_security_platform.Prelude.Dict
use cyber_security_platform.Prelude.Dict.{get-put_self}
use cyber_security_platform.Scheduler.Budget.{
  Budget, BudgetTracker, alert_thresholds, initialize_budget, charge, add_cost, check_budget,
}
use cyber_security_platform.Scheduler.Budget.Thresholds.{times_alerted, crossed}
use cyber_security_platform.Scheduler.Budget.Charge.{AreReached, errors, Charged, charge-Charged}

-- `add_cost` for each time and cost, in their order: how many of the calls raised.
unfoldable pub add_costs : String → List (ℕ × ℕ) → BudgetTracker → ℕ × BudgetTracker
add_costs process_id [] m = (0, m)
add_costs process_id ((now, cost) ∷ costs) m =
    let (raised, m1) = add_cost now process_id cost none m in
    let (n, m2) = add_costs process_id costs m1 in (errors raised + n, m2)

abbrev pub total_cost : List (ℕ × ℕ) → ℕ
total_cost [] = 0
total_cost (c ∷ costs) = c.1 + total_cost costs

add_cost_found :
    (now cost : ℕ) (process_id : String) (m : BudgetTracker) (b : Budget)
    → Dict.get process_id m.active_budgets ≡ some b
    → let (raised, m1) = add_cost now process_id cost none m in
      (raised ≡ (charge now cost b).0)
      × (Dict.get process_id m1.active_budgets ≡ some (charge now cost b).1)
unfolding add_cost
add_cost_found now cost process_id m b found =
    rw (found, add_cost) (refl, get-put_self process_id (charge now cost b).1 m.active_budgets)

-- What two amounts cross one after the other is what they cross together.
crossed_split :
    (p : Bool) (x y z limit t : ℕ)
    → x ≤ y
    → y ≤ z
    → ◌≡◌ {A = ℕ}
        ((if p && crossed x y limit t then 1 else 0) + (if p && crossed y z limit t then 1 else 0))
        (if p && crossed x z limit t then 1 else 0)
crossed_split p x y z limit t h k = ground arith

same_count :
    (p : Bool) (x y z limit limit' t : ℕ)
    → x ≡ y
    → limit ≡ limit'
    → ◌≡◌ {A = ℕ}
        (if p && crossed x z limit t then 1 else 0)
        (if p && crossed y z limit' t then 1 else 0)
same_count p x y z limit limit' t h k = rw h (rw k refl)

Charged-trans :
    (b b1 b' : Budget) (y z r r' : ℕ)
    → b.spent ≤ y
    → y ≤ z
    → Charged b y r b1
    → Charged b1 z r' b'
    → Charged b z (r + r') b'
Charged-trans b b1 b' y z r r' h k first rest =
    let moved =
      λ (p : Bool) (t : ℕ). same_count p b1.spent y z b1.limit b.limit t first.spent first.limit in
    let split = λ (p : Bool) (t : ℕ). crossed_split p b.spent y z b.limit t h k in
    record {
      limit = rest.limit ∙ first.limit;
      spent = rest.spent;
      reached = rest.reached;
      alerts = λ t.
          let p = contains t alert_thresholds in
          omega (arith, rest.alerts t, first.alerts t, moved p t, split p t);
      raises = omega (arith, rest.raises, first.raises, moved true 1_000, split true 1_000);
    }

add_costs-Charged :
    (process_id : String) (costs : List (ℕ × ℕ)) (m : BudgetTracker) (b : Budget)
    → Dict.get process_id m.active_budgets ≡ some b
    → AreReached b
    → let (raised, m') = add_costs process_id costs m in
      (b' : Budget) × (Dict.get process_id m'.active_budgets ≡ some b')
      × Charged b (b.spent + total_cost costs) raised b'
unfolding add_costs
add_costs-Charged process_id [] m b found reached = (
  b,
  found,
  record {
    limit = refl;
    spent = omega arith;
    reached = reached;
    alerts = λ t. ground arith;
    raises = ground arith;
  },
)
add_costs-Charged process_id ((now, cost) ∷ costs) m b found reached =
    let (raised_is, found1) = add_cost_found now cost process_id m b found in
    let first = charge-Charged now cost b reached in
    let b1 = (charge now cost b).1 in
    let m1 = (add_cost now process_id cost none m).1 in
    let (b', found', rest) = add_costs-Charged process_id costs m1 b1 found1 first.reached in
    let both =
      Charged-trans b b1 b' (b.spent + cost) (b1.spent + total_cost costs) _ _ (omega arith)
        (omega (arith, first.spent)) first rest in
    let at_end : b1.spent + total_cost costs ≡ b.spent + (cost + total_cost costs) =
      omega (arith, first.spent) in
    (b', found', rw (sym at_end) (rw raised_is both))

whole_limit :
    (limit sum : ℕ)
    → ◌≡◌ {A = ℕ}
        (if crossed 0 (0 + sum) limit 1_000 then 1 else 0)
        (if ltb 0 limit && leb limit sum then 1 else 0)
whole_limit limit sum = ground arith

from_zero :
    (p : Bool) (limit t sum : ℕ)
    → ◌≡◌ {A = ℕ}
        (if p && crossed 0 (0 + sum) limit t then 1 else 0)
        (if p && crossed 0 sum limit t then 1 else 0)
from_zero p limit t sum = ground arith

-- Of the calls of `add_cost` for a budget that `initialize_budget` has set up, one raises
-- BudgetExceededError if the costs reach a limit that is not 0, and none otherwise, so that later
-- costs are accepted beyond the limit. The costs add up to the amount spent, and the alerts name
-- each threshold that they reach once, and no other.
pub add_costs_lem :
    (now : ℕ) (process_id user tenant currency : String) (limit : ℕ) (webhook : Option String)
    (costs : List (ℕ × ℕ)) (m : BudgetTracker)
    → let (raised, m') =
        add_costs process_id costs
          (initialize_budget now process_id user tenant limit currency webhook m) in
      (b : Budget) × (Dict.get process_id m'.active_budgets ≡ some b)
      × (b.spent ≡ total_cost costs)
      × (raised ≡ (if ltb 0 limit && leb limit (total_cost costs) then 1 else 0))
      × ((t : ℕ)
          → times_alerted t b.alerts ≡ (
              if contains t alert_thresholds && crossed 0 (total_cost costs) limit t then 1 else 0))
add_costs_lem now process_id user tenant currency limit webhook costs m =
    let b0 : Budget = record {
      user_id = user;
      tenant_id = tenant;
      limit = limit;
      currency = currency;
      spent = 0;
      start_time = now;
      last_alert_sent = [];
      alert_webhook = webhook;
      alerts = [];
      posted = [];
    } in
    let (b', found, done) =
      add_costs-Charged process_id costs
        (initialize_budget now process_id user tenant limit currency webhook m) b0
        (unfold initialize_budget in get-put_self process_id b0 m.active_budgets)
        (λ t last h. unfold Dict.get in cc (h)) in
    (
      b',
      found,
      omega (arith, done.spent),
      done.raises ∙ whole_limit limit (total_cost costs),
      λ t. omega (
        arith,
        done.alerts t,
        from_zero (contains t alert_thresholds) limit t (total_cost costs),
      ),
    )

exact_limit :
    (spent cost limit : ℕ)
    → spent + cost ≤ limit
    → ◌≡◌ {A = ℕ}
        (if crossed spent (spent + cost) limit 1_000 then 1 else 0)
        (if ltb spent limit && nat_beq (spent + cost) limit then 1 else 0)
exact_limit spent cost limit h = ground arith

checked :
    (cost : ℕ) (process_id : String) (m : BudgetTracker) (b : Budget)
    → Dict.get process_id m.active_budgets ≡ some b
    → check_budget process_id cost m ≡ true
    → leb (b.spent + cost) b.limit ≡ true
unfolding check_budget
checked cost process_id m b found passes = ground arith

-- A cost that `check_budget` lets pass raises BudgetExceededError in `add_cost` all the same if it
-- uses the budget up to its limit exactly, and in no other case.
pub add_cost-check_budget :
    (now cost : ℕ) (process_id : String) (m : BudgetTracker) (b : Budget)
    → Dict.get process_id m.active_budgets ≡ some b
    → AreReached b
    → check_budget process_id cost m ≡ true
    → errors (add_cost now process_id cost none m).0
      ≡ (if ltb b.spent b.limit && nat_beq (b.spent + cost) b.limit then 1 else 0)
add_cost-check_budget now cost process_id m b found reached passes =
    let (raised_is, found1) = add_cost_found now cost process_id m b found in
    let room : b.spent + cost ≤ b.limit =
      leb→le (b.spent + cost) b.limit (checked cost process_id m b found passes) in
    rw raised_is
      ((charge-Charged now cost b reached).raises ∙ exact_limit b.spent cost b.limit room)
