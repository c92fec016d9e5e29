-- ===== src/Scheduler/Budget/Samples.antt =====
-- A budget of 100.
use cyber_security_platform.Prelude.{
  ℕ, true, false, none, some, List, [], ◌∷◌, ◌&&◌, ◌≡◌, refl, if◌then◌else◌, contains, ℕ-IsKey,
  String-IsKey,
}
use cyber_security_platform.Prelude.Dict
use cyber_security_platform.Scheduler.Budget.{
  Budget, BudgetTracker, init, alert_thresholds, initialize_budget, alerted_recently, noted_alert,
  post, send_budget_alert, check_each, check_budget_thresholds, check_budget, charge, add_cost,
}
use cyber_security_platform.Scheduler.Budget.Thresholds.{times_alerted, crossed}
use cyber_security_platform.Scheduler.Budget.Costs.{add_costs, add_costs_lem, add_cost-check_budget}
use cyber_security_platform.Scheduler.Budget.Charge.{AreReached, errors}

program : Unit {0}
unfolding initialize_budget alerted_recently noted_alert post send_budget_alert check_each
    check_budget_thresholds check_budget charge add_cost add_costs Dict.get Dict.put
    Dict.get_default
program = tt

abbrev costs : List (ℕ × ℕ)
costs = (1, 40) ∷ (2, 45) ∷ (3, 20) ∷ (4, 500) ∷ []

abbrev budgeted : BudgetTracker
budgeted = initialize_budget 0 "p1" "ann" "acme" 100 "USD" none init

-- The third cost raises, the fourth does not.
costs_raised :
    ((add_costs "p1" costs budgeted).0 ≡ 1)
    × (check_budget "p1" 1 (add_costs "p1" costs budgeted).1 ≡ false)
unfolding program
costs_raised = (refl, refl)

add_costs_lem_example :
    let (raised, m') = add_costs "p1" costs budgeted in
    (b : Budget) × (Dict.get "p1" m'.active_budgets ≡ some b)
    × (b.spent ≡ 605)
    × (raised ≡ 1)
    × ((t : ℕ)
        → times_alerted t b.alerts
          ≡ (if contains t alert_thresholds && crossed 0 605 100 t then 1 else 0))
add_costs_lem_example = add_costs_lem 0 "p1" "ann" "acme" "USD" 100 none costs init

abbrev half : Budget
half = record {
  user_id = "ann";
  tenant_id = "acme";
  limit = 100;
  currency = "USD";
  spent = 40;
  start_time = 0;
  last_alert_sent = [];
  alert_webhook = none;
  alerts = [];
  posted = [];
}

abbrev spending : BudgetTracker
spending = (add_costs "p1" ((1, 40) ∷ []) budgeted).1

spending_found :
    (Dict.get "p1" spending.active_budgets ≡ some half) × (check_budget "p1" 60 spending ≡ true)
unfolding program
spending_found = (refl, refl)

half-AreReached : AreReached half
unfolding program
half-AreReached t last h = cc (h)

add_cost-check_budget_example : errors (add_cost 2 "p1" 60 none spending).0 ≡ 1
add_cost-check_budget_example =
    add_cost-check_budget 2 60 "p1" spending half spending_found.0 half-AreReached spending_found.1
