-- ===== src/Scheduler/Budget.antt =====
-- src/scheduler/budget_tracker.py. Money is a number of the smallest unit; a threshold is in
-- thousandths of the limit, so that 0.95 is 950.
pub mod Thresholds
pub mod Alerts
pub mod Charge
pub mod Costs
mod Samples
use cyber_security_platform.Prelude.{
  ℕ, ◌+◌, ◌-◌, ◌*◌, String, Bool, true, false, Option, none, some, List, [], ◌∷◌, ◌++◌, ◌&&◌, ltb,
  leb, nat_beq, if◌then◌else◌, String-IsKey, ℕ-IsKey, ◌==◌,
}
use cyber_security_platform.Prelude.Dict
use cyber_security_platform.Prelude.Dict.{Dict}

pub record Alert : Type 0 where
  pub threshold : ℕ
  pub current_spent : ℕ
  pub limit : ℕ
  pub timestamp : ℕ

-- `posted` has the alerts for which a task that calls the webhook is created.
pub record Budget : Type 0 where
  pub user_id : String
  pub tenant_id : String
  pub limit : ℕ
  pub currency : String
  pub spent : ℕ
  pub start_time : ℕ
  pub last_alert_sent : Dict ℕ ℕ
  pub alert_webhook : Option String
  pub alerts : List Alert
  pub posted : List (String × Alert)

-- An entry of the history.
pub record Cost : Type 0 where
  pub timestamp : ℕ
  pub cost : ℕ
  pub running_total : ℕ
  pub description : Option String

pub record BudgetTracker : Type 0 where
  pub active_budgets : Dict String Budget
  pub cost_history : Dict String (List Cost)

abbrev pub init : BudgetTracker
init = record { active_budgets = []; cost_history = [] }

abbrev pub alert_thresholds : List ℕ
alert_thresholds = 500 ∷ 800 ∷ 900 ∷ 950 ∷ 1_000 ∷ []

pub data Error : Type 0 where
  budget_exceeded : Error

pub initialize_budget :
    ℕ
    → (process_id user_id tenant_id : String) → (limit : ℕ) → (currency : String) → Option String
    → BudgetTracker
    → BudgetTracker
initialize_budget now process_id user_id tenant_id limit currency webhook m = record m {
  active_budgets =
      Dict.put process_id
        (record {
          user_id = user_id;
          tenant_id = tenant_id;
          limit = limit;
          currency = currency;
          spent = 0;
          start_time = now;
          last_alert_sent = [];
          alert_webhook = webhook;
          alerts = [];
          posted = [];
        })
        m.active_budgets;
}

pub check_budget : String → ℕ → BudgetTracker → Bool
check_budget process_id estimated_cost m = elim (Dict.get process_id m.active_budgets) [
  | none ↦ true
  | some b ↦ leb (b.spent + estimated_cost) b.limit
]

-- `if budget["alert_webhook"]:` passes over None and the empty text.
post : Option String → Alert → List (String × Alert) → List (String × Alert)
post none alert posted = posted
post (some url) alert posted = if url == "" then posted else posted ++ (url, alert) ∷ []

abbrev minutes : ℕ
minutes = 60_000_000

-- An alert of the threshold in the last five minutes.
alerted_recently : ℕ → ℕ → Budget → Bool
alerted_recently now threshold b = elim (Dict.get threshold b.last_alert_sent) [
  | none ↦ false
  | some last_alert ↦ ltb (now - last_alert) (5 * minutes)
]

module _ (now : ℕ) where
  pub noted_alert : ℕ → Budget → Budget
  unfolding post
  noted_alert threshold b =
      let alert : Alert = record {
        threshold = threshold;
        current_spent = b.spent;
        limit = b.limit;
        timestamp = now;
      } in
      record b {
        alerts = b.alerts ++ alert ∷ [];
        last_alert_sent = Dict.put threshold now b.last_alert_sent;
        posted = post b.alert_webhook alert b.posted;
      }

  pub send_budget_alert : ℕ → Budget → Option Error × Budget
  unfolding alerted_recently
  send_budget_alert threshold b =
      if alerted_recently now threshold b
      then (none, b)
      else (if leb 1_000 threshold then some budget_exceeded else none, noted_alert threshold b)

  -- The loop of `_check_budget_thresholds`.
  pub check_each : (old_spent new_spent : ℕ) → List ℕ → Budget → Option Error × Budget
  check_each old_spent new_spent [] b = (none, b)
  check_each old_spent new_spent (threshold ∷ thresholds) b =
      elim (ltb (old_spent * 1_000) (threshold * b.limit)
        && leb (threshold * b.limit) (new_spent * 1_000)) [
          | false ↦ check_each old_spent new_spent thresholds b
          | true ↦
              let (raised, b') = send_budget_alert threshold b in
              elim raised [
                | some e ↦ (some e, b')
                | none ↦ check_each old_spent new_spent thresholds b'
              ]
        ]

  pub check_budget_thresholds : (old_spent new_spent : ℕ) → Budget → Option Error × Budget
  unfolding check_each
  check_budget_thresholds old_spent new_spent b =
      if nat_beq b.limit 0 then (none, b) else check_each old_spent new_spent alert_thresholds b

  -- The budget after a cost.
  pub charge : ℕ → Budget → Option Error × Budget
  charge cost b =
      check_budget_thresholds b.spent (b.spent + cost) (record b { spent = b.spent + cost })

  pub add_cost : String → ℕ → Option String → BudgetTracker → Option Error × BudgetTracker
  add_cost process_id cost description m = elim (Dict.get process_id m.active_budgets) [
    | none ↦ (none, m)
    | some b ↦
        let (raised, b') = charge cost b in
        let entry : Cost = record {
          timestamp = now;
          cost = cost;
          running_total = b.spent + cost;
          description = description;
        } in
        let history = Dict.get_default process_id [] m.cost_history in
        (
          raised,
          record m {
            active_budgets = Dict.put process_id b' m.active_budgets;
            cost_history = Dict.put process_id (history ++ entry ∷ []) m.cost_history;
          },
        )
  ]

-- The numbers of `get_budget_status`. What remains is negative where `overdrawn` is not 0; the
-- percentage is the fraction `hundredfold / limit`.
pub record Status : Type 0 where
  pub limit : ℕ
  pub spent : ℕ
  pub remaining : ℕ
  pub overdrawn : ℕ
  pub hundredfold : ℕ
  pub alerts : List Alert

pub get_budget_status : String → BudgetTracker → Option Status
get_budget_status process_id m = elim (Dict.get process_id m.active_budgets) [
  | none ↦ none
  | some b ↦ some (record {
    limit = b.limit;
    spent = b.spent;
    remaining = b.limit - b.spent;
    overdrawn = b.spent - b.limit;
    hundredfold = if ltb 0 b.limit then b.spent * 100 else 0;
    alerts = b.alerts;
  })
]

pub close_budget : String → BudgetTracker → BudgetTracker
close_budget process_id m = record m { active_budgets = Dict.remove process_id m.active_budgets }
