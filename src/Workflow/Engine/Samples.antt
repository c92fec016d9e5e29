-- ===== src/Workflow/Engine/Samples.antt =====
-- Workflows on small inputs: the first step fails once, the second has a condition.
use cyber_security_platform.Prelude.{
  ℕ, zero, suc, String, true, false, Option, none, some, [], ◌∷◌, ◌≡◌, refl, String-IsKey,
}
use cyber_security_platform.Prelude.Dict
use cyber_security_platform.Prelude.Values.{
  number, Entries, mapping, empty, entry, lookup, same_value, ordered, order, is_in,
}
use cyber_security_platform.Workflow.Engine.{
  completed, cancelled, cancels, skipped, done, waiting, WorkflowStep, Instance, World, returned,
  raised, attempts, perform_step, turn, run_steps, execute_workflow, check_conditions, operators,
  operator,
}
use cyber_security_platform.Workflow.Engine.Lifetime.{
  WorkflowEngine, new_engine, define_workflow, start_workflow, name_error, cancel_workflow,
  set_status, run_instance, new_instance, fresh_step, has_sla, wait_for_approval, undecided,
  granted,
}
use cyber_security_platform.Workflow.Engine.Runs.{
  Tried, attempts-Tried, Concluded, execute_workflow-Concluded,
}

program : Unit {0}
unfolding Dict.get Dict.put lookup same_value ordered order is_in attempts perform_step turn
    run_steps execute_workflow check_conditions operators operator define_workflow start_workflow
    cancel_workflow set_status run_instance new_instance fresh_step has_sla wait_for_approval
program = tt

abbrev step : String → ℕ → Entries → WorkflowStep ℕ
step name retries conditions = record {
  step_id = name;
  name = name;
  requires_approval = false;
  approvers = [];
  conditions = conditions;
  timeout_seconds = none;
  max_retries = retries;
  status = waiting;
  result = none;
  error = none;
}

abbrev scan : WorkflowStep ℕ
scan = step "scan" 2 empty

abbrev report : WorkflowStep ℕ
report = step "report" 0 (entry "findings" (mapping (entry "gt" (number 5) empty)) empty)

-- The handler fails at its first attempt; the workflow is cancelled while it runs.
abbrev surroundings : World ℕ
surroundings = record {
  approval = λ i. true;
  handler = λ i attempt context. elim attempt [
    | zero ↦ (raised "down", context)
    | suc n ↦ (returned n, entry "findings" (number 3) context)
  ];
  type_error = "unorderable";
  others = some cancels;
}

abbrev engine : Option ℕ → WorkflowEngine ℕ
engine sla = define_workflow "audit" (scan ∷ report ∷ []) sla (new_engine ℕ)

-- A workflow with a limit of its time does not start.
sla_raises : (start_workflow "wf" "audit" empty "acme" "ann" (engine (some 60))).0 ≡ name_error
unfolding program
sla_raises = refl

abbrev cancelled_engine : WorkflowEngine ℕ
cancelled_engine =
    cancel_workflow "wf" (start_workflow "wf" "audit" empty "acme" "ann" (engine none)).1

ends_completed :
    Dict.get "wf" (run_instance surroundings "wf" cancelled_engine).workflows
    ≡ some (record {
      instance_id = "wf";
      workflow_id = "audit";
      tenant_id = "acme";
      user_id = "ann";
      context = entry "findings" (number 3) empty;
      status = completed;
      current_step = 1;
      steps =
          record scan { status = done; result = some 0 } ∷ record report { status = skipped } ∷ [];
      error = none;
    })
unfolding program
ends_completed = refl

approved_at_third :
    wait_for_approval (some 5) ((0, some undecided) ∷ (1, some undecided) ∷ (2, some granted) ∷ [])
    ≡ some true
unfolding program
approved_at_third = refl

attempts-Tried_example :
    Tried surroundings 2 0 0 scan empty (attempts surroundings 2 0 0 scan empty)
attempts-Tried_example = attempts-Tried surroundings 2 0 0 scan empty

abbrev audit : Instance ℕ
audit = record {
  instance_id = "wf";
  workflow_id = "audit";
  tenant_id = "acme";
  user_id = "ann";
  context = empty;
  status = cancelled;
  current_step = 0;
  steps = scan ∷ report ∷ [];
  error = none;
}

execute_workflow-Concluded_example : Concluded surroundings (execute_workflow surroundings audit)
execute_workflow-Concluded_example = execute_workflow-Concluded surroundings audit
