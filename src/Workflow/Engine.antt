-- ===== src/Workflow/Engine.antt =====
-- src/workflow/workflow_engine.py. One run of an instance is a function of what its surroundings
-- answer: the waits for approvals and the handlers, by the position of the step. A run is the only one
-- of its instance while it lasts: `resume_workflow`, called during a run, starts a second one on the
-- same step objects, and how the two interleave is not modelled. Times, the sleeps between attempts and
-- the identifiers of approvals are left out.
pub mod Conditions
pub mod Lifetime
pub mod Runs
mod Samples
use cyber_security_platform.Prelude.{
  ℕ, zero, suc, ◌+◌, ◌-◌, String, Bool, true, false, Option, none, some, List, [], ◌∷◌, ◌++◌,
  if◌then◌else◌, all, ◌==◌, String-IsKey,
}
use Prim.Native.String.{◌++◌ as append}
use cyber_security_platform.Prelude.Dict
use cyber_security_platform.Prelude.Dict.{Dict}
use cyber_security_platform.Prelude.Values.{text, Entries}
pub use cyber_security_platform.Workflow.Engine.Conditions.{and_also}
unfoldable pub use cyber_security_platform.Workflow.Engine.Conditions.{
  operator, operators, check_conditions,
}

pub data WorkflowStatus : Type 0 where
  pending running paused completed failed cancelled : WorkflowStatus

pub data StepStatus : Type 0 where
  waiting skipped refused busy done broken : StepStatus

pub record WorkflowStep (R : Type 0) : Type 0 where
  pub step_id : String
  pub name : String
  pub requires_approval : Bool
  pub approvers : List String
  pub conditions : Entries
  pub timeout_seconds : Option ℕ
  pub max_retries : ℕ
  pub status : StepStatus
  pub result : Option R
  pub error : Option String

pub record Definition (R : Type 0) : Type 0 where
  pub steps : List (WorkflowStep R)
  pub sla_seconds : Option ℕ

pub record Instance (R : Type 0) : Type 0 where
  pub instance_id : String
  pub workflow_id : String
  pub tenant_id : String
  pub user_id : String
  pub context : Entries
  pub status : WorkflowStatus
  pub current_step : ℕ
  pub steps : List (WorkflowStep R)
  pub error : Option String

-- What a handler does: its result or the text of its exception, a timeout included.
pub data Outcome (R : Type 0) : Type 0 where
  returned : R → Outcome R
  raised : String → Outcome R

-- What interrupts a run: it writes the status of the instance.
pub data Interruption : Type 0 where
  pauses cancels : Interruption

-- What a run asks of its surroundings, by the position of a step: the answer of `_wait_for_approval`;
-- what the handler does at an attempt with the context, and the context that it leaves; the text of
-- the TypeError of a condition; and which of `pause_workflow` and `cancel_workflow` is called last
-- during the run, if any.
pub record World (R : Type 0) : Type 0 where
  pub approval : ℕ → Bool
  pub handler : ℕ → (attempt : ℕ) → Entries → Outcome R × Entries
  pub type_error : String
  pub others : Option Interruption

-- How a step ends.
pub data End : Type 0 where
  goes_on rejects : End
  raises : String → End

-- A step after its turn, its end, the context and the attempts that called the handler.
pub record Turn (R : Type 0) : Type 0 where
  pub step : WorkflowStep R
  pub ending : End
  pub context : Entries
  pub calls : ℕ

-- The steps after a run, how it ends and at which step, the context and the position of the last
-- step that began.
pub record Ran (R : Type 0) : Type 0 where
  pub steps : List (WorkflowStep R)
  pub ending : End
  pub stopped_at : String
  pub context : Entries
  pub current_step : ℕ

-- `s.status == "completed" or s.status == "skipped"`
abbrev pub is_over : StepStatus → Bool
is_over done = true
is_over skipped = true
is_over _ = false

module _ {R : Type 0} (w : World R) where
  -- The loop over the attempts, of which `left` more follow this one.
  unfoldable pub attempts : (left i attempt : ℕ) → WorkflowStep R → Entries → Turn R
  attempts zero i attempt s context =
      let (outcome, context') = w.handler i attempt context in
      elim outcome [
        | returned r ↦ record {
          step = record s { status = done; result = some r };
          ending = goes_on;
          context = context';
          calls = 1;
        }
        | raised e ↦ record {
          step = record s { status = broken; error = some e };
          ending = raises e;
          context = context';
          calls = 1;
        }
      ]
  attempts (suc left) i attempt s context =
      let (outcome, context') = w.handler i attempt context in
      let later = attempts left i (attempt + 1) s context' in
      elim outcome [
        | returned r ↦ record {
          step = record s { status = done; result = some r };
          ending = goes_on;
          context = context';
          calls = 1;
        }
        | raised e ↦ record later { calls = later.calls + 1 }
      ]

  -- A step whose conditions hold and that is approved. With approvers, `assign_task` is called with
  -- their list as the name of a pool, `src/workflow/task_assignment.py` looks it up in a dict, and a
  -- list has no hash: TypeError.
  unfoldable pub perform_step : ℕ → WorkflowStep R → Entries → Turn R
  unfolding attempts
  perform_step i s context = elim s.approvers [
    | [] ↦ attempts s.max_retries i 0 (record s { status = busy }) context
    | _ ∷ _ ↦ record {
      step = s;
      ending = raises "unhashable type: 'list'";
      context = context;
      calls = 0;
    }
  ]

  -- One turn of the loop over the steps.
  unfoldable pub turn : ℕ → WorkflowStep R → Entries → Turn R
  unfolding perform_step check_conditions
  turn i s context = elim (check_conditions s.conditions context) [
    | none ↦ record { step = s; ending = raises w.type_error; context = context; calls = 0 }
    | some false ↦ record {
      step = record s { status = skipped };
      ending = goes_on;
      context = context;
      calls = 0;
    }
    | some true ↦
        if s.requires_approval
        then if w.approval i then perform_step i s context else record {
          step = record s { status = refused };
          ending = rejects;
          context = context;
          calls = 0;
        }
        else perform_step i s context
  ]

  unfoldable pub run_steps : ℕ → List (WorkflowStep R) → Entries → (current : ℕ) → Ran R
  unfolding turn
  run_steps i [] context current = record {
    steps = [];
    ending = goes_on;
    stopped_at = "";
    context = context;
    current_step = current;
  }
  run_steps i (s ∷ steps) context current =
      let t = turn i s context in
      let rest = run_steps (i + 1) steps t.context i in
      let stop : Ran R = record {
        steps = t.step ∷ steps;
        ending = t.ending;
        stopped_at = s.name;
        context = t.context;
        current_step = i;
      } in
      elim t.ending [
        | goes_on ↦ record rest { steps = t.step ∷ rest.steps }
        | rejects ↦ stop
        | raises _ ↦ stop
      ]

  -- `_execute_workflow`, with what `complete_workflow` of the SLA manager is told, if anything.
  unfoldable pub execute_workflow : Instance R → Instance R × Option Bool
  unfolding run_steps
  execute_workflow inst =
      let r = run_steps 0 inst.steps inst.context inst.current_step in
      let after : Instance R = record inst {
        steps = r.steps;
        context = r.context;
        current_step = r.current_step;
        status = elim w.others [ none ↦ running | some pauses ↦ paused | some cancels ↦ cancelled ];
      } in
      elim r.ending [
        | goes_on ↦
            if all (λ s. is_over s.status) r.steps
            then (record after { status = completed }, some true)
            else (after, none)
        | rejects ↦ (
          record after {
            status = failed;
            error = some (append "Step " (append r.stopped_at " rejected"));
          },
          none,
        )
        | raises e ↦ (record after { status = failed; error = some e }, some false)
      ]
