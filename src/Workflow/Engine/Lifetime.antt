-- ===== src/Workflow/Engine/Lifetime.antt =====
-- The methods of src/workflow/workflow_engine.py around the runs: definitions, instances and the
-- approvals of steps.
use cyber_security_platform.Prelude.{
  ℕ, String, Bool, true, false, Option, none, some, List, [], ◌∷◌, ◌++◌, map, ltb, nat_beq,
  if◌then◌else◌, String-IsKey,
}
use cyber_security_platform.Prelude.Dict
use cyber_security_platform.Prelude.Dict.{Dict}
use cyber_security_platform.Prelude.Values.{Entries}
use cyber_security_platform.Workflow.Engine.{
  WorkflowStatus, pending, running, paused, cancelled, waiting, WorkflowStep, Definition, Instance,
  World, execute_workflow,
}

-- `status == "pending"` and `status == "approved"` of the approval of a step.
pub data ApprovalStatus : Type 0 where
  undecided granted denied : ApprovalStatus

pub record StepDecision : Type 0 where
  pub approver : String
  pub approves : Bool
  pub remark : String

pub record StepApproval : Type 0 where
  pub id : String
  pub instance_id : String
  pub step_name : String
  pub requester : String
  pub approvers : List String
  pub status : ApprovalStatus
  pub decisions : List StepDecision

pub record WorkflowEngine (R : Type 0) : Type 0 where
  pub workflows : Dict String (Instance R)
  pub definitions : Dict String (Definition R)
  pub approval_requests : Dict String StepApproval

abbrev pub new_engine : (R : Type 0) → WorkflowEngine R
new_engine R = record { workflows = []; definitions = []; approval_requests = [] }

-- How `start_workflow` ends: ValueError for an unknown workflow; NameError, since the file does not
-- import `timedelta`; or the identifier of the instance, whose run is started.
pub data Started : Type 0 where
  value_error name_error : Started
  started : String → Started

-- `_wait_for_approval`: each poll reads the seconds that have passed and the status of the approval,
-- if it is there. None means that the polls do not end the wait.
unfoldable pub wait_for_approval :
    (timeout : Option ℕ) → List (ℕ × Option ApprovalStatus) → Option Bool
wait_for_approval timeout [] = none
wait_for_approval timeout ((elapsed, approval) ∷ polls) =
    let later = wait_for_approval timeout polls in
    let timed_out : Bool = elim timeout [
      | none ↦ false
      | some t ↦ if nat_beq t 0 then false else ltb t elapsed
    ] in
    if timed_out then some false else elim approval [
      | none ↦ some false
      | some undecided ↦ later
      | some granted ↦ some true
      | some denied ↦ some false
    ]

module _ {R : Type 0} where
  unfoldable pub define_workflow :
      String → List (WorkflowStep R) → Option ℕ → WorkflowEngine R → WorkflowEngine R
  define_workflow id steps sla m = record m {
    definitions = Dict.put id (record { steps = steps; sla_seconds = sla }) m.definitions;
  }

  -- A step of a new instance.
  unfoldable pub fresh_step : WorkflowStep R → WorkflowStep R
  fresh_step s = record s { status = waiting; result = none; error = none }

  unfoldable pub new_instance :
      (id workflow : String) → Entries → (tenant user : String) → Definition R → Instance R
  unfolding fresh_step
  new_instance id workflow context tenant user d = record {
    instance_id = id;
    workflow_id = workflow;
    tenant_id = tenant;
    user_id = user;
    context = context;
    status = pending;
    current_step = 0;
    steps = map fresh_step d.steps;
    error = none;
  }

  -- `if definition["sla_seconds"]`
  unfoldable pub has_sla : Definition R → Bool
  has_sla d = elim d.sla_seconds [
    | none ↦ false
    | some seconds ↦ if nat_beq seconds 0 then false else true
  ]

  unfoldable pub start_workflow :
      (id workflow : String)
      → Entries
      → (tenant user : String) → WorkflowEngine R
      → Started × WorkflowEngine R
  unfolding new_instance has_sla
  start_workflow id workflow context tenant user m = elim (Dict.get workflow m.definitions) [
    | none ↦ (value_error, m)
    | some d ↦ if has_sla d then (name_error, m) else (
      started id,
      record m {
        workflows = Dict.put id (new_instance id workflow context tenant user d) m.workflows;
      },
    )
  ]

  unfoldable pub set_status : WorkflowStatus → String → WorkflowEngine R → WorkflowEngine R
  set_status status id m = elim (Dict.get id m.workflows) [
    | none ↦ m
    | some inst ↦ record m { workflows = Dict.put id (record inst { status = status }) m.workflows }
  ]

  unfoldable pub pause_workflow : String → WorkflowEngine R → WorkflowEngine R
  unfolding set_status
  pause_workflow = set_status paused

  unfoldable pub cancel_workflow : String → WorkflowEngine R → WorkflowEngine R
  unfolding set_status
  cancel_workflow = set_status cancelled

  -- The run of an instance that is stored.
  unfoldable pub run_instance : World R → String → WorkflowEngine R → WorkflowEngine R
  unfolding execute_workflow
  run_instance w id m = elim (Dict.get id m.workflows) [
    | none ↦ m
    | some inst ↦ record m { workflows = Dict.put id (execute_workflow w inst).0 m.workflows }
  ]

  -- An instance that is resumed while it has no run starts a run of all its steps, whatever its status.
  unfoldable pub resume_workflow : World R → String → WorkflowEngine R → WorkflowEngine R
  unfolding set_status run_instance
  resume_workflow w id m = run_instance w id (set_status running id m)

  unfoldable pub request_approval :
      (id instance : String)
      → WorkflowStep R
      → (requester : String) → WorkflowEngine R
      → String × WorkflowEngine R
  request_approval id instance s requester m = (
    id,
    record m {
      approval_requests =
          Dict.put id
            (record {
              id = id;
              instance_id = instance;
              step_name = s.name;
              requester = requester;
              approvers = s.approvers;
              status = undecided;
              decisions = [];
            })
            m.approval_requests;
    },
  )

  -- `approve_step` and `reject_step`: the last decision counts.
  unfoldable pub decide_step :
      ApprovalStatus → StepDecision → String → WorkflowEngine R → WorkflowEngine R
  decide_step status decision id m = elim (Dict.get id m.approval_requests) [
    | none ↦ m
    | some a ↦ record m {
      approval_requests =
          Dict.put id (record a { status = status; decisions = a.decisions ++ decision ∷ [] })
            m.approval_requests;
    }
  ]

  unfoldable pub approve_step : (id approver comment : String) → WorkflowEngine R → WorkflowEngine R
  unfolding decide_step
  approve_step id approver comment =
      decide_step granted (record { approver = approver; approves = true; remark = comment }) id

  unfoldable pub reject_step : (id approver reason : String) → WorkflowEngine R → WorkflowEngine R
  unfolding decide_step
  reject_step id approver reason =
      decide_step denied (record { approver = approver; approves = false; remark = reason }) id

  -- What `get_workflow_status` shows of an instance.
  unfoldable pub get_workflow_status : String → WorkflowEngine R → Option (Instance R)
  get_workflow_status id m = Dict.get id m.workflows
