-- ===== src/Workflow/Approval.antt =====
-- src/workflow/approval_workflow.py. The identifiers from uuid are arguments, `D` is the type of the
-- data of a request. The code reads a key "sequential" of a request and never writes it: the field
-- is false in every new request.
pub mod Requests
pub mod Runs
pub mod Settled
pub mod Sound
mod Samples
use cyber_security_platform.Prelude.{
  ℕ, ◌+◌, ◌*◌, ◌<◌, String, Bool, true, false, Option, none, some, List, [], ◌∷◌, ◌++◌, not, ◌&&◌,
  if◌then◌else◌, filter_by, ◌==◌, String-IsKey,
}
use cyber_security_platform.Prelude.Dict
use cyber_security_platform.Prelude.Dict.{Dict, map_values}
pub use cyber_security_platform.Workflow.Approval.Requests.{
  RequestStatus, is_pending, Choice, is_approval, Decision, Request, pending, approved, rejected,
  expired, approval, rejection,
}
unfoldable pub use cyber_security_platform.Workflow.Approval.Requests.{
  deadline_after, new_request, waits_for, is_approval_complete, decided, after_approval,
  after_rejection, at_deadline,
}

pub record Template : Type 0 where
  pub template_id : String
  pub name : String
  pub approvers : List String
  pub sequential : Bool
  pub deadline_hours : Option ℕ
  pub escalation_policy : Dict String String
  pub created_at : ℕ

pub record ApprovalWorkflow (D : Type 0) : Type 0 where
  pub approval_requests : Dict String (Request D)
  pub approval_templates : Dict String Template

abbrev pub empty_workflow : (D : Type 0) → ApprovalWorkflow D
empty_workflow D = record { approval_requests = []; approval_templates = [] }

module _ {D : Type 0} where
  unfoldable pub create_approval_request :
      (now : ℕ) (id request_type requester : String)
      → List String
      → D
      → Option ℕ
      → Dict String String
      → ApprovalWorkflow D
      → String × ApprovalWorkflow D
  unfolding new_request
  create_approval_request now id request_type requester approvers content deadline policy w = (
    id,
    record w {
      approval_requests =
          Dict.put id (new_request now id request_type requester approvers content deadline policy)
            w.approval_requests;
    },
  )

  unfoldable pub get_pending_approvals : String → ApprovalWorkflow D → List (Request D)
  unfolding waits_for
  get_pending_approvals user w = filter_by (waits_for user) (Dict.values w.approval_requests)

  -- What `approve` and `reject` share: a missing request and one that is not pending are refused.
  unfoldable pub decide :
      (Request D → Request D) → String → ApprovalWorkflow D → Bool × ApprovalWorkflow D
  decide f id w = elim (Dict.get id w.approval_requests) [
    | none ↦ (false, w)
    | some r ↦
        if is_pending r.status
        then (true, record w { approval_requests = Dict.put id (f r) w.approval_requests })
        else (false, w)
  ]

  unfoldable pub approve :
      (now : ℕ) (id approver comments : String) → ApprovalWorkflow D → Bool × ApprovalWorkflow D
  unfolding decide after_approval
  approve now id approver comments = decide (after_approval now approver comments) id

  unfoldable pub reject :
      (now : ℕ) (id approver reason : String) → ApprovalWorkflow D → Bool × ApprovalWorkflow D
  unfolding decide after_rejection
  reject now id approver reason = decide (after_rejection now approver reason) id

  unfoldable pub get_request_status : String → ApprovalWorkflow D → Option (Request D)
  get_request_status id w = Dict.get id w.approval_requests

  unfoldable pub create_approval_template :
      (now : ℕ) (id name : String)
      → List String
      → Bool
      → Option ℕ
      → Dict String String
      → ApprovalWorkflow D
      → String × ApprovalWorkflow D
  create_approval_template now id name approvers sequential hours policy w = (
    id,
    record w {
      approval_templates =
          Dict.put id
            (record {
              template_id = id;
              name = name;
              approvers = approvers;
              sequential = sequential;
              deadline_hours = hours;
              escalation_policy = policy;
              created_at = now;
            })
            w.approval_templates;
    },
  )

  unfoldable pub create_from_template :
      (now : ℕ) (id template_id requester : String)
      → D
      → ApprovalWorkflow D
      → Option String × ApprovalWorkflow D
  unfolding create_approval_request deadline_after
  create_from_template now id template_id requester content w =
      elim (Dict.get template_id w.approval_templates) [
        | none ↦ (none, w)
        | some t ↦
            let (made, w') =
              create_approval_request now id t.name requester t.approvers content
                (deadline_after now t.deadline_hours) t.escalation_policy w in
            (some made, w')
      ]

  unfoldable pub check_deadlines : ℕ → ApprovalWorkflow D → ApprovalWorkflow D
  unfolding at_deadline
  check_deadlines now w = record w {
    approval_requests = map_values (at_deadline now) w.approval_requests;
  }
