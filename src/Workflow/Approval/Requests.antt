-- ===== src/Workflow/Approval/Requests.antt =====
-- One request of src/workflow/approval_workflow.py, and what the methods make of it.
use cyber_security_platform.Prelude.{
  ℕ, ◌+◌, ◌*◌, String, Bool, true, false, Option, none, some, List, [], ◌∷◌, ◌++◌, ltb, leb,
  nat_beq, ◌&&◌, if◌then◌else◌, length, get_elem?, filter_by, contains, ◌==◌, String-IsKey,
}
use cyber_security_platform.Prelude.Dict
use cyber_security_platform.Prelude.Dict.{Dict}

pub data RequestStatus : Type 0 where
  pending approved rejected expired : RequestStatus

-- `request["status"] == "pending"`
abbrev pub is_pending : RequestStatus → Bool
is_pending pending = true
is_pending approved = false
is_pending rejected = false
is_pending expired = false

pub data Choice : Type 0 where
  approval rejection : Choice

abbrev pub is_approval : Choice → Bool
is_approval approval = true
is_approval rejection = false

pub record Decision : Type 0 where
  pub approver : String
  pub decision : Choice
  pub comments : String
  pub timestamp : ℕ

pub record Request (D : Type 0) : Type 0 where
  pub request_id : String
  pub request_type : String
  pub requester : String
  pub approvers : List String
  pub content : D
  pub status : RequestStatus
  pub created_at : ℕ
  pub deadline : Option ℕ
  pub escalation_policy : Dict String String
  pub decisions : List Decision
  pub current_approver_index : ℕ
  pub sequential : Bool
  pub completed_at : Option ℕ
  pub auto_approved : Bool

-- `if template.get("deadline_hours")`: neither None nor 0. Times are in microseconds.
unfoldable pub deadline_after : ℕ → Option ℕ → Option ℕ
deadline_after now none = none
deadline_after now (some hours) = if nat_beq hours 0 then none else some (now + hours * 3600000000)

module _ {D : Type 0} where
  unfoldable pub new_request :
      (now : ℕ) (id request_type requester : String)
      → List String
      → D
      → Option ℕ
      → Dict String String
      → Request D
  new_request now id request_type requester approvers content deadline policy = record {
    request_id = id;
    request_type = request_type;
    requester = requester;
    approvers = approvers;
    content = content;
    status = pending;
    created_at = now;
    deadline = deadline;
    escalation_policy = policy;
    decisions = [];
    current_approver_index = 0;
    sequential = false;
    completed_at = none;
    auto_approved = false;
  }

  -- Whether a request waits for this user.
  unfoldable pub waits_for : String → Request D → Bool
  waits_for user r =
      if is_pending r.status && contains user r.approvers
      then if r.sequential
        then elim (get_elem? r.approvers r.current_approver_index) [
          | none ↦ false
          | some turn ↦ turn == user
        ]
        else true
      else false

  unfoldable pub is_approval_complete : Request D → Bool
  is_approval_complete r =
      if r.sequential
      then leb (length r.approvers) (length r.decisions)
      else ltb 0 (length (filter_by (λ d. is_approval d.decision) r.decisions))

  unfoldable pub decided : (now : ℕ) (approver : String) → Choice → String → Request D → Request D
  decided now approver choice comments r = record r {
    decisions =
        r.decisions
        ++ record { approver = approver; decision = choice; comments = comments; timestamp = now }
          ∷ [];
  }

  -- A pending request after an approval, and after a rejection.
  unfoldable pub after_approval : (now : ℕ) (approver comments : String) → Request D → Request D
  unfolding decided is_approval_complete
  after_approval now approver comments r =
      let r' = decided now approver approval comments r in
      if is_approval_complete r'
      then record r' { status = approved; completed_at = some now }
      else r'

  unfoldable pub after_rejection : (now : ℕ) (approver reason : String) → Request D → Request D
  unfolding decided
  after_rejection now approver reason r = record (decided now approver rejection reason r) {
    status = rejected;
    completed_at = some now;
  }

  -- One turn of the loop of `check_deadlines`.
  unfoldable pub at_deadline : ℕ → Request D → Request D
  at_deadline now r =
      if is_pending r.status
      then elim r.deadline [
        | none ↦ r
        | some d ↦
            if ltb d now
            then if Dict.get_default "on_deadline" "" r.escalation_policy == "auto_approve"
              then record r { status = approved; completed_at = some now; auto_approved = true }
              else record r { status = expired; completed_at = some now }
            else r
      ]
      else r
