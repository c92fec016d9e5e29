-- ===== src/Workflow/Approval/Sound.antt =====
-- What the requests of src/workflow/approval_workflow.py keep to.
use cyber_security_platform.Prelude.{
  ℕ, ◌≤◌, String, true, false, none, List, [], ◌≡◌, ◌≢◌, arith, ◌⊎◌, String-IsKey, any, length,
}
use cyber_security_platform.Prelude.Dict
use cyber_security_platform.Prelude.Dict.{Dict, get-put, get-put_self, get-map_values}
use cyber_security_platform.Workflow.Approval.{
  pending, approved, rejected, expired, is_pending, is_approval, Request, ApprovalWorkflow,
  new_request, after_approval, after_rejection, decided, is_approval_complete, at_deadline,
}
use cyber_security_platform.Workflow.Approval.Runs.{Call, run, Every, IsStable, run-Every}

-- What one request keeps to.
pub record IsSound {D : Type 0} (r : Request D) : Type 0 where
  pub parallel : r.sequential ≡ false
  pub undecided : r.status ≡ pending → (r.decisions ≡ []) × (r.completed_at ≡ none)
  pub completed : r.status ≢ pending → r.completed_at ≢ none
  pub agreed :
      r.status ≡ approved
      → (any (λ d. is_approval d.decision) r.decisions ≡ true) ⊎ (r.auto_approved ≡ true)
  pub refused : r.status ≡ rejected → any (λ d. is_approval d.decision) r.decisions ≡ false
  pub automatic :
      r.auto_approved ≡ true
      → (r.status ≡ approved)
        × (r.decisions ≡ [])
        × (Dict.get_default "on_deadline" "" r.escalation_policy ≡ "auto_approve")
  pub late : r.status ≡ expired → r.decisions ≡ []
  pub one_decision : length r.decisions ≤ 1

module _ {D : Type 0} where
  approval-IsSound :
      (now : ℕ) (approver comments : String) (r : Request D)
      → is_pending r.status ≡ true
      → IsSound r
      → IsSound (after_approval now approver comments r)
  unfolding after_approval decided is_approval_complete
  approval-IsSound now approver comments r waiting s = ground arith

  rejection-IsSound :
      (now : ℕ) (approver reason : String) (r : Request D)
      → is_pending r.status ≡ true
      → IsSound r
      → IsSound (after_rejection now approver reason r)
  unfolding after_rejection decided
  rejection-IsSound now approver reason r waiting s = ground arith

  deadline-IsSound : (now : ℕ) (r : Request D) → IsSound r → IsSound (at_deadline now r)
  unfolding at_deadline
  deadline-IsSound now r s = ground (
    arith,
    String-IsKey.same_iff (Dict.get_default "on_deadline" "" r.escalation_policy) "auto_approve",
  )

  IsSound-IsStable : IsStable {D = D} IsSound
  unfolding new_request
  IsSound-IsStable = record {
    at_new = λ now id kind requester approvers content deadline policy. ground arith;
    at_approval = approval-IsSound;
    at_rejection = rejection-IsSound;
    at_time = deadline-IsSound;
  }

  -- Whatever calls are made, every request keeps to this: a pending one has no decision and no time
  -- of completion, every other one has such a time; an approved one has an approval among its
  -- decisions or was approved automatically, by its policy and without a decision; a rejected one
  -- has no approval and an expired one no decision; and no request has more than one decision.
  pub calls-IsSound :
      (calls : List (Call D)) (w : ApprovalWorkflow D)
      → Every IsSound w
      → Every IsSound (run calls w)
  calls-IsSound calls w = run-Every IsSound calls w IsSound-IsStable
