-- ===== src/Workflow/Approval/Samples.antt =====
-- An approval workflow on small inputs.
use cyber_security_platform.Prelude.{
  ℕ, String, true, false, none, some, List, [], ◌∷◌, ◌≡◌, ◌≢◌, refl, any, String-IsKey, contains,
}
use cyber_security_platform.Prelude.Dict
use cyber_security_platform.Workflow.Approval.{
  pending, expired, Request, ApprovalWorkflow, empty_workflow, approve, reject, waits_for,
  get_pending_approvals, at_deadline, check_deadlines,
}
use cyber_security_platform.Workflow.Approval.Runs.{
  Call, template_call, from_template_call, approve_call, deadlines_call, run, perform, draws,
  Every-empty, Every,
}
use cyber_security_platform.Workflow.Approval.Sound.{IsSound, calls-IsSound}
use cyber_security_platform.Workflow.Approval.Settled.{run-settled, approve_lem, approved_by}

program : Unit {0}
unfolding run perform draws Dict.get Dict.put Dict.get_default contains waits_for
    get_pending_approvals
program = tt

-- A request from a template that asks two approvers in sequence within an hour.
abbrev asked : List (Call ℕ)
asked =
    template_call 1 "apt" "deploy" ("ann" ∷ "bob" ∷ []) true (some 1) []
    ∷ from_template_call 2 "apr" "apt" "eve" 7
    ∷ []

abbrev waiting : ApprovalWorkflow ℕ
waiting = run asked (empty_workflow ℕ)

abbrev request : Request ℕ
request = record {
  request_id = "apr";
  request_type = "deploy";
  requester = "eve";
  approvers = "ann" ∷ "bob" ∷ [];
  content = 7;
  status = pending;
  created_at = 2;
  deadline = some 3600000002;
  escalation_policy = [];
  decisions = [];
  current_approver_index = 0;
  sequential = false;
  completed_at = none;
  auto_approved = false;
}

request_found : Dict.get "apr" waiting.approval_requests ≡ some request
unfolding program
request_found = refl

waiting-IsSound : Every IsSound waiting
waiting-IsSound = calls-IsSound asked (empty_workflow ℕ) (Every-empty IsSound)

second_waits : get_pending_approvals "bob" waiting ≡ request ∷ []
unfolding program
second_waits = refl

approve_lem_example :
    let (done, w') = approve 5 "apr" "eve" "mine" waiting in
    let r' = approved_by 5 "eve" "mine" request in
    (done ≡ true)
    × (Dict.get "apr" w'.approval_requests ≡ some r')
    × ((user : String) → waits_for user r' ≡ false)
    × ((t : ℕ) (other text : String) → approve t "apr" other text w' ≡ (false, w'))
    × ((t : ℕ) (other text : String) → reject t "apr" other text w' ≡ (false, w'))
approve_lem_example =
    approve_lem 5 "apr" "eve" "mine" waiting request request_found
      (waiting-IsSound "apr" request request_found) refl

abbrev late : ApprovalWorkflow ℕ
late = run (deadlines_call 3600000003 ∷ []) waiting

abbrev lapsed : Request ℕ
lapsed = record request { status = expired; completed_at = some 3600000003 }

lapsed_found : Dict.get "apr" late.approval_requests ≡ some lapsed
unfolding program at_deadline check_deadlines
lapsed_found = refl

lapsed_settled : lapsed.status ≢ pending
lapsed_settled e = cc

abbrev later : List (Call ℕ)
later = approve_call 9 "apr" "ann" "" ∷ deadlines_call 3600000009 ∷ []

later_apart : any (draws "apr") later ≡ false
unfolding program
later_apart = refl

run-settled_example : Dict.get "apr" (run later late).approval_requests ≡ some lapsed
run-settled_example = run-settled "apr" later late lapsed lapsed_found lapsed_settled later_apart

calls-IsSound_example : Every IsSound (run later late)
calls-IsSound_example =
    calls-IsSound later late
      (calls-IsSound (deadlines_call 3600000003 ∷ []) waiting waiting-IsSound)
