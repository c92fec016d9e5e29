-- ===== src/Workflow/Approval/Settled.antt =====
-- What approves a request of src/workflow/approval_workflow.py, and that a settled one stays.
use cyber_security_platform.Prelude.{
  ℕ, String, true, false, some, List, [], ◌∷◌, ◌≡◌, ◌≢◌, refl, arith, inl, inr, String-IsKey,
  Option-cases, Bool-cases, any,
}
use cyber_security_platform.Prelude.Dict
use cyber_security_platform.Prelude.Dict.{Dict, get-put, get-put_self, get-map_values}
use cyber_security_platform.Workflow.Approval.{
  pending, approved, is_pending, Request, ApprovalWorkflow, new_request, create_approval_request,
  after_approval, decided, waits_for, approval, is_approval_complete, decide, approve, reject,
  create_approval_template, create_from_template, deadline_after, at_deadline, check_deadlines,
}
use cyber_security_platform.Workflow.Approval.Runs.{
  Call, create_call, template_call, from_template_call, approve_call, reject_call, deadlines_call,
  perform, run, draws,
}
use cyber_security_platform.Workflow.Approval.Sound.{IsSound}

module _ {D : Type 0} where
  at_deadline_settled : (now : ℕ) (r : Request D) → r.status ≢ pending → at_deadline now r ≡ r
  unfolding at_deadline
  at_deadline_settled now r settled = ground arith

  decide-settled :
      (f : Request D → Request D) (id j : String) (w : ApprovalWorkflow D) (r : Request D)
      → Dict.get id w.approval_requests ≡ some r
      → r.status ≢ pending
      → Dict.get id (decide f j w).1.approval_requests ≡ some r
  unfolding decide
  decide-settled f id j w r found settled = elim (Option-cases (Dict.get j w.approval_requests)) [
    | inl missing ↦ rw (missing, decide) found
    | inr (s, here) ↦ elim (Bool-cases (is_pending s.status)) [
      | inr shut ↦ rw (here, decide, shut) found
      | inl waiting ↦
          rw (here, decide, waiting)
            (ground (arith, get-put j id (f s) w.approval_requests, String-IsKey.same_iff j id))
    ]
  ]

  perform-settled :
      (id : String) (call : Call D) (w : ApprovalWorkflow D) (r : Request D)
      → Dict.get id w.approval_requests ≡ some r
      → r.status ≢ pending
      → draws id call ≡ false
      → Dict.get id (perform call w).approval_requests ≡ some r
  unfolding perform create_approval_request create_approval_template create_from_template draws
      approve reject check_deadlines
  perform-settled id (create_call now j kind requester approvers content deadline policy) w r found
        settled other =
      ground (
        arith,
        get-put j id (new_request now j kind requester approvers content deadline policy)
            w.approval_requests,
      )
  perform-settled id (template_call now j name approvers sequential hours policy) w r found settled
        other =
      found
  perform-settled id (from_template_call now j template_id requester content) w r found settled
        other =
      elim (Option-cases (Dict.get template_id w.approval_templates)) [
        | inl missing ↦ rw (missing, perform, create_from_template) found
        | inr (m, here) ↦
            rw (here, perform, create_from_template)
              (ground (
                arith,
                get-put j id
                    (new_request now j m.name requester m.approvers content
                      (deadline_after now m.deadline_hours) m.escalation_policy)
                    w.approval_requests,
              ))
      ]
  perform-settled id (approve_call now j approver comments) w r found settled other =
      decide-settled _ id j w r found settled
  perform-settled id (reject_call now j approver reason) w r found settled other =
      decide-settled _ id j w r found settled
  perform-settled id (deadlines_call now) w r found settled other =
      rw
        (
          get-map_values (at_deadline now) id w.approval_requests,
          found,
          at_deadline_settled now r settled,
        )
        refl

  -- A request that is approved, rejected or expired stays exactly as it is through any calls, if no
  -- later request gets its identifier.
  pub run-settled :
      (id : String) (calls : List (Call D)) (w : ApprovalWorkflow D) (r : Request D)
      → Dict.get id w.approval_requests ≡ some r
      → r.status ≢ pending
      → any (draws id) calls ≡ false
      → Dict.get id (run calls w).approval_requests ≡ some r
  unfolding run
  run-settled id [] w r found settled other = found
  run-settled id (call ∷ calls) w r found settled other =
      run-settled id calls (perform call w) r
        (perform-settled id call w r found settled (ground arith)) settled (ground arith)

  decide_refused :
      (f : Request D → Request D) (id : String) (w : ApprovalWorkflow D) (r : Request D)
      → Dict.get id w.approval_requests ≡ some r
      → r.status ≢ pending
      → decide f id w ≡ (false, w)
  unfolding decide
  decide_refused f id w r found settled = ground arith

  decide_waiting :
      (f : Request D → Request D) (id : String) (w : ApprovalWorkflow D) (r : Request D)
      → Dict.get id w.approval_requests ≡ some r
      → r.status ≡ pending
      → decide f id w
        ≡ (true, record w { approval_requests = Dict.put id (f r) w.approval_requests })
  unfolding decide
  decide_waiting f id w r found waiting = ground arith

  -- A pending request after its only decision.
  unfoldable pub approved_by : ℕ → String → String → Request D → Request D
  approved_by now approver comments r = record r {
    decisions =
        record { approver = approver; decision = approval; comments = comments; timestamp = now }
        ∷ [];
    status = approved;
    completed_at = some now;
  }

  after_approval_outcome :
      (now : ℕ) (approver comments : String) (r : Request D)
      → IsSound r
      → r.status ≡ pending
      → after_approval now approver comments r ≡ approved_by now approver comments r
  unfolding after_approval decided is_approval_complete approved_by
  after_approval_outcome now approver comments r s waiting =
      rw (s.parallel, (s.undecided waiting).0) refl

  -- The outcome of an approval of a pending request that keeps to the above, whoever approves it,
  -- an approver of the request or not: it is approved by this one decision, no user has it among
  -- the pending ones, and a second approval or a rejection is refused without a change.
  pub approve_lem :
      (now : ℕ) (id approver comments : String) (w : ApprovalWorkflow D) (r : Request D)
      → Dict.get id w.approval_requests ≡ some r
      → IsSound r
      → r.status ≡ pending
      → let (done, w') = approve now id approver comments w in
        let r' = approved_by now approver comments r in
        (done ≡ true)
        × (Dict.get id w'.approval_requests ≡ some r')
        × ((user : String) → waits_for user r' ≡ false)
        × ((t : ℕ) (other text : String) → approve t id other text w' ≡ (false, w'))
        × ((t : ℕ) (other text : String) → reject t id other text w' ≡ (false, w'))
  unfolding approve reject approved_by waits_for
  approve_lem now id approver comments w r found s waiting =
      rw
        (
          decide_waiting (after_approval now approver comments) id w r found waiting,
          after_approval_outcome now approver comments r s waiting,
        )
        (
          refl,
          here,
          λ user. refl,
          λ t other text. decide_refused _ id _ _ here settled,
          λ t other text. decide_refused _ id _ _ here settled,
        )
    where
      r' : Request D
      r' = approved_by now approver comments r

      here : Dict.get id (Dict.put id r' w.approval_requests) ≡ some r'
      here = get-put_self id r' w.approval_requests

      settled : r'.status ≢ pending
      settled e = cc
