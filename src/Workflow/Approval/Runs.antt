-- ===== src/Workflow/Approval/Runs.antt =====
-- Approval workflows under any sequence of calls: what every step keeps of single requests holds of
-- all requests of the workflow.
use mathlib.Core.Path.{subst}
use cyber_security_platform.Prelude.{
  ℕ, String, Bool, true, false, Option, some, List, [], ◌∷◌, ◌≡◌, ◌==◌, inl, inr, String-IsKey,
  Option-cases, Bool-cases, sym,
}
use cyber_security_platform.Prelude.Dict
use cyber_security_platform.Prelude.Dict.{Dict, get-put, put-cases, map_values-cases}
use cyber_security_platform.Workflow.Approval.{
  is_pending, Request, ApprovalWorkflow, empty_workflow, new_request, create_approval_request,
  after_approval, after_rejection, decide, approve, reject, create_approval_template,
  create_from_template, deadline_after, at_deadline, check_deadlines,
}

-- The calls that change a workflow, each at a reading of the clock, with the identifier it draws.
pub data Call (D : Type 0) : Type 0 where
  create_call :
      (now : ℕ) (id request_type requester : String)
      → List String
      → D
      → Option ℕ
      → Dict String String
      → Call D
  template_call :
      (now : ℕ) (id name : String) → List String → Bool → Option ℕ → Dict String String → Call D
  from_template_call : (now : ℕ) (id template_id requester : String) → D → Call D
  approve_call : (now : ℕ) (id approver comments : String) → Call D
  reject_call : (now : ℕ) (id approver reason : String) → Call D
  deadlines_call : (now : ℕ) → Call D

module _ {D : Type 0} where
  unfoldable pub perform : Call D → ApprovalWorkflow D → ApprovalWorkflow D
  unfolding approve reject create_approval_request create_approval_template create_from_template
  perform (create_call now id kind requester approvers content deadline policy) w =
      (create_approval_request now id kind requester approvers content deadline policy w).1
  perform (template_call now id name approvers sequential hours policy) w =
      (create_approval_template now id name approvers sequential hours policy w).1
  perform (from_template_call now id template_id requester content) w =
      (create_from_template now id template_id requester content w).1
  perform (approve_call now id approver comments) w = (approve now id approver comments w).1
  perform (reject_call now id approver reason) w = (reject now id approver reason w).1
  perform (deadlines_call now) w = check_deadlines now w

  unfoldable pub run : List (Call D) → ApprovalWorkflow D → ApprovalWorkflow D
  run [] w = w
  run (call ∷ calls) w = run calls (perform call w)

  -- Whether a call draws this identifier for a request.
  unfoldable pub draws : String → Call D → Bool
  draws id (create_call _ j _ _ _ _ _ _) = j == id
  draws id (template_call _ _ _ _ _ _ _) = false
  draws id (from_template_call _ j _ _ _) = j == id
  draws id (approve_call _ _ _ _) = false
  draws id (reject_call _ _ _ _) = false
  draws id (deadlines_call _) = false

  -- `P` holds of every request of the workflow.
  abbrev pub Every : (Request D → Type 0) → ApprovalWorkflow D → Type 0
  Every P w = (id : String) (r : Request D) → Dict.get id w.approval_requests ≡ some r → P r

  -- A property of a request that holds of a new one and that every step of a pending one keeps.
  pub record IsStable (P : Request D → Type 0) : Type 0 where
    pub at_new :
        (now : ℕ) (id kind requester : String) (approvers : List String) (content : D)
        (deadline : Option ℕ) (policy : Dict String String)
        → P (new_request now id kind requester approvers content deadline policy)
    pub at_approval :
        (now : ℕ) (approver comments : String) (r : Request D)
        → is_pending r.status ≡ true
        → P r
        → P (after_approval now approver comments r)
    pub at_rejection :
        (now : ℕ) (approver reason : String) (r : Request D)
        → is_pending r.status ≡ true
        → P r
        → P (after_rejection now approver reason r)
    pub at_time : (now : ℕ) (r : Request D) → P r → P (at_deadline now r)

  put-Every :
      (P : Request D → Type 0) (id : String) (r : Request D) (w : ApprovalWorkflow D)
      → Every P w
      → P r
      → Every P (record w { approval_requests = Dict.put id r w.approval_requests })
  put-Every P id r w v h j s found = elim (put-cases id j r w.approval_requests found) [
    | inl e ↦ subst P e h
    | inr old ↦ v j s old
  ]

  decide-Every :
      (P : Request D → Type 0) (f : Request D → Request D) (id : String) (w : ApprovalWorkflow D)
      → ((r : Request D) → is_pending r.status ≡ true → P r → P (f r))
      → Every P w
      → Every P (decide f id w).1
  unfolding decide
  decide-Every P f id w step v = elim (Option-cases (Dict.get id w.approval_requests)) [
    | inl missing ↦ rw (missing, decide) v
    | inr (r, found) ↦ elim (Bool-cases (is_pending r.status)) [
      | inl waiting ↦
          rw (found, decide, waiting) (put-Every P id (f r) w v (step r waiting (v id r found)))
      | inr shut ↦ rw (found, decide, shut) v
    ]
  ]

  deadlines-Every :
      (P : Request D → Type 0) (now : ℕ) (w : ApprovalWorkflow D)
      → ((r : Request D) → P r → P (at_deadline now r))
      → Every P w
      → Every P (check_deadlines now w)
  unfolding check_deadlines
  deadlines-Every P now w step v id s found =
      let (r, old, same) = map_values-cases (at_deadline now) id w.approval_requests found in
      subst P (sym same) (step r (v id r old))

  perform-Every :
      (P : Request D → Type 0) (call : Call D) (w : ApprovalWorkflow D)
      → IsStable P
      → Every P w
      → Every P (perform call w)
  unfolding perform create_approval_request create_approval_template create_from_template approve
      reject
  perform-Every P (create_call now id kind requester approvers content deadline policy) w t v =
      put-Every P id _ w v (t.at_new now id kind requester approvers content deadline policy)
  perform-Every P (template_call now id name approvers sequential hours policy) w t v = v
  perform-Every P (from_template_call now id template_id requester content) w t v =
      elim (Option-cases (Dict.get template_id w.approval_templates)) [
        | inl missing ↦ rw (missing, perform, create_from_template) v
        | inr (m, found) ↦
            rw (found, perform, create_from_template)
              (put-Every P id _ w v (
                t.at_new now id m.name requester m.approvers content
                  (deadline_after now m.deadline_hours) m.escalation_policy))
      ]
  perform-Every P (approve_call now id approver comments) w t v =
      decide-Every P _ id w (t.at_approval now approver comments) v
  perform-Every P (reject_call now id approver reason) w t v =
      decide-Every P _ id w (t.at_rejection now approver reason) v
  perform-Every P (deadlines_call now) w t v = deadlines-Every P now w (t.at_time now) v

  pub run-Every :
      (P : Request D → Type 0) (calls : List (Call D)) (w : ApprovalWorkflow D)
      → IsStable P
      → Every P w
      → Every P (run calls w)
  unfolding run
  run-Every P [] w t v = v
  run-Every P (call ∷ calls) w t v =
      run-Every P calls (perform call w) t (perform-Every P call w t v)

  pub Every-empty : (P : Request D → Type 0) → Every P (empty_workflow D)
  unfolding Dict.get
  Every-empty P id r h = cc
