-- ===== src/Workflow/Engine/Runs.antt =====
-- How the runs of src/workflow/workflow_engine.py end.
use cyber_security_platform.Prelude.{
  ℕ, zero, suc, ◌+◌, ◌≤◌, String, Bool, true, Option, some, List, [], ◌∷◌, ◌≡◌, ◌≢◌, ◌⊎◌, inl, inr,
  refl, arith, all, Bool-cases, answer-cases, List-cases, sym, ap, ◌∙◌, if_true, if_false,
}
use cyber_security_platform.Prelude.Values.{Entries}
use cyber_security_platform.Workflow.Engine.{
  completed, failed, skipped, done, broken, WorkflowStep, Instance, Outcome, returned, raised,
  World, End, goes_on, rejects, raises, Turn, is_over, attempts, perform_step, turn, run_steps,
  execute_workflow, check_conditions,
}

raises-ne-goes_on : (e : String) → raises e ≢ goes_on
raises-ne-goes_on e h = cc

rejects-ne-goes_on : rejects ≢ goes_on
rejects-ne-goes_on h = cc

module _ {R : Type 0} (w : World R) where
  -- What the attempt after `k` others does, and the context before it, when the handler is called
  -- again and again from this attempt on.
  unfoldable pub outcome_after : (k i attempt : ℕ) → Entries → Outcome R
  outcome_after zero i attempt context = (w.handler i attempt context).0
  outcome_after (suc k) i attempt context =
      outcome_after k i (attempt + 1) (w.handler i attempt context).1

  unfoldable pub context_after : (k i attempt : ℕ) → Entries → Entries
  context_after zero i attempt context = context
  context_after (suc k) i attempt context =
      context_after k i (attempt + 1) (w.handler i attempt context).1

  -- The first `k` attempts raise exceptions.
  abbrev pub RaiseFirst : (k i attempt : ℕ) → Entries → Type 0
  RaiseFirst zero i attempt context = Unit
  RaiseFirst (suc k) i attempt context =
      ((e : String) × ((w.handler i attempt context).0 ≡ raised e))
      × RaiseFirst k i (attempt + 1) (w.handler i attempt context).1

  -- How at most `left + 1` attempts at a step end: after `k` that raise exceptions one returns, or
  -- all raise exceptions.
  pub data Tried (left i attempt : ℕ) (s : WorkflowStep R) (context : Entries) (t : Turn R)
      : Type 0 where
    returns_after :
        (k : ℕ) (r : R)
        → k ≤ left
        → RaiseFirst k i attempt context
        → outcome_after k i attempt context ≡ returned r
        → t ≡ record {
          step = record s { status = done; result = some r };
          ending = goes_on;
          context = context_after (suc k) i attempt context;
          calls = k + 1;
        }
        → Tried left i attempt s context t
    all_raise :
        (e : String)
        → RaiseFirst left i attempt context
        → outcome_after left i attempt context ≡ raised e
        → t ≡ record {
          step = record s { status = broken; error = some e };
          ending = raises e;
          context = context_after (suc left) i attempt context;
          calls = left + 1;
        }
        → Tried left i attempt s context t

  Outcome-cases : (o : Outcome R) → ((r : R) × (o ≡ returned r)) ⊎ ((e : String) × (o ≡ raised e))
  Outcome-cases (returned r) = inl (r, refl)
  Outcome-cases (raised e) = inr (e, refl)

  -- One attempt more, before the others.
  Tried-suc :
      (left i attempt : ℕ) (s : WorkflowStep R) (context : Entries) (e : String) (t : Turn R)
      → (w.handler i attempt context).0 ≡ raised e
      → Tried left i (attempt + 1) s (w.handler i attempt context).1 t
      → Tried (suc left) i attempt s context (record t { calls = t.calls + 1 })
  unfolding outcome_after context_after
  Tried-suc left i attempt s context e t wrong (returns_after k r few raise good same) =
      returns_after (suc k) r (omega (arith, few)) ((e, wrong), raise) good (ground arith)
  Tried-suc left i attempt s context e t wrong (all_raise e' raise bad same) =
      all_raise e' ((e, wrong), raise) bad (ground arith)

  -- A handler is called until an attempt returns, each time with the context that the attempt before
  -- it left, and at most `left + 1` times. The step is done with what that attempt returns; if all
  -- attempts raise exceptions, it has failed with the last one. The number of calls and the context
  -- after them are those of these attempts.
  pub attempts-Tried :
      (left i attempt : ℕ) (s : WorkflowStep R) (context : Entries)
      → Tried left i attempt s context (attempts w left i attempt s context)
  unfolding attempts outcome_after context_after
  attempts-Tried zero i attempt s context = elim (Outcome-cases (w.handler i attempt context).0) [
    | inl (r, h) ↦ returns_after 0 r (omega arith) tt h (rw (h, attempts) (ground arith))
    | inr (e, h) ↦ all_raise e tt h (rw (h, attempts) (ground arith))
  ]
  attempts-Tried (suc left) i attempt s context =
      let c = w.handler i attempt context in
      let later = attempts-Tried left i (attempt + 1) s c.1 in
      elim (Outcome-cases c.0) [
        | inl (r, h) ↦ returns_after 0 r (omega arith) tt h (rw (h, attempts) (ground arith))
        | inr (e, h) ↦ rw (h, attempts) (Tried-suc left i attempt s context e _ h later)
      ]

  -- A step that lets the run go on is skipped, or done and has no approvers.
  unfoldable pub IsOver : WorkflowStep R → Type 0
  IsOver s = (s.status ≡ skipped) ⊎ ((s.status ≡ done) × (s.approvers ≡ []))

  attempts-approvers :
      (left i attempt : ℕ) (s : WorkflowStep R) (context : Entries)
      → (attempts w left i attempt s context).step.approvers ≡ s.approvers
  unfolding attempts
  attempts-approvers zero i attempt s context =
      elim (Outcome-cases (w.handler i attempt context).0) [
        | inl (r, h) ↦ rw (h, attempts) refl
        | inr (e, h) ↦ rw (h, attempts) refl
      ]
  attempts-approvers (suc left) i attempt s context =
      let c = w.handler i attempt context in
      elim (Outcome-cases c.0) [
        | inl (r, h) ↦ rw (h, attempts) refl
        | inr (e, h) ↦ rw (h, attempts) (attempts-approvers left i (attempt + 1) s c.1)
      ]

  attempts-goes_on :
      (left i attempt : ℕ) (s : WorkflowStep R) (context : Entries)
      → s.approvers ≡ []
      → (attempts w left i attempt s context).ending ≡ goes_on
      → IsOver (attempts w left i attempt s context).step
  unfolding IsOver
  attempts-goes_on left i attempt s context plain h =
      elim (attempts-Tried left i attempt s context) [
        | returns_after k r _ _ _ same ↦ inr (
          ap (λ (t : Turn R). t.step.status) same,
          attempts-approvers left i attempt s context ∙ plain,
        )
        | all_raise e _ _ same ↦
            absurd (raises-ne-goes_on e (sym (ap (λ (t : Turn R). t.ending) same) ∙ h))
      ]

  perform_step-goes_on :
      (i : ℕ) (s : WorkflowStep R) (context : Entries)
      → (perform_step w i s context).ending ≡ goes_on
      → IsOver (perform_step w i s context).step
  unfolding perform_step
  perform_step-goes_on i s context h = elim (List-cases s.approvers) [
    | inl plain ↦
        rw (plain, perform_step)
          (attempts-goes_on s.max_retries i 0 _ context plain (rw (plain, perform_step) at h))
    | inr (first, others, named) ↦ absurd (raises-ne-goes_on _ (rw (named, perform_step) at h))
  ]

  -- A turn in which the conditions hold, an approval that is needed is given, and the rest.
  turn-goes_on :
      (i : ℕ) (s : WorkflowStep R) (context : Entries)
      → (turn w i s context).ending ≡ goes_on
      → IsOver (turn w i s context).step
  unfolding turn IsOver
  turn-goes_on i s context h = elim (answer-cases (check_conditions s.conditions context)) [
    | inl wrong ↦ absurd (raises-ne-goes_on _ (rw (wrong, turn) at h))
    | inr (inr fails) ↦ rw (fails, turn) (inl refl)
    | inr (inl holds) ↦ elim (Bool-cases s.requires_approval) [
      | inr free ↦
          let same : turn w i s context ≡ perform_step w i s context =
            rw (holds, turn) (if_false s.requires_approval _ _ free) in
          rw same (perform_step-goes_on i s context (rw same at h))
      | inl asks ↦ elim (Bool-cases (w.approval i)) [
        | inl yields ↦
            let same : turn w i s context ≡ perform_step w i s context =
              rw (holds, turn)
                (if_true s.requires_approval _ _ asks ∙ if_true (w.approval i) _ _ yields) in
            rw same (perform_step-goes_on i s context (rw same at h))
        | inr denied ↦
            let same : (turn w i s context).ending ≡ rejects =
              rw (holds, turn)
                (ap (λ (t : Turn R). t.ending)
                  (if_true s.requires_approval _ _ asks ∙ if_false (w.approval i) _ _ denied)) in
            absurd (rejects-ne-goes_on (sym same ∙ h))
      ]
    ]
  ]

  -- Every step is skipped, or done and has no approvers.
  abbrev pub AllOver : List (WorkflowStep R) → Type 0
  AllOver [] = Unit
  AllOver (s ∷ steps) = IsOver s × AllOver steps

  End-cases : (e : End) → (e ≡ goes_on) ⊎ ((e ≡ rejects) ⊎ ((m : String) × (e ≡ raises m)))
  End-cases goes_on = inl refl
  End-cases rejects = inr (inl refl)
  End-cases (raises m) = inr (inr (m, refl))

  run_steps-goes_on :
      (i : ℕ) (steps : List (WorkflowStep R)) (context : Entries) (current : ℕ)
      → (run_steps w i steps context current).ending ≡ goes_on
      → AllOver (run_steps w i steps context current).steps
  unfolding run_steps
  run_steps-goes_on i [] context current h = tt
  run_steps-goes_on i (s ∷ steps) context current h =
      let t = turn w i s context in
      elim (End-cases t.ending) [
        | inl on ↦
            rw (on, run_steps)
              (
                turn-goes_on i s context on,
                run_steps-goes_on (i + 1) steps t.context i (rw (on, run_steps) at h),
              )
        | inr (inl no_more) ↦
            absurd (rejects-ne-goes_on (sym no_more ∙ (rw (no_more, run_steps) at h)))
        | inr (inr (m, wrong)) ↦
            absurd (raises-ne-goes_on m (sym wrong ∙ (rw (wrong, run_steps) at h)))
      ]

  AllOver-all :
      (steps : List (WorkflowStep R)) → AllOver steps → all (λ s. is_over s.status) steps ≡ true
  unfolding IsOver
  AllOver-all [] h = refl
  AllOver-all (s ∷ steps) h = ground (arith, AllOver-all steps)

  -- The end of a run: all is over, or the run has failed.
  pub data Concluded (r : Instance R × Option Bool) : Type 0 where
    succeeded : r.0.status ≡ completed → r.1 ≡ some true → AllOver r.0.steps → Concluded r
    stopped :
        (e : String) → r.0.status ≡ failed → r.0.error ≡ some e → r.1 ≢ some true → Concluded r

  -- A run of an instance that is not resumed while it lasts: whatever status a pause or a
  -- cancellation writes meanwhile, it ends COMPLETED, with every step skipped, or done and without
  -- approvers, or FAILED with an error; so a step with approvers that is reached and not skipped
  -- always ends the run as a failure.
  pub execute_workflow-Concluded : (inst : Instance R) → Concluded (execute_workflow w inst)
  unfolding execute_workflow
  execute_workflow-Concluded inst =
      let r = run_steps w 0 inst.steps inst.context inst.current_step in
      elim (End-cases r.ending) [
        | inl on ↦
            let over = run_steps-goes_on 0 inst.steps inst.context inst.current_step on in
            rw (on, execute_workflow, AllOver-all r.steps over) (succeeded refl refl over)
        | inr (inl no_more) ↦ rw (no_more, execute_workflow) (stopped _ refl refl (λ h. cc))
        | inr (inr (m, wrong)) ↦ rw (wrong, execute_workflow) (stopped m refl refl (λ h. cc))
      ]
