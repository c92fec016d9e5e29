-- ===== src/Scheduler/Lifecycle/Listeners.antt =====
-- The loop over the listeners in src/scheduler/lifecycle_manager.py.
use cyber_security_platform.Prelude.{
  String, Option, none, some, List, [], ◌∷◌, ◌++◌, ◌≡◌, refl, ap, ◌⊎◌, inl, inr, filter_by,
  Bool-cases, Option-cases,
}
use cyber_security_platform.Prelude.Dict
use cyber_security_platform.Prelude.Dict.{Dict}
use cyber_security_platform.Scheduler.Lifecycle.{
  ExecutionStatus, Raised, callback_error, listens, notify_listeners,
}

-- The listeners that want a status, in the order in which they registered.
unfoldable pub wanting : ExecutionStatus → Dict String (Option ExecutionStatus) → List String
wanting status listeners = Dict.keys (filter_by (λ e. listens status e.1) listeners)

module _ {E : Type 0} (raises : String → String → ExecutionStatus → Option E) where
  -- None of the listeners raises an exception.
  unfoldable pub Quiet : String → ExecutionStatus → List String → Type 0
  Quiet id status [] = Unit
  Quiet id status (l ∷ ls) = (raises l id status ≡ none) × Quiet id status ls

  -- The listeners before one that raises `e`.
  pub record Stops (id : String) (status : ExecutionStatus) (all : List String)
      (called : List String) (e : E) : Type 0 where
    pub before : List String
    pub listener : String
    pub after : List String
    pub all_split : all ≡ before ++ listener ∷ after
    pub called_split : called ≡ before ++ listener ∷ []
    pub quiet : Quiet id status before
    pub raised : raises listener id status ≡ some e

  abbrev pub Notified :
      String → ExecutionStatus → List String → Option (Raised E) × List String → Type 0
  Notified id status all (raised, called) =
      ((raised ≡ none) × (called ≡ all) × Quiet id status all)
      ⊎ ((e : E) × (raised ≡ some (callback_error e)) × Stops id status all called e)

  Quiet-none : (id : String) (status : ExecutionStatus) → Quiet id status []
  unfolding Quiet
  Quiet-none id status = tt

  Notified-first :
      (id : String) (status : ExecutionStatus) (l : String) (all : List String)
      (r : Option (Raised E) × List String)
      → raises l id status ≡ none
      → Notified id status all r
      → Notified id status (l ∷ all) (r.0, l ∷ r.1)
  unfolding Quiet
  Notified-first id status l all (raised, called) calm (inl (a, b, c)) =
      inl (a, ap (λ x. l ∷ x) b, (calm, c))
  Notified-first id status l all (raised, called) calm (inr (e, a, s)) = inr (
    e,
    a,
    record {
      before = l ∷ s.before;
      listener = s.listener;
      after = s.after;
      all_split = ap (λ x. l ∷ x) s.all_split;
      called_split = ap (λ x. l ∷ x) s.called_split;
      quiet = (calm, s.quiet);
      raised = s.raised;
    },
  )

  -- A change of status calls the listeners that want it in the order in which they registered: all of
  -- them if none raises an exception, and otherwise those up to the first that does, whose exception
  -- ends the call.
  pub notify_listeners-Notified :
      (id : String) (status : ExecutionStatus) (listeners : Dict String (Option ExecutionStatus))
      → Notified id status (wanting status listeners) (notify_listeners raises id status listeners)
  unfolding notify_listeners wanting
  notify_listeners-Notified id status [] = inl (refl, refl, Quiet-none id status)
  notify_listeners-Notified id status ((l, wanted) ∷ rest) =
      elim (Bool-cases (listens status wanted)) [
        | inr deaf ↦ rw (deaf, notify_listeners) (notify_listeners-Notified id status rest)
        | inl hears ↦ elim (Option-cases (raises l id status)) [
          | inl calm ↦
              rw (hears, calm, notify_listeners)
                (Notified-first id status l _ _ calm (notify_listeners-Notified id status rest))
          | inr (e, loud) ↦
              rw (hears, loud, notify_listeners)
                (inr (
                  e,
                  refl,
                  record {
                    before = [];
                    listener = l;
                    after = wanting status rest;
                    all_split = refl;
                    called_split = refl;
                    quiet = Quiet-none id status;
                    raised = loud;
                  },
                ))
        ]
      ]
