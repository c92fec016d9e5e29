-- ===== src/Scheduler/Lifecycle/Outcomes.antt =====
-- What the calls of src/scheduler/lifecycle_manager.py leave behind.
use cyber_security_platform.Prelude.{
  ℕ, String, Bool, true, Option, none, some, List, [], ◌∷◌, ◌&&◌, ◌≡◌, refl, arith, filter_by,
  filter_by-filter_by, if◌then◌else◌, ◌==◌, String-IsKey, Option-cases, inl, inr, same_refl, sym,
  ap, Bool-cases,
}
use cyber_security_platform.Prelude.Dict
use cyber_security_platform.Prelude.Dict.{Dict, get-put, get-put_self}
use cyber_security_platform.Scheduler.Lifecycle.{
  ExecutionStatus, completed, failed, status_value, Execution, LifecycleManager, Raised, key_error,
  notify_listeners, change, narrowed, list_executions, Done, update_status, finish,
  complete_execution, fail_execution,
}

-- Whether a filter lets a text pass.
unfoldable pub passes : Option String → String → Bool
passes none text = true
passes (some wanted) text = if wanted == "" then true else text == wanted

module _ {V R : Type 0} where
  get-change :
      (f : Execution V R → Execution V R) (id j : String) (m : LifecycleManager V R)
      (x : Execution V R)
      → Dict.get id m.executions ≡ some x
      → Dict.get j (change f id m).executions
        ≡ (if id == j then some (f x) else Dict.get j m.executions)
  unfolding change
  get-change f id j m x found = rw (found, change) (get-put id j (f x) m.executions)

  filter_by_all : (xs : List (Execution V R)) → filter_by (λ x. true) xs ≡ xs
  filter_by_all [] = refl
  filter_by_all (x ∷ xs) = ap (λ ys. x ∷ ys) (filter_by_all xs)

  narrowed_lem :
      (wanted : Option String) (field : Execution V R → String) (xs : List (Execution V R))
      → narrowed wanted field xs ≡ filter_by (λ x. passes wanted (field x)) xs
  unfolding narrowed passes
  narrowed_lem none field xs = sym (filter_by_all xs)
  narrowed_lem (some wanted) field xs = elim (Bool-cases (wanted == "")) [
    | inl blank ↦ rw (blank, narrowed, passes) (sym (filter_by_all xs))
    | inr text ↦ rw (text, narrowed, passes) refl
  ]

  -- The three filters of a listing, applied after each other, keep in their order the executions that
  -- pass all three; a filter that is missing or empty lets all pass.
  pub list_executions_lem :
      (user tenant status : Option String) (m : LifecycleManager V R)
      → list_executions user tenant status m
        ≡ filter_by
            (λ x. passes user x.user_id && passes tenant x.tenant_id && passes status x.status)
            (Dict.values m.executions)
  unfolding list_executions
  list_executions_lem user tenant status m = simp (narrowed_lem, filter_by-filter_by)

module _ {V R E : Type 0} (raises : String → String → ExecutionStatus → Option E) where
  -- What the end of an execution leaves under its identifier: the status in any case, the rest of
  -- the assignments if no listener raises an exception.
  unfoldable pub ended :
      (now : ℕ)
      → ExecutionStatus
      → (Execution V R → Execution V R)
      → Option (Raised E)
      → Execution V R
      → Execution V R
  ended now status f none x = f (record x { status = status_value status; updated_at = now })
  ended now status f (some e) x = record x { status = status_value status; updated_at = now }

  finish_at :
      (now : ℕ) (status : ExecutionStatus) (f : Execution V R → Execution V R) (id j : String)
      (m : LifecycleManager V R) (x : Execution V R) (r : Option (Raised E) × List String)
      → Dict.get id m.executions ≡ some x
      → let set = change (λ y. record y { status = status_value status; updated_at = now }) id m in
        let (error, told, m') = finish f id (r.0, r.1, set) in
        (error ≡ r.0)
        × (told ≡ r.1)
        × (Dict.get j m'.executions
            ≡ (if id == j then some (ended now status f r.0 x) else Dict.get j m.executions))
  unfolding finish ended
  finish_at now status f id j m x (some e, called) found = (refl, refl, get-change _ id j m x found)
  finish_at now status f id j m x (none, called) found =
      let set = change (λ y. record y { status = status_value status; updated_at = now }) id m in
      let here : Dict.get id set.executions
          ≡ some (record x { status = status_value status; updated_at = now }) =
        ground (
          arith,
          get-change (λ y. record y { status = status_value status; updated_at = now }) id id m x
              found,
          same_refl id,
        ) in
      rw (here, finish)
        (
          refl,
          refl,
          ground (
            arith,
            get-change f id j set _ here,
            get-change (λ y. record y { status = status_value status; updated_at = now }) id j m x
                found,
          ),
        )

  finish_found :
      (now : ℕ) (status : ExecutionStatus) (f : Execution V R → Execution V R) (id j : String)
      (m : LifecycleManager V R) (x : Execution V R)
      → Dict.get id m.executions ≡ some x
      → let (raised, called) = notify_listeners raises id status m.listeners in
        let (error, told, m') = finish f id (update_status raises now id status m) in
        (error ≡ raised)
        × (told ≡ called)
        × (Dict.get j m'.executions
            ≡ (if id == j then some (ended now status f raised x) else Dict.get j m.executions))
  unfolding update_status
  finish_found now status f id j m x found =
      rw (found, update_status)
        (finish_at now status f id j m x (notify_listeners raises id status m.listeners) found)

  -- How a call ends the execution `id` with a status and the assignments `f`.
  pub data Ends (now : ℕ) (status : ExecutionStatus) (f : Execution V R → Execution V R)
      (id : String) (m : LifecycleManager V R) (done : Done V R E) : Type 0 where
    unknown :
        Dict.get id m.executions ≡ none
        → done ≡ (some key_error, [], m)
        → Ends now status f id m done
    known :
        (x : Execution V R)
        → Dict.get id m.executions ≡ some x
        → done.0 ≡ (notify_listeners raises id status m.listeners).0
        → done.1 ≡ (notify_listeners raises id status m.listeners).1
        → ((j : String)
            → Dict.get j done.2.executions ≡ (
                if id == j
                then some (ended now status f (notify_listeners raises id status m.listeners).0 x)
                else Dict.get j m.executions))
        → Ends now status f id m done

  finish_missing :
      (now : ℕ) (status : ExecutionStatus) (f : Execution V R → Execution V R) (id : String)
      (m : LifecycleManager V R)
      → Dict.get id m.executions ≡ none
      → finish f id (update_status raises now id status m) ≡ (some key_error, [], m)
  unfolding update_status finish
  finish_missing now status f id m missing =
      rw (missing, update_status, finish) (rw (missing, finish) refl)

  finish-Ends :
      (now : ℕ) (status : ExecutionStatus) (f : Execution V R → Execution V R) (id : String)
      (m : LifecycleManager V R)
      → Ends now status f id m (finish f id (update_status raises now id status m))
  finish-Ends now status f id m = elim (Option-cases (Dict.get id m.executions)) [
    | inl missing ↦ unknown missing (finish_missing now status f id m missing)
    | inr (x, found) ↦
        known x found (finish_found now status f id id m x found).0
          (finish_found now status f id id m x found).1
          (λ j. (finish_found now status f id j m x found).2)
  ]

  -- The end of an execution, completed or failed. An unknown one raises KeyError, and nothing is
  -- called or changed. A known one has its status and time set and the listeners are called; the time
  -- of its end and its result or error follow if none of them raises an exception. No other
  -- execution changes.
  pub finish_lem :
      (now : ℕ) (id error : String) (result : R) (m : LifecycleManager V R)
      → Ends now completed
          (λ x. record x { completed_at = some now; result = some result })
          id
          m
          (complete_execution raises now id result m)
        × Ends now failed
            (λ x. record x { failed_at = some now; error = some error })
            id
            m
            (fail_execution raises now id error m)
  unfolding complete_execution fail_execution
  finish_lem now id error result m =
      (finish-Ends now completed _ id m, finish-Ends now failed _ id m)
