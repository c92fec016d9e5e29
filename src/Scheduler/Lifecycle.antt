-- ===== src/Scheduler/Lifecycle.antt =====
-- src/scheduler/lifecycle_manager.py. `V` is the type of the values in a task's dict, `R` that of
-- results. A callback is named by its listener identifier; `raises` says which of its calls raise
-- which exception, and callbacks do not call the manager.
pub mod Listeners
pub mod Outcomes
mod Samples
use cyber_security_platform.Prelude.{
  ℕ, String, Bool, true, false, Option, none, some, List, [], ◌∷◌, if◌then◌else◌, filter_by, ◌==◌,
  String-IsKey, IsKey,
}
use cyber_security_platform.Prelude.Dict
use cyber_security_platform.Prelude.Dict.{Dict}

pub data ExecutionStatus : Type 0 where
  pending planning validating executing completed failed cancelled : ExecutionStatus

-- `status.value`
abbrev pub status_value : ExecutionStatus → String
status_value pending = "pending"
status_value planning = "planning"
status_value validating = "validating"
status_value executing = "executing"
status_value completed = "completed"
status_value failed = "failed"
status_value cancelled = "cancelled"

pub record Execution (V R : Type 0) : Type 0 where
  pub process_id : String
  pub user_id : String
  pub tenant_id : String
  pub status : String
  pub created_at : ℕ
  pub updated_at : ℕ
  pub tasks : Dict String (Dict String V)
  pub completed_at : Option ℕ
  pub result : Option R
  pub failed_at : Option ℕ
  pub error : Option String

pub record LifecycleManager (V R : Type 0) : Type 0 where
  pub executions : Dict String (Execution V R)
  pub listeners : Dict String (Option ExecutionStatus)

abbrev pub no_executions : (V R : Type 0) → LifecycleManager V R
no_executions V R = record { executions = []; listeners = [] }

-- What ends a call: an exception of a callback, or the KeyError of `self.executions[process_id]`.
pub data Raised (E : Type 0) : Type 0 where
  key_error : Raised E
  callback_error : E → Raised E

-- `not listener["status"] or listener["status"] == status`
unfoldable pub listens : ExecutionStatus → Option ExecutionStatus → Bool
listens status none = true
listens status (some wanted) = status_value wanted == status_value status

module _ {E : Type 0} (raises : String → String → ExecutionStatus → Option E) where
  -- `_notify_listeners`: the exception that ends the loop, and the listeners called before it ends.
  unfoldable pub notify_listeners :
      String
      → ExecutionStatus
      → Dict String (Option ExecutionStatus)
      → Option (Raised E) × List String
  unfolding listens
  notify_listeners id status [] = (none, [])
  notify_listeners id status ((listener, wanted) ∷ rest) =
      let (raised, called) = notify_listeners id status rest in
      if listens status wanted
      then elim (raises listener id status) [
        | some e ↦ (some (callback_error e), listener ∷ [])
        | none ↦ (raised, listener ∷ called)
      ]
      else (raised, called)

module _ {V : Type 0} where
  -- `task.update(updates)`
  unfoldable pub updated : Dict String V → Dict String V → Dict String V
  updated [] task = task
  updated ((key, v) ∷ updates) task = updated updates (Dict.put key v task)

module _ {V R : Type 0} where
  unfoldable pub create_execution :
      (now : ℕ) (id user tenant : String)
      → LifecycleManager V R
      → Execution V R × LifecycleManager V R
  create_execution now id user tenant m =
      let made : Execution V R = record {
        process_id = id;
        user_id = user;
        tenant_id = tenant;
        status = status_value pending;
        created_at = now;
        updated_at = now;
        tasks = [];
        completed_at = none;
        result = none;
        failed_at = none;
        error = none;
      } in
      (made, record m { executions = Dict.put id made m.executions })

  -- Assignments to the keys of the execution, if it exists.
  unfoldable pub change :
      (Execution V R → Execution V R) → String → LifecycleManager V R → LifecycleManager V R
  change f id m = elim (Dict.get id m.executions) [
    | none ↦ m
    | some x ↦ record m { executions = Dict.put id (f x) m.executions }
  ]

  unfoldable pub add_task :
      String → String → Dict String V → LifecycleManager V R → LifecycleManager V R
  unfolding change
  add_task id task_id task = change (λ x. record x { tasks = Dict.put task_id task x.tasks }) id

  unfoldable pub with_task : String → Dict String V → Execution V R → Execution V R
  unfolding updated
  with_task task_id updates x = elim (Dict.get task_id x.tasks) [
    | none ↦ x
    | some task ↦ record x { tasks = Dict.put task_id (updated updates task) x.tasks }
  ]

  unfoldable pub update_task :
      String → String → Dict String V → LifecycleManager V R → LifecycleManager V R
  unfolding change with_task
  update_task id task_id updates = change (with_task task_id updates) id

  unfoldable pub on_status_change :
      String → Option ExecutionStatus → LifecycleManager V R → String × LifecycleManager V R
  on_status_change listener wanted m =
      (listener, record m { listeners = Dict.put listener wanted m.listeners })

  unfoldable pub get_execution : String → LifecycleManager V R → Option (Execution V R)
  get_execution id m = Dict.get id m.executions

  -- `if user_id:` passes over None and the empty text.
  unfoldable pub narrowed :
      Option String → (Execution V R → String) → List (Execution V R) → List (Execution V R)
  narrowed none field xs = xs
  narrowed (some wanted) field xs =
      if wanted == "" then xs else filter_by (λ x. field x == wanted) xs

  unfoldable pub list_executions :
      (user tenant status : Option String) → LifecycleManager V R → List (Execution V R)
  unfolding narrowed
  list_executions user tenant status m =
      narrowed status (λ x. x.status)
        (narrowed tenant (λ x. x.tenant_id)
          (narrowed user (λ x. x.user_id) (Dict.values m.executions)))

-- The exception, the listeners that were called, and the next manager.
abbrev pub Done : (V R E : Type 0) → Type 0
Done V R E = Option (Raised E) × List String × LifecycleManager V R

module _ {V R E : Type 0} where
  -- What follows the call of `update_status`: assignments to `self.executions[id]`.
  unfoldable pub finish : (Execution V R → Execution V R) → String → Done V R E → Done V R E
  unfolding change
  finish f id (some e, called, m) = (some e, called, m)
  finish f id (none, called, m) = elim (Dict.get id m.executions) [
    | none ↦ (some key_error, called, m)
    | some _ ↦ (none, called, change f id m)
  ]

module _ {V R E : Type 0} (raises : String → String → ExecutionStatus → Option E) where
  unfoldable pub update_status :
      (now : ℕ) (id : String) → ExecutionStatus → LifecycleManager V R → Done V R E
  unfolding change notify_listeners
  update_status now id status m = elim (Dict.get id m.executions) [
    | none ↦ (none, [], m)
    | some x ↦
        let (raised, called) = notify_listeners raises id status m.listeners in
        (
          raised,
          called,
          change (λ x. record x { status = status_value status; updated_at = now }) id m,
        )
  ]

  unfoldable pub complete_execution :
      (now : ℕ) (id : String) → R → LifecycleManager V R → Done V R E
  unfolding update_status finish
  complete_execution now id result m =
      finish (λ x. record x { completed_at = some now; result = some result }) id
        (update_status now id completed m)

  unfoldable pub fail_execution : (now : ℕ) (id error : String) → LifecycleManager V R → Done V R E
  unfolding update_status finish
  fail_execution now id error m =
      finish (λ x. record x { failed_at = some now; error = some error }) id
        (update_status now id failed m)
