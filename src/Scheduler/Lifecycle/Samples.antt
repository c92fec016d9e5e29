-- ===== src/Scheduler/Lifecycle/Samples.antt =====
-- The lifecycle manager on small inputs: one execution and three listeners, the second of which
-- raises an exception.
use cyber_security_platform.Prelude.{
  ℕ, String, Option, none, some, [], ◌∷◌, ◌≡◌, refl, if◌then◌else◌, ◌==◌, String-IsKey,
}
use cyber_security_platform.Prelude.Dict
use cyber_security_platform.Prelude.Dict.{Dict}
use cyber_security_platform.Scheduler.Lifecycle.{
  ExecutionStatus, completed, LifecycleManager, no_executions, callback_error, listens,
  notify_listeners, create_execution, on_status_change, change, list_executions, update_status,
  complete_execution, finish,
}
use cyber_security_platform.Scheduler.Lifecycle.Listeners.{
  wanting, Notified, notify_listeners-Notified,
}

program : Unit {0}
unfolding listens notify_listeners create_execution on_status_change change update_status finish
    complete_execution Dict.get Dict.put wanting list_executions
program = tt

abbrev second_raises : String → String → ExecutionStatus → Option ℕ
second_raises listener id status = if listener == "b" then some 9 else none

abbrev listening : LifecycleManager ℕ ℕ
listening =
    (on_status_change "c" none
      (on_status_change "b" (some completed)
        (on_status_change "a" none (create_execution 1 "p" "ann" "t" (no_executions ℕ ℕ)).1).1).1).1

complete_raises :
    let (error, told, m') = complete_execution second_raises 5 "p" 7 listening in
    (error ≡ some (callback_error 9)) × (told ≡ "a" ∷ "b" ∷ [])
unfolding program
complete_raises = (refl, refl)

notify_listeners-Notified_example :
    Notified second_raises "p" completed
      (wanting completed listening.listeners)
      (notify_listeners second_raises "p" completed listening.listeners)
notify_listeners-Notified_example =
    notify_listeners-Notified second_raises "p" completed listening.listeners
