-- ===== src/Workers/Pool/Health.antt =====
-- What a failed execution does to its worker in src/workers/worker_pool.py.
use cyber_security_platform.Prelude.{
  ℕ, String, true, false, none, some, ◌≡◌, ◌⊎◌, refl, ◌∙◌, subst, sym, arith, ◌==◌, String-IsKey,
  inl, inr,
}
use cyber_security_platform.Prelude.Dict
use cyber_security_platform.Prelude.Dict.{Dict}
use cyber_security_platform.Workers.Pool.{
  unhealthy, Worker, WorkerPool, change_worker, finish_execution,
}
use cyber_security_platform.Workers.Pool.Choice.{get-change_worker}
use cyber_security_platform.Workers.Pool.Upkeep.{Check, found_healthy, check_worker}

-- The worker is unhealthy and has its task.
abbrev pub IsStuck : String → Worker → WorkerPool → Type 0
IsStuck id x m =
    (y : Worker) × (Dict.get id m.workers ≡ some y)
    × (y.status ≡ unhealthy)
    × (y.current_task ≡ x.current_task)

change_worker-IsStuck :
    (f : Worker → Worker) (id : String) (x : Worker) (m : WorkerPool)
    → ((y : Worker) → ((f y).status ≡ y.status) × ((f y).current_task ≡ y.current_task))
    → IsStuck id x m
    → IsStuck id x (change_worker f id m)
change_worker-IsStuck f id x m same (y, here, ill, task) =
    (f y, get-change_worker f id m y here, (same y).0 ∙ ill, (same y).1 ∙ task)

-- A healthy check leaves such a worker unhealthy: it only notes the time.
found_healthy_stuck :
    (now : ℕ) (x : Worker) (task : String) (m : WorkerPool)
    → x.status ≡ unhealthy
    → x.current_task ≡ some task
    → (task == "") ≡ false
    → found_healthy now x m
      ≡ change_worker (λ y. record y { last_health_check = now }) x.worker_id m
unfolding found_healthy
found_healthy_stuck now x task m ill has named = ground arith

-- A check that finds a worker healthy: nothing, a permanent failure or the note of its health.
check_worker_cases :
    (now : ℕ) (check : Check) (x : Worker) (m : WorkerPool)
    → check.healthy ≡ true
    → (check_worker now check x m ≡ m)
      ⊎ ((check_worker now check x m
            ≡ change_worker (λ y. record y { permanent_failure = true }) x.worker_id m)
          ⊎ (check_worker now check x m ≡ found_healthy now x m))
unfolding check_worker
check_worker_cases now check x m fine = ground arith

check_worker-IsStuck :
    (now : ℕ) (check : Check) (x : Worker) (task : String) (m : WorkerPool)
    → check.healthy ≡ true
    → x.status ≡ unhealthy
    → x.current_task ≡ some task
    → (task == "") ≡ false
    → IsStuck x.worker_id x m
    → IsStuck x.worker_id x (check_worker now check x m)
check_worker-IsStuck now check x task m fine ill has named stuck =
    elim (check_worker_cases now check x m fine) [
      | inl same ↦ subst (IsStuck x.worker_id x) (sym same) stuck
      | inr (inl failed) ↦
          subst (IsStuck x.worker_id x) (sym failed)
            (change_worker-IsStuck _ x.worker_id x m (λ y. (refl, refl)) stuck)
      | inr (inr noted) ↦
          subst (IsStuck x.worker_id x)
            (sym (noted ∙ found_healthy_stuck now x task m ill has named))
            (change_worker-IsStuck _ x.worker_id x m (λ y. (refl, refl)) stuck)
    ]

-- A worker with a named task whose command raises an exception is unhealthy and keeps the task, and
-- a check that finds its container healthy, at any time, does not make it available again.
pub check_worker-finish_execution :
    (now : ℕ) (check : Check) (x : Worker) (task : String) (m : WorkerPool)
    → Dict.get x.worker_id m.workers ≡ some x
    → x.current_task ≡ some task
    → (task == "") ≡ false
    → check.healthy ≡ true
    → let m' = finish_execution none x.worker_id m in
      let x' = record x { status = unhealthy } in
      (Dict.get x.worker_id m'.workers ≡ some x')
      × IsStuck x.worker_id x (check_worker now check x' m')
unfolding finish_execution
check_worker-finish_execution now check x task m here has named fine =
    let m' = finish_execution none x.worker_id m in
    let failed : Dict.get x.worker_id m'.workers ≡ some (record x { status = unhealthy }) =
      get-change_worker (λ y. record y { status = unhealthy }) x.worker_id m x here in
    (
      failed,
      check_worker-IsStuck now check (record x { status = unhealthy }) task m' fine refl has named
          (_, failed, refl, refl),
    )
