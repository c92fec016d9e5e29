-- ===== src/Workers/Pool/Upkeep.antt =====
-- The upkeep of src/workers/worker_pool.py: health checks, recovery, scaling and statistics. One turn
-- of a loop is one operation; the tests of Docker are arguments.
use cyber_security_platform.Prelude.{
  ℕ, ◌+◌, ◌*◌, String, Bool, true, not, ◌&&◌, Option, none, some, List, [], ◌∷◌, ltb, leb, nat_beq,
  if◌then◌else◌, length, filter_by, ◌==◌, String-IsKey,
}
use cyber_security_platform.Prelude.Dict
use cyber_security_platform.Prelude.Dict.{Dict}
use cyber_security_platform.Prelude.Calendar.{second}
use cyber_security_platform.Workers.Pool.{
  available, unhealthy, is_available, is_busy, is_unhealthy, Worker, WorkerPool,
  min_workers_per_tool, pool_of, objects, begin_creation, Progress, waits, nothing, upkeep,
  create_worker, change_worker, least,
}

-- The first occurrence replaced: `pool[pool.index(worker)] = …`; identifiers tell workers apart.
unfoldable pub replace_first : String → String → List String → List String
replace_first old new [] = []
replace_first old new (id ∷ ids) = if id == old then new ∷ ids else id ∷ replace_first old new ids

-- `workers.remove(worker)`
unfoldable pub remove_first : String → List String → List String
remove_first old [] = []
remove_first old (id ∷ ids) = if id == old then ids else id ∷ remove_first old ids

abbrev pub attempts_of : String → WorkerPool → ℕ
attempts_of id m = Dict.get_default id 0 m.recovery_attempts

-- The end of `_recover_worker`: the new worker, which `_create_worker` has put at the end of the pool,
-- also takes the place of the old one. An exception on the way is logged.
unfoldable pub replaced : (old : Worker) → (made : Option String) → WorkerPool → WorkerPool
unfolding replace_first
replaced old none m = m
replaced old (some id) m = record m {
  worker_pools =
      Dict.put old.tool_name (replace_first old.worker_id id (pool_of old.tool_name m))
        m.worker_pools;
}

-- `cleaned` says that the clean-up of the network raises no exception.
unfoldable pub recover_worker :
    (now : ℕ) (new_id : String) (cleaned : Bool) (container : Option String)
    → Worker
    → WorkerPool
    → WorkerPool
unfolding change_worker create_worker replaced
recover_worker now new_id cleaned container old m =
    let attempted = record m {
      recovery_attempts =
          Dict.put old.worker_id (attempts_of old.worker_id m + 1) m.recovery_attempts;
    } in
    let (made, m') = create_worker now new_id old.tool_name container attempted in
    if ltb 1 (attempts_of old.worker_id m)
    then change_worker (λ x. record x { permanent_failure = true }) old.worker_id m
    else if cleaned
    then replaced old made m'
    else attempted

-- What Docker answers in the check of one worker.
pub record Check : Type 0 where
  pub healthy : Bool
  pub new_id : String
  pub cleaned : Bool
  pub container : Option String

-- A healthy worker: one that was unhealthy is available again unless it has a task.
unfoldable pub found_healthy : (now : ℕ) → Worker → WorkerPool → WorkerPool
unfolding change_worker
found_healthy now x m =
    let checked = change_worker (λ y. record y { last_health_check = now }) x.worker_id m in
    if is_unhealthy x.status
    then elim x.current_task [
      | none ↦ record (change_worker (λ y. record y { status = available }) x.worker_id checked) {
        recovery_attempts = Dict.remove x.worker_id m.recovery_attempts;
      }
      | some task ↦
          if task == ""
          then record (change_worker (λ y. record y { status = available }) x.worker_id checked) {
            recovery_attempts = Dict.remove x.worker_id m.recovery_attempts;
          }
          else checked
    ]
    else checked

-- One worker in the loop of `_health_check_loop`.
unfoldable pub check_worker : (now : ℕ) → Check → Worker → WorkerPool → WorkerPool
unfolding change_worker recover_worker found_healthy
check_worker now check x m =
    if ltb now (x.created_at + 60 * second)
    then m
    else if x.permanent_failure
    then m
    else if ltb 1 (attempts_of x.worker_id m)
    then change_worker (λ y. record y { permanent_failure = true }) x.worker_id m
    else if check.healthy
    then found_healthy now x m
    else recover_worker now check.new_id check.cleaned check.container x (
        change_worker (λ y. record y { status = unhealthy; last_health_check = now }) x.worker_id m)

-- The oldest of the workers that are available and have completed a task.
unfoldable pub idle_worker : String → WorkerPool → Option Worker
unfolding objects least
idle_worker tool m =
    least (λ x. x.created_at)
      (filter_by (λ x. is_available x.status && ltb 0 x.tasks_completed)
        (objects m (pool_of tool m)))

-- `_remove_idle_worker`; `stopped` says that Docker raises no exception.
unfoldable pub remove_idle_worker : (stopped : Bool) → String → WorkerPool → WorkerPool
unfolding idle_worker remove_first
remove_idle_worker stopped tool m = elim (idle_worker tool m) [
  | none ↦ m
  | some x ↦
      if stopped
      then record m {
        worker_pools = Dict.put tool (remove_first x.worker_id (pool_of tool m)) m.worker_pools;
        worker_status = filter_by (λ id. not (id == x.worker_id)) m.worker_status;
        task_queues = filter_by (λ id. not (id == x.worker_id)) m.task_queues;
      }
      else m
]

-- The thresholds of the settings, in tenths: 0.8 and 0.1.
abbrev pub scale_up_threshold : ℕ
scale_up_threshold = 8

abbrev pub scale_down_threshold : ℕ
scale_down_threshold = 1

abbrev pub busy_workers : String → WorkerPool → ℕ
busy_workers tool m = length (filter_by (λ x. is_busy x.status) (objects m (pool_of tool m)))

-- What the auto-scaler does with a pool in a turn of its loop.
pub data Scaling : Type 0 where
  steady up down : Scaling

unfoldable pub scaling : String → WorkerPool → Scaling
unfolding objects
scaling tool m =
    let total = length (pool_of tool m) in
    let busy_count = busy_workers tool m in
    if nat_beq total 0
    then steady
    else if leb (scale_up_threshold * total) (10 * busy_count) && ltb total m.max_workers_per_tool
    then up
    else if leb (10 * busy_count) (scale_down_threshold * total) && ltb min_workers_per_tool total
    then down
    else steady

-- One pool in the loop of `_auto_scaler_loop`, up to the wait for a new worker.
unfoldable pub scale_pool : (stopped : Bool) → String → WorkerPool → Progress × WorkerPool
unfolding begin_creation remove_idle_worker scaling
scale_pool stopped tool m = elim (scaling tool m) [
  | steady ↦ (nothing, m)
  | up ↦ (waits (record { tool = tool; purpose = upkeep }), begin_creation tool m)
  | down ↦ (nothing, remove_idle_worker stopped tool m)
]

-- `get_pool_stats`, with the average as its two sums.
pub record PoolStats : Type 0 where
  pub tool_name : String
  pub total_workers : ℕ
  pub available_workers : ℕ
  pub busy_workers : ℕ
  pub unhealthy_workers : ℕ
  pub total_tasks_completed : ℕ
  pub total_time : ℕ

abbrev pub sum_of : (Worker → ℕ) → List Worker → ℕ
sum_of f [] = 0
sum_of f (x ∷ xs) = f x + sum_of f xs

unfoldable pub get_pool_stats : String → WorkerPool → PoolStats
unfolding objects
get_pool_stats tool m =
    let xs = objects m (pool_of tool m) in
    record {
      tool_name = tool;
      total_workers = length (pool_of tool m);
      available_workers = length (filter_by (λ x. is_available x.status) xs);
      busy_workers = length (filter_by (λ x. is_busy x.status) xs);
      unhealthy_workers = length (filter_by (λ x. is_unhealthy x.status) xs);
      total_tasks_completed = sum_of (λ x. x.tasks_completed) xs;
      total_time = sum_of (λ x. x.total_execution_time) xs;
    }

unfoldable pub cleanup_all : WorkerPool → WorkerPool
cleanup_all m = record m {
  worker_pools = [];
  worker_status = [];
  task_queues = [];
  recovery_attempts = [];
}
