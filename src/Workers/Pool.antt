-- ===== src/Workers/Pool.antt =====
-- src/workers/worker_pool.py. A worker is one object that the pools and `worker_status` share: the
-- objects stand in `workers` under their identifiers, and pools are lists of identifiers. What Docker
-- answers is an argument. An operation that makes a worker has a part before it waits for Docker and
-- one after that, and an execution one more after its command; other operations run between them.
-- The clean-up, the removal and the recovery of workers, which test no sizes after their waits, are
-- one step each. Durations are natural numbers.
pub mod State
pub mod Upkeep
pub mod Choice
pub mod Keyed
pub mod Size
pub mod Health
mod Samples
use cyber_security_platform.Prelude.{
  ℕ, ◌+◌, ◌-◌, ◌*◌, String, false, not, ◌&&◌, Option, none, some, List, [], ◌∷◌, ◌++◌, ltb, leb,
  if◌then◌else◌, length, filter_by, contains, ◌==◌, String-IsKey,
}
use cyber_security_platform.Prelude.Dict
use cyber_security_platform.Prelude.Dict.{Dict}
use cyber_security_platform.Prelude.Calendar.{second}
pub use cyber_security_platform.Workers.Pool.State.{
  WorkerStatus, is_available, is_busy, is_unhealthy, Worker, WorkerPool, min_workers_per_tool,
  no_workers, pool_of, available, busy, unhealthy,
}
unfoldable pub use cyber_security_platform.Workers.Pool.State.{objects}

abbrev pub added_once : String → List String → List String
added_once id ids = if contains id ids then ids else ids ++ id ∷ []

-- The beginning of `_create_worker`, before Docker answers: the pool of the tool is there.
unfoldable pub begin_creation : String → WorkerPool → WorkerPool
begin_creation tool m = record m { worker_pools = Dict.put tool (pool_of tool m) m.worker_pools }

-- The end of `_create_worker`: none as the container is the exception of one of the calls to Docker,
-- which is raised again; a pool that has been cleared meanwhile is KeyError.
unfoldable pub end_creation :
    (now : ℕ) (id tool : String) (container : Option String)
    → WorkerPool
    → Option String × WorkerPool
end_creation now id tool none m = (none, m)
end_creation now id tool (some c) m =
    if Dict.has tool m.worker_pools
    then (
      some id,
      record m {
        workers =
            Dict.put id
              (record {
                worker_id = id;
                container_id = c;
                tool_name = tool;
                status = available;
                created_at = now;
                last_health_check = now;
                tasks_completed = 0;
                total_execution_time = 0;
                current_task = none;
                permanent_failure = false;
              })
              m.workers;
        worker_pools = Dict.put tool (pool_of tool m ++ id ∷ []) m.worker_pools;
        worker_status = added_once id m.worker_status;
        task_queues = added_once id m.task_queues;
      },
    )
    else (none, m)

-- `_create_worker` where nothing else runs while Docker answers.
unfoldable pub create_worker :
    (now : ℕ) (id tool : String) (container : Option String)
    → WorkerPool
    → Option String × WorkerPool
unfolding begin_creation end_creation
create_worker now id tool container m = end_creation now id tool container (begin_creation tool m)

-- Changes to an object.
unfoldable pub change_worker : (Worker → Worker) → String → WorkerPool → WorkerPool
change_worker f id m = elim (Dict.get id m.workers) [
  | none ↦ m
  | some worker ↦ record m { workers = Dict.put id (f worker) m.workers }
]

-- `min(workers, key=…)`: the first of the least; none for no workers.
unfoldable pub least : (Worker → ℕ) → List Worker → Option Worker
least key [] = none
least key (x ∷ xs) = elim (least key xs) [
  | none ↦ some x
  | some y ↦ if leb (key x) (key y) then some x else some y
]

unfoldable pub get_available_worker : String → WorkerPool → Option Worker
unfolding least objects
get_available_worker tool m =
    least (λ x. x.tasks_completed)
      (filter_by (λ x. is_available x.status) (objects m (pool_of tool m)))

-- What a new worker is for: the first one of a pool or one more for the execution of a task, or
-- neither, for an initialisation and the scaling of pools.
pub data Purpose : Type 0 where
  first more : (task : Option String) → Purpose
  upkeep : Purpose

-- A call of `_create_worker` that waits for Docker.
pub record Creation : Type 0 where
  pub tool : String
  pub purpose : Purpose

-- How the first part of an execution ends: the exception of a worker that is not made, the worker
-- that runs the command, or none, and the command runs outside the pool.
pub data Begun : Type 0 where
  raised : Begun
  on_worker : String → Begun
  outside : Begun

-- What comes of an operation: it waits for a worker to be made, an execution has begun, or nothing.
pub data Progress : Type 0 where
  waits : Creation → Progress
  begun : Begun → Progress
  nothing : Progress

-- `initialize_pool`, with the one worker that a pool begins with.
unfoldable pub initialize_pool : Purpose → String → WorkerPool → Progress × WorkerPool
unfolding begin_creation
initialize_pool purpose tool m = if Dict.has tool m.worker_pools then (nothing, m) else (
  waits (record { tool = tool; purpose = purpose }),
  begin_creation tool (record m { worker_pools = Dict.put tool [] m.worker_pools }),
)

unfoldable pub take_worker : (task : Option String) → String → WorkerPool → Begun × WorkerPool
unfolding get_available_worker change_worker
take_worker task tool m = elim (get_available_worker tool m) [
  | none ↦ (outside, m)
  | some x ↦ (
    on_worker x.worker_id,
    change_worker (λ y. record y { status = busy; current_task = task }) x.worker_id m,
  )
]

-- The choice of a worker: one that is available, or one more if the pool has room.
unfoldable pub find_worker : (task : Option String) → String → WorkerPool → Progress × WorkerPool
unfolding take_worker begin_creation
find_worker task tool m = elim (get_available_worker tool m) [
  | some _ ↦ let (b, m') = take_worker task tool m in (begun b, m')
  | none ↦
      if ltb (length (pool_of tool m)) m.max_workers_per_tool
      then (waits (record { tool = tool; purpose = more task }), begin_creation tool m)
      else (begun outside, m)
]

unfoldable pub begin_execution :
    (task : Option String) → String → WorkerPool → Progress × WorkerPool
unfolding find_worker initialize_pool
begin_execution task tool m =
    if Dict.has tool m.worker_pools
    then find_worker task tool m
    else initialize_pool (first task) tool m

-- What goes on when Docker has answered a call of `_create_worker`.
unfoldable pub go_on :
    (made : Option String) → Purpose → String → WorkerPool → Progress × WorkerPool
unfolding find_worker take_worker
go_on none upkeep tool m = (nothing, m)
go_on none (first task) tool m = (begun raised, m)
go_on none (more task) tool m = (begun raised, m)
go_on (some _) upkeep tool m = (nothing, m)
go_on (some _) (first task) tool m = find_worker task tool m
go_on (some _) (more task) tool m = let (b, m') = take_worker task tool m in (begun b, m')

unfoldable pub complete_creation :
    (now : ℕ) (id : String) (container : Option String)
    → Creation
    → WorkerPool
    → Progress × WorkerPool
unfolding end_creation go_on
complete_creation now id container c m =
    let (made, m') = end_creation now id c.tool container m in go_on made c.purpose c.tool m'

-- The second part, for the worker: the duration, or none for an exception of the command. In `finally`
-- a worker that is not unhealthy is available again.
unfoldable pub finish_execution : Option ℕ → String → WorkerPool → WorkerPool
unfolding change_worker
finish_execution none = change_worker (λ x. record x { status = unhealthy })
finish_execution (some duration) = change_worker (λ x.
    let x' = record x {
      tasks_completed = x.tasks_completed + 1;
      total_execution_time = x.total_execution_time + duration;
    } in
    if is_unhealthy x.status then x' else record x' { status = available; current_task = none })
