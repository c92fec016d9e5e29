-- ===== src/Workers/Pool/State.antt =====
-- The state of src/workers/worker_pool.py: workers and their pools.
use cyber_security_platform.Prelude.{
  ℕ, String, Bool, true, false, Option, none, some, List, [], ◌∷◌, String-IsKey,
}
use cyber_security_platform.Prelude.Dict
use cyber_security_platform.Prelude.Dict.{Dict}

pub data WorkerStatus : Type 0 where
  available busy unhealthy : WorkerStatus

abbrev pub is_available : WorkerStatus → Bool
is_available available = true
is_available busy = false
is_available unhealthy = false

abbrev pub is_busy : WorkerStatus → Bool
is_busy available = false
is_busy busy = true
is_busy unhealthy = false

abbrev pub is_unhealthy : WorkerStatus → Bool
is_unhealthy available = false
is_unhealthy busy = false
is_unhealthy unhealthy = true

pub record Worker : Type 0 where
  pub worker_id : String
  pub container_id : String
  pub tool_name : String
  pub status : WorkerStatus
  pub created_at : ℕ
  pub last_health_check : ℕ
  pub tasks_completed : ℕ
  pub total_execution_time : ℕ
  pub current_task : Option String
  pub permanent_failure : Bool

-- `worker_status` and `task_queues` by their keys.
pub record WorkerPool : Type 0 where
  pub workers : Dict String Worker
  pub worker_pools : Dict String (List String)
  pub worker_status : List String
  pub task_queues : List String
  pub recovery_attempts : Dict String ℕ
  pub max_workers_per_tool : ℕ

abbrev pub min_workers_per_tool : ℕ
min_workers_per_tool = 1

abbrev pub no_workers : ℕ → WorkerPool
no_workers most = record {
  workers = [];
  worker_pools = [];
  worker_status = [];
  task_queues = [];
  recovery_attempts = [];
  max_workers_per_tool = most;
}

-- `self.worker_pools.get(tool_name, [])`
abbrev pub pool_of : String → WorkerPool → List String
pool_of tool m = Dict.get_default tool [] m.worker_pools

-- The objects of a pool in its order.
unfoldable pub objects : WorkerPool → List String → List Worker
objects m [] = []
objects m (id ∷ ids) = elim (Dict.get id m.workers) [
  | none ↦ objects m ids
  | some worker ↦ worker ∷ objects m ids
]
