-- ===== src/Workers/Pool/Size/Bounds.antt =====
-- What the operations of src/workers/worker_pool.py do to the sizes of pools, one by one.
use cyber_security_platform.Prelude.{
  ℕ, ◌≤◌, ◌<◌, String, Bool, Option, none, some, List, [], ◌∷◌, ◌≡◌, refl, sym, ◌∙◌, subst, arith,
  ltb, length, ◌==◌, String-IsKey, Option-cases, Bool-cases, inl, inr, ltb→lt, ◌⊎◌, if◌then◌else◌,
  if_false,
}
use cyber_security_platform.Prelude.Dict
use cyber_security_platform.Prelude.Dict.{Dict, get_default-put, get_default-put_self}
use cyber_security_platform.Workers.Pool.{
  Worker, WorkerPool, pool_of, begin_creation, change_worker, get_available_worker, Purpose, first,
  more, upkeep, Creation, Progress, waits, begun, nothing, initialize_pool, take_worker,
  find_worker, begin_execution, finish_execution,
}
use cyber_security_platform.Workers.Pool.Upkeep.{
  remove_first, idle_worker, remove_idle_worker, Scaling, steady, up, down, scaling, scale_pool,
  cleanup_all,
}

abbrev pub size : String → WorkerPool → ℕ
size tool m = length (pool_of tool m)

-- Whether the operation begins to make a worker for this tool.
abbrev pub is_for : String → Creation → ℕ
is_for tool c = if c.tool == tool then 1 else 0

abbrev pub waiting : String → Progress → ℕ
waiting tool (waits c) = is_for tool c
waiting tool (begun b) = 0
waiting tool nothing = 0

-- An operation adds no worker to a pool; and where it begins to make one, the pool is below the limit.
pub record Grows (m : WorkerPool) (p : Progress) (m' : WorkerPool) : Type 0 where
  pub limit : m'.max_workers_per_tool ≡ m.max_workers_per_tool
  pub sizes :
      (tool : String)
      → ((waiting tool p ≡ 0) × (size tool m' ≤ size tool m))
        ⊎ ((waiting tool p ≡ 1) × (size tool m' < m.max_workers_per_tool))

-- An operation that begins to make nothing and leaves the pools.
pub Grows-unchanged :
    {m m' : WorkerPool} (p : Progress)
    → ((tool : String) → waiting tool p ≡ 0)
    → m'.max_workers_per_tool ≡ m.max_workers_per_tool
    → m'.worker_pools ≡ m.worker_pools
    → Grows m p m'
Grows-unchanged p idle a b = record {
  limit = a;
  sizes = λ tool. inl (idle tool, rw b (omega arith));
}

pub change_worker-Grows :
    (p : Progress) (f : Worker → Worker) (id : String) (m : WorkerPool)
    → ((tool : String) → waiting tool p ≡ 0)
    → Grows m p (change_worker f id m)
unfolding change_worker
change_worker-Grows p f id m idle = Grows-unchanged p idle (ground arith) (ground arith)

pub take_worker-Grows :
    (p : Progress) (task : Option String) (tool : String) (m : WorkerPool)
    → ((t : String) → waiting t p ≡ 0)
    → Grows m p (take_worker task tool m).1
unfolding take_worker
take_worker-Grows p task tool m idle = elim (Option-cases (get_available_worker tool m)) [
  | inl missing ↦ rw (missing, take_worker) (Grows-unchanged p idle refl refl)
  | inr (y, found) ↦ rw (found, take_worker) (change_worker-Grows p _ y.worker_id m idle)
]

-- The beginning of a creation where there is room.
begin_creation-Grows :
    (purpose : Purpose) (tool : String) (m : WorkerPool)
    → size tool m < m.max_workers_per_tool
    → Grows m (waits (record { tool = tool; purpose = purpose })) (begin_creation tool m)
unfolding begin_creation
begin_creation-Grows purpose tool m room = record {
  limit = refl;
  sizes = λ t. ground (
    arith,
    get_default-put tool t [] (pool_of tool m) m.worker_pools,
    String-IsKey.same_iff tool t,
  );
}

Grows-then :
    {m m1 m' : WorkerPool} {p : Progress}
    → m1.max_workers_per_tool ≡ m.max_workers_per_tool
    → ((tool : String) → size tool m1 ≤ size tool m)
    → Grows m1 p m'
    → Grows m p m'
Grows-then a b g = record {
  limit = g.limit ∙ a;
  sizes = λ tool. ground (arith, g.sizes tool, b tool, a);
}

pub initialize_pool-Grows :
    (purpose : Purpose) (tool : String) (m : WorkerPool)
    → 1 ≤ m.max_workers_per_tool
    → Grows m (initialize_pool purpose tool m).0 (initialize_pool purpose tool m).1
unfolding initialize_pool
initialize_pool-Grows purpose tool m one =
    let m0 = record m { worker_pools = Dict.put tool [] m.worker_pools } in
    elim (Bool-cases (Dict.has tool m.worker_pools)) [
      | inl there ↦ rw (there, initialize_pool) (Grows-unchanged nothing (λ t. refl) refl refl)
      | inr missing ↦
          rw (missing, initialize_pool)
            (Grows-then refl (λ t. ground (arith, get_default-put tool t [] [] m.worker_pools))
              (begin_creation-Grows purpose tool m0
                (rw (get_default-put_self tool [] [] m.worker_pools) (omega (arith, one)))))
    ]

pub find_worker-Grows :
    (task : Option String) (tool : String) (m : WorkerPool)
    → Grows m (find_worker task tool m).0 (find_worker task tool m).1
unfolding find_worker
find_worker-Grows task tool m = elim (Option-cases (get_available_worker tool m)) [
  | inr (y, found) ↦
      rw (found, find_worker)
        (take_worker-Grows (begun (take_worker task tool m).0) task tool m (λ t. refl))
  | inl missing ↦ elim (Bool-cases (ltb (size tool m) m.max_workers_per_tool)) [
    | inl room ↦
        rw (missing, find_worker, room) (begin_creation-Grows (more task) tool m (ltb→lt _ _ room))
    | inr full ↦ rw (missing, find_worker, full) (Grows-unchanged _ (λ t. refl) refl refl)
  ]
]

pub begin_execution-Grows :
    (task : Option String) (tool : String) (m : WorkerPool)
    → 1 ≤ m.max_workers_per_tool
    → Grows m (begin_execution task tool m).0 (begin_execution task tool m).1
unfolding begin_execution
begin_execution-Grows task tool m one = elim (Bool-cases (Dict.has tool m.worker_pools)) [
  | inl there ↦ rw (there, begin_execution) (find_worker-Grows task tool m)
  | inr missing ↦
      subst (λ r. Grows m r.0 r.1)
        (sym (if_false _ (find_worker task tool m) (initialize_pool (first task) tool m) missing))
        (initialize_pool-Grows (first task) tool m one)
]

pub finish_execution-Grows :
    (duration : Option ℕ) (id : String) (m : WorkerPool)
    → Grows m nothing (finish_execution duration id m)
unfolding finish_execution
finish_execution-Grows none id m = change_worker-Grows nothing _ id m (λ t. refl)
finish_execution-Grows (some d) id m = change_worker-Grows nothing _ id m (λ t. refl)

length-remove_first-le :
    (id : String) (ids : List String) → length (remove_first id ids) ≤ length ids
unfolding remove_first
length-remove_first-le id [] = omega arith
length-remove_first-le id (j ∷ ids) = ground (arith, length-remove_first-le id ids)

remove_idle_worker-Grows :
    (stopped : Bool) (tool : String) (m : WorkerPool)
    → Grows m nothing (remove_idle_worker stopped tool m)
unfolding remove_idle_worker
remove_idle_worker-Grows stopped tool m = elim (Option-cases (idle_worker tool m)) [
  | inl missing ↦ rw (missing, remove_idle_worker) (Grows-unchanged nothing (λ t. refl) refl refl)
  | inr (x, found) ↦ elim (Bool-cases stopped) [
    | inr wrong ↦
        rw (found, wrong, remove_idle_worker) (Grows-unchanged nothing (λ t. refl) refl refl)
    | inl fine ↦
        let left = remove_first x.worker_id (pool_of tool m) in
        rw (found, fine, remove_idle_worker)
          (record {
            limit = refl;
            sizes = λ t. inl (
              refl,
              ground (
                arith,
                get_default-put tool t [] left m.worker_pools,
                length-remove_first-le x.worker_id (pool_of tool m),
                String-IsKey.same_iff tool t,
              ),
            );
          })
  ]
]

Scaling-cases : (s : Scaling) → (s ≡ steady) ⊎ ((s ≡ up) ⊎ (s ≡ down))
Scaling-cases steady = inl refl
Scaling-cases up = inr (inl refl)
Scaling-cases down = inr (inr refl)

scaling_up :
    (tool : String) (m : WorkerPool) → scaling tool m ≡ up → size tool m < m.max_workers_per_tool
unfolding scaling
scaling_up tool m h = ground arith

pub scale_pool-Grows :
    (stopped : Bool) (tool : String) (m : WorkerPool)
    → Grows m (scale_pool stopped tool m).0 (scale_pool stopped tool m).1
unfolding scale_pool
scale_pool-Grows stopped tool m = elim (Scaling-cases (scaling tool m)) [
  | inl same ↦ rw (same, scale_pool) (Grows-unchanged nothing (λ t. refl) refl refl)
  | inr (inl more_work) ↦
      rw (more_work, scale_pool) (begin_creation-Grows upkeep tool m (scaling_up tool m more_work))
  | inr (inr less_work) ↦ rw (less_work, scale_pool) (remove_idle_worker-Grows stopped tool m)
]

pub cleanup_all-Grows : (m : WorkerPool) → Grows m nothing (cleanup_all m)
unfolding cleanup_all Dict.get_default Dict.get
cleanup_all-Grows m = record { limit = refl; sizes = λ tool. inl (refl, omega arith) }
