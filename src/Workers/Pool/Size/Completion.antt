-- ===== src/Workers/Pool/Size/Completion.antt =====
-- What the completion of a worker in src/workers/worker_pool.py does to the sizes of pools.
use cyber_security_platform.Prelude.{
  ℕ, ◌+◌, ◌≤◌, String, Option, none, some, [], ◌∷◌, ◌++◌, ◌≡◌, refl, arith, length-append,
  String-IsKey, Bool-cases, inl, inr,
}
use cyber_security_platform.Prelude.Dict
use cyber_security_platform.Prelude.Dict.{Dict, get_default-put}
use cyber_security_platform.Workers.Pool.{
  WorkerPool, pool_of, end_creation, Purpose, first, more, upkeep, Creation, begun, take_worker,
  go_on, complete_creation,
}
use cyber_security_platform.Workers.Pool.Size.Bounds.{
  size, is_for, Grows, Grows-unchanged, take_worker-Grows, find_worker-Grows,
}

-- The end of a creation adds one worker at most, to the pool of its tool.
size-end_creation :
    (now : ℕ) (id : String) (container : Option String) (c : Creation) (m : WorkerPool)
    (tool : String)
    → size tool (end_creation now id c.tool container m).1 ≤ size tool m + is_for tool c
unfolding end_creation
size-end_creation now id none c m tool = omega arith
size-end_creation now id (some k) c m tool = elim (Bool-cases (Dict.has c.tool m.worker_pools)) [
  | inl there ↦
      rw (there, end_creation)
        (ground (
          arith,
          get_default-put c.tool tool [] (pool_of c.tool m ++ id ∷ []) m.worker_pools,
          length-append (pool_of c.tool m) (id ∷ []),
          String-IsKey.same_iff c.tool tool,
        ))
  | inr cleared ↦ rw (cleared, end_creation) (omega arith)
]

limit-end_creation :
    (now : ℕ) (id tool : String) (container : Option String) (m : WorkerPool)
    → (end_creation now id tool container m).1.max_workers_per_tool ≡ m.max_workers_per_tool
unfolding end_creation
limit-end_creation now id tool none m = refl
limit-end_creation now id tool (some c) m = ground arith

go_on-Grows :
    (made : Option String) (purpose : Purpose) (tool : String) (m : WorkerPool)
    → Grows m (go_on made purpose tool m).0 (go_on made purpose tool m).1
unfolding go_on
go_on-Grows none upkeep tool m = Grows-unchanged _ (λ t. refl) refl refl
go_on-Grows none (first task) tool m = Grows-unchanged _ (λ t. refl) refl refl
go_on-Grows none (more task) tool m = Grows-unchanged _ (λ t. refl) refl refl
go_on-Grows (some id) upkeep tool m = Grows-unchanged _ (λ t. refl) refl refl
go_on-Grows (some id) (first task) tool m = find_worker-Grows task tool m
go_on-Grows (some id) (more task) tool m =
    take_worker-Grows (begun (take_worker task tool m).0) task tool m (λ t. refl)

-- After a creation has been completed, a pool is larger by that worker at most, or below the limit and
-- one more is being made.
pub complete_creation-Grows :
    (now : ℕ) (id : String) (container : Option String) (c : Creation) (m : WorkerPool)
    → let m1 = (end_creation now id c.tool container m).1 in
      (m1.max_workers_per_tool ≡ m.max_workers_per_tool)
      × ((tool : String) → size tool m1 ≤ size tool m + is_for tool c)
      × Grows m1
          (complete_creation now id container c m).0
          (complete_creation now id container c m).1
unfolding complete_creation
complete_creation-Grows now id container c m = (
  limit-end_creation now id c.tool container m,
  size-end_creation now id container c m,
  go_on-Grows (end_creation now id c.tool container m).0 c.purpose c.tool
      (end_creation now id c.tool container m).1,
)
