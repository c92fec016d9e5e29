-- ===== src/Workers/Pool/Keyed.antt =====
-- In src/workers/worker_pool.py the objects of the workers stand under their own identifiers, whatever
-- happens to the pools.
use cyber_security_platform.Prelude.{
  ℕ, String, Bool, Option, none, some, List, ◌≡◌, refl, sym, subst, arith, ap, ◌∙◌, if_true,
  if_false, String-IsKey, Option-cases, Bool-cases, inl, inr,
}
use cyber_security_platform.Prelude.Dict
use cyber_security_platform.Prelude.Dict.{Dict}
use cyber_security_platform.Workers.Pool.{
  WorkerPool, begin_creation, end_creation, get_available_worker, Purpose, first, more, upkeep,
  Creation, Progress, waits, begun, nothing, initialize_pool, take_worker, find_worker,
  begin_execution, go_on, complete_creation, finish_execution,
}
use cyber_security_platform.Workers.Pool.Upkeep.{remove_idle_worker, scale_pool, cleanup_all}
use cyber_security_platform.Workers.Pool.Choice.{
  IsKeyed, change_worker-IsKeyed, end_creation-IsKeyed,
}
use cyber_security_platform.Workers.Pool.Size.{
  System, advance, Step, begins, initializes, completes, finishes, marks, scales, cleans, Reach,
  here, next,
}

IsKeyed-unchanged : (m m' : WorkerPool) → m'.workers ≡ m.workers → IsKeyed m → IsKeyed m'
IsKeyed-unchanged m m' same keyed id x found = keyed id x (ap (Dict.get id) (sym same) ∙ found)

take_worker-IsKeyed :
    (task : Option String) (tool : String) (m : WorkerPool)
    → IsKeyed m
    → IsKeyed (take_worker task tool m).1
unfolding take_worker
take_worker-IsKeyed task tool m keyed = elim (Option-cases (get_available_worker tool m)) [
  | inl missing ↦ rw (missing, take_worker) keyed
  | inr (y, found) ↦
      rw (found, take_worker) (change_worker-IsKeyed _ y.worker_id m (λ x. refl) keyed)
]

initialize_pool_workers :
    (purpose : Purpose) (tool : String) (m : WorkerPool)
    → (initialize_pool purpose tool m).1.workers ≡ m.workers
unfolding initialize_pool begin_creation
initialize_pool_workers purpose tool m = ground arith

find_worker-IsKeyed :
    (task : Option String) (tool : String) (m : WorkerPool)
    → IsKeyed m
    → IsKeyed (find_worker task tool m).1
unfolding find_worker begin_creation
find_worker-IsKeyed task tool m keyed = elim (Option-cases (get_available_worker tool m)) [
  | inr (y, found) ↦ rw (found, find_worker) (take_worker-IsKeyed task tool m keyed)
  | inl missing ↦
      let same : (find_worker task tool m).1.workers ≡ m.workers = ground arith in
      IsKeyed-unchanged m (find_worker task tool m).1 same keyed
]

begin_execution-IsKeyed :
    (task : Option String) (tool : String) (m : WorkerPool)
    → IsKeyed m
    → IsKeyed (begin_execution task tool m).1
unfolding begin_execution
begin_execution-IsKeyed task tool m keyed = elim (Bool-cases (Dict.has tool m.worker_pools)) [
  | inl there ↦
      subst (λ r. IsKeyed r.1) (sym (if_true _ (find_worker task tool m) _ there))
        (find_worker-IsKeyed task tool m keyed)
  | inr missing ↦
      subst (λ r. IsKeyed r.1) (sym (if_false _ _ (initialize_pool (first task) tool m) missing))
        (IsKeyed-unchanged m (initialize_pool (first task) tool m).1
          (initialize_pool_workers (first task) tool m) keyed)
]

go_on-IsKeyed :
    (made : Option String) (purpose : Purpose) (tool : String) (m : WorkerPool)
    → IsKeyed m
    → IsKeyed (go_on made purpose tool m).1
unfolding go_on
go_on-IsKeyed none upkeep tool m keyed = keyed
go_on-IsKeyed none (first task) tool m keyed = keyed
go_on-IsKeyed none (more task) tool m keyed = keyed
go_on-IsKeyed (some id) upkeep tool m keyed = keyed
go_on-IsKeyed (some id) (first task) tool m keyed = find_worker-IsKeyed task tool m keyed
go_on-IsKeyed (some id) (more task) tool m keyed = take_worker-IsKeyed task tool m keyed

finish_execution-IsKeyed :
    (duration : Option ℕ) (id : String) (m : WorkerPool)
    → IsKeyed m
    → IsKeyed (finish_execution duration id m)
unfolding finish_execution
finish_execution-IsKeyed none id m keyed = change_worker-IsKeyed _ id m (λ x. refl) keyed
finish_execution-IsKeyed (some d) id m keyed =
    change_worker-IsKeyed _ id m (λ x. ground arith) keyed

scale_pool_workers :
    (stopped : Bool) (tool : String) (m : WorkerPool)
    → (scale_pool stopped tool m).1.workers ≡ m.workers
unfolding scale_pool remove_idle_worker begin_creation
scale_pool_workers stopped tool m = ground arith

advance_pool : (r : Progress × WorkerPool) (cs : List Creation) → (advance r cs).pool ≡ r.1
unfolding advance
advance_pool (waits c, m) cs = refl
advance_pool (begun b, m) cs = refl
advance_pool (nothing, m) cs = refl

advance-IsKeyed :
    (r : Progress × WorkerPool) (cs : List Creation) → IsKeyed r.1 → IsKeyed (advance r cs).pool
advance-IsKeyed r cs = subst IsKeyed (sym (advance_pool r cs))

Step-IsKeyed : {s s' : System} → IsKeyed s.pool → Step s s' → IsKeyed s'.pool
unfolding complete_creation cleanup_all
Step-IsKeyed {s} keyed (begins task tool) =
    advance-IsKeyed _ _ (begin_execution-IsKeyed task tool s.pool keyed)
Step-IsKeyed {s} keyed (initializes tool) = advance-IsKeyed _ _ (
    IsKeyed-unchanged s.pool (initialize_pool upkeep tool s.pool).1
      (initialize_pool_workers upkeep tool s.pool) keyed)
Step-IsKeyed {s} keyed (completes before after c now id container which) = advance-IsKeyed _ _ (
    go_on-IsKeyed (end_creation now id c.tool container s.pool).0 c.purpose c.tool
      (end_creation now id c.tool container s.pool).1
      (end_creation-IsKeyed now id c.tool container s.pool keyed))
Step-IsKeyed {s} keyed (finishes duration id) = finish_execution-IsKeyed duration id s.pool keyed
Step-IsKeyed {s} keyed (marks f id same) = change_worker-IsKeyed f id s.pool same keyed
Step-IsKeyed {s} keyed (scales stopped tool) = advance-IsKeyed _ _ (
    IsKeyed-unchanged s.pool (scale_pool stopped tool s.pool).1
      (scale_pool_workers stopped tool s.pool) keyed)
Step-IsKeyed {s} keyed cleans = keyed

-- Whatever steps the pools take, the objects of the workers stand under their own identifiers, if they
-- did at first.
pub Reach-IsKeyed : {n : ℕ} {s s' : System} → IsKeyed s.pool → Reach n s s' → IsKeyed s'.pool
Reach-IsKeyed keyed here = keyed
Reach-IsKeyed keyed (next r step few) = Step-IsKeyed (Reach-IsKeyed keyed r) step
