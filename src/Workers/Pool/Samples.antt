-- ===== src/Workers/Pool/Samples.antt =====
-- The worker pool on small inputs.
use cyber_security_platform.Prelude.{
  ◌≤◌, true, false, none, some, [], ◌∷◌, ◌≡◌, ◌⊎◌, refl, arith, filter_by, contains, String-IsKey,
}
use cyber_security_platform.Prelude.Dict
use cyber_security_platform.Workers.Pool.{
  available, busy, unhealthy, is_available, Worker, WorkerPool, no_workers, pool_of, objects,
  begin_creation, end_creation, create_worker, change_worker, least, get_available_worker,
  initialize_pool, on_worker, outside, begun, first, more, take_worker, find_worker,
  begin_execution, go_on, complete_creation, finish_execution,
}
use cyber_security_platform.Workers.Pool.Upkeep.{
  Check, replace_first, replaced, attempts_of, recover_worker, found_healthy, check_worker,
}
use cyber_security_platform.Workers.Pool.Choice.{IsFirstLeast, IsKeyed, take_worker_lem}
use cyber_security_platform.Workers.Pool.Keyed.{Reach-IsKeyed}
use cyber_security_platform.Workers.Pool.Size.{
  System, advance, begins, completes, finishes, Overlaps, Reach, here, next, IsBounded,
  Reach-IsBounded,
}
use cyber_security_platform.Workers.Pool.Health.{IsStuck, check_worker-finish_execution}

program : Unit {0}
unfolding Dict.get Dict.put Dict.get_default Dict.has contains objects begin_creation end_creation
    create_worker change_worker least get_available_worker initialize_pool take_worker find_worker
    begin_execution go_on complete_creation finish_execution replace_first replaced recover_worker
    found_healthy check_worker advance
program = tt

abbrev pool : WorkerPool
pool = no_workers 1

abbrev idle_system : System
idle_system = record { pool = pool; creating = [] }

-- Two executions overlap: the pool has no worker yet when the second one looks for one, so two are made,
-- and a pool with a limit of one has two workers.
abbrev starting : System
starting = advance (begin_execution (some "t1") "nmap" pool) []

abbrev both : System
both = advance (begin_execution (some "t2") "nmap" starting.pool) starting.creating

abbrev first_made : System
first_made =
    advance
      (complete_creation 0 "w1" (some "c1") (record { tool = "nmap"; purpose = first (some "t1") })
        both.pool)
      (record { tool = "nmap"; purpose = more (some "t2") } ∷ [])

abbrev both_made : System
both_made =
    advance
      (complete_creation 1 "w2" (some "c2") (record { tool = "nmap"; purpose = more (some "t2") })
        first_made.pool)
      []

over_the_limit : pool_of "nmap" both_made.pool ≡ "w1" ∷ "w2" ∷ []
unfolding program
over_the_limit = refl

third_outside : (begin_execution (some "t3") "nmap" both_made.pool).0 ≡ begun outside
unfolding program
third_outside = refl

few_starting : Overlaps 2 starting
unfolding program
few_starting tool = ground arith

few_both : Overlaps 2 both
unfolding program
few_both tool = ground arith

few_first_made : Overlaps 2 first_made
unfolding program
few_first_made tool = ground arith

few_both_made : Overlaps 2 both_made
unfolding program
few_both_made tool = ground arith

both_creating :
    both.creating
    ≡ record { tool = "nmap"; purpose = more (some "t2") }
      ∷ record { tool = "nmap"; purpose = first (some "t1") }
      ∷ []
unfolding program
both_creating = refl

first_made_creating :
    first_made.creating ≡ record { tool = "nmap"; purpose = more (some "t2") } ∷ []
unfolding program
first_made_creating = refl

runs : Reach 2 idle_system both_made
runs =
    next
      (next
        (next (next here (begins (some "t1") "nmap") few_starting) (begins (some "t2") "nmap")
          few_both)
        (completes (record { tool = "nmap"; purpose = more (some "t2") } ∷ []) [] _ 0 "w1"
          (some "c1") both_creating)
        few_first_made)
      (completes [] [] _ 1 "w2" (some "c2") first_made_creating) few_both_made

idle_system-IsBounded : IsBounded 1 2 idle_system
unfolding program
idle_system-IsBounded = (refl, λ tool. omega arith)

Reach-IsBounded_example : IsBounded 1 2 both_made
Reach-IsBounded_example = Reach-IsBounded (omega arith) idle_system-IsBounded runs

abbrev one : WorkerPool
one = first_made.pool

abbrev rested : WorkerPool
rested = finish_execution (some 7) "w1" both_made.pool

pool-IsKeyed : IsKeyed pool
unfolding Dict.get
pool-IsKeyed id x found = cc

few_rested : Overlaps 2 (record both_made { pool = rested })
unfolding program
few_rested tool = ground arith

rested-IsKeyed : IsKeyed rested
rested-IsKeyed = Reach-IsKeyed pool-IsKeyed (next runs (finishes (some 7) "w1") few_rested)

take_worker_lem_example :
    let free = filter_by (λ x. is_available x.status) (objects rested (pool_of "nmap" rested)) in
    let (answer, m') = take_worker (some "t3") "nmap" rested in
    ((answer ≡ outside) × (m' ≡ rested) × (free ≡ []))
    ⊎ ((y : Worker) × IsFirstLeast (λ x. x.tasks_completed) free y
        × (answer ≡ on_worker y.worker_id)
        × (y.status ≡ available)
        × (Dict.get y.worker_id m'.workers
            ≡ some (record y { status = busy; current_task = some "t3" })))
take_worker_lem_example = take_worker_lem (some "t3") "nmap" rested rested-IsKeyed

abbrev first_worker : Worker
first_worker = record {
  worker_id = "w1";
  container_id = "c1";
  tool_name = "nmap";
  status = busy;
  created_at = 0;
  last_health_check = 0;
  tasks_completed = 0;
  total_execution_time = 0;
  current_task = some "t1";
  permanent_failure = false;
}

first_there : contains "w1" (pool_of "nmap" one) ≡ true
unfolding program
first_there = refl

first_fresh : attempts_of "w1" one ≤ 1
unfolding program
first_fresh = omega arith

recovered_twice :
    pool_of "nmap" (recover_worker 9 "w3" true (some "c3") first_worker one) ≡ "w3" ∷ "w3" ∷ []
unfolding program
recovered_twice = refl

abbrev fine : Check
fine = record { healthy = true; new_id = ""; cleaned = true; container = none }

first_found : Dict.get "w1" one.workers ≡ some first_worker
unfolding program
first_found = refl

check_worker-finish_execution_example :
    let m' = finish_execution none "w1" one in
    let x' = record first_worker { status = unhealthy } in
    (Dict.get "w1" m'.workers ≡ some x')
    × IsStuck "w1" first_worker (check_worker 90_000_000 fine x' m')
check_worker-finish_execution_example =
    check_worker-finish_execution 90_000_000 fine first_worker "t1" one first_found refl refl refl
