-- ===== src/Workers/Pool/Size.antt =====
-- How large the pools of src/workers/worker_pool.py get, while executions, initialisations and scaling
-- overlap: several workers can be in the making at once.
pub mod Bounds
pub mod Completion
use cyber_security_platform.Prelude.{
  ℕ, ◌+◌, ◌≤◌, String, Bool, true, Option, some, List, [], ◌∷◌, ◌++◌, ◌≡◌, refl, ◌∙◌, arith,
  contains, ◌==◌, String-IsKey, Bool-cases, inl, inr, same_sym, if_false, ap, ltb,
}
use cyber_security_platform.Prelude.Dict
use cyber_security_platform.Prelude.Dict.{get_default-put_self, has-put}
use cyber_security_platform.Workers.Pool.{
  Worker, WorkerPool, pool_of, begin_creation, end_creation, create_worker, change_worker, upkeep,
  Creation, Progress, waits, begun, nothing, initialize_pool, begin_execution, complete_creation,
  finish_execution,
}
use cyber_security_platform.Workers.Pool.Upkeep.{
  replace_first, scale_pool, recover_worker, replaced, attempts_of, cleanup_all,
}
use cyber_security_platform.Workers.Pool.Size.Bounds.{
  size, is_for, Grows, change_worker-Grows, initialize_pool-Grows, begin_execution-Grows,
  finish_execution-Grows, scale_pool-Grows, cleanup_all-Grows,
}
use cyber_security_platform.Workers.Pool.Size.Completion.{complete_creation-Grows}

-- The pools, and the workers that are being made.
pub record System : Type 0 where
  pub pool : WorkerPool
  pub creating : List Creation

-- How many workers are being made for a tool.
abbrev pub in_the_making : String → List Creation → ℕ
in_the_making tool [] = 0
in_the_making tool (c ∷ cs) = is_for tool c + in_the_making tool cs

-- What an operation leaves of the system.
unfoldable pub advance : Progress × WorkerPool → List Creation → System
advance (waits c, m) cs = record { pool = m; creating = c ∷ cs }
advance (begun b, m) cs = record { pool = m; creating = cs }
advance (nothing, m) cs = record { pool = m; creating = cs }

-- What happens to the pools but for the recovery of a worker. A worker that is being made is completed
-- at any later time; `marks` is any change of the object of a worker but for its identifier, such as
-- that of a health check.
pub data Step (s : System) : System → Type 0 where
  begins :
      (task : Option String) (tool : String)
      → Step s (advance (begin_execution task tool s.pool) s.creating)
  initializes : (tool : String) → Step s (advance (initialize_pool upkeep tool s.pool) s.creating)
  completes :
      (before after : List Creation) (c : Creation) (now : ℕ) (id : String)
      (container : Option String)
      → s.creating ≡ before ++ c ∷ after
      → Step s (advance (complete_creation now id container c s.pool) (before ++ after))
  finishes :
      (duration : Option ℕ) (id : String)
      → Step s (record s { pool = finish_execution duration id s.pool })
  marks :
      (f : Worker → Worker) (id : String)
      → ((x : Worker) → (f x).worker_id ≡ x.worker_id)
      → Step s (record s { pool = change_worker f id s.pool })
  scales :
      (stopped : Bool) (tool : String)
      → Step s (advance (scale_pool stopped tool s.pool) s.creating)
  cleans : Step s (record s { pool = cleanup_all s.pool })

-- At most `n` workers are being made for each tool.
abbrev pub Overlaps : ℕ → System → Type 0
Overlaps n s = (tool : String) → in_the_making tool s.creating ≤ n

-- Sequences of steps in which never more than `n` workers are being made for a tool.
pub data Reach (n : ℕ) (s : System) : System → Type 0 where
  here : Reach n s s
  next : {s1 s2 : System} → Reach n s s1 → Step s1 s2 → Overlaps n s2 → Reach n s s2

-- No pool, with the workers that are being made, is larger than `most + n - 1`.
abbrev pub IsBounded : (most n : ℕ) → System → Type 0
IsBounded most n s =
    (s.pool.max_workers_per_tool ≡ most)
    × ((tool : String) → size tool s.pool + in_the_making tool s.creating + 1 ≤ most + n)

in_the_making-append :
    (tool : String) (before after : List Creation) (c : Creation)
    → in_the_making tool (before ++ c ∷ after)
      ≡ is_for tool c + in_the_making tool (before ++ after)
in_the_making-append tool [] after c = refl
in_the_making-append tool (b ∷ before) after c =
    omega (arith, in_the_making-append tool before after c)

-- An operation at a pool that has room for it.
advance-IsBounded :
    (most n : ℕ) (m : WorkerPool) (p : Progress) (m' : WorkerPool) (cs : List Creation)
    → m.max_workers_per_tool ≡ most
    → ((tool : String) → size tool m + in_the_making tool cs + 1 ≤ most + n)
    → Grows m p m'
    → Overlaps n (advance (p, m') cs)
    → IsBounded most n (advance (p, m') cs)
unfolding advance
advance-IsBounded most n m (waits c) m' cs limit room g few =
    (g.limit ∙ limit, λ tool. ground (arith, g.sizes tool, room tool, few tool, limit))
advance-IsBounded most n m (begun b) m' cs limit room g few =
    (g.limit ∙ limit, λ tool. ground (arith, g.sizes tool, room tool, limit))
advance-IsBounded most n m nothing m' cs limit room g few =
    (g.limit ∙ limit, λ tool. ground (arith, g.sizes tool, room tool, limit))

Step-IsBounded :
    {most n : ℕ} {s s' : System}
    → 1 ≤ most
    → IsBounded most n s
    → Step s s'
    → Overlaps n s'
    → IsBounded most n s'
Step-IsBounded {most} {n} {s} one b (begins task tool) few =
    advance-IsBounded most n s.pool _ _ s.creating b.0 b.1
      (begin_execution-Grows task tool s.pool (rw b.0 one)) few
Step-IsBounded {most} {n} {s} one b (initializes tool) few =
    advance-IsBounded most n s.pool _ _ s.creating b.0 b.1
      (initialize_pool-Grows upkeep tool s.pool (rw b.0 one)) few
Step-IsBounded {most} {n} {s} one b (completes before after c now id container which) few =
    let (limit, sizes, g) = complete_creation-Grows now id container c s.pool in
    advance-IsBounded most n (end_creation now id c.tool container s.pool).1 _ _ (before ++ after)
      (limit ∙ b.0)
      (λ tool. omega (
        arith,
        b.1 tool,
        sizes tool,
        ap (in_the_making tool) which,
        in_the_making-append tool before after c,
      ))
      g few
Step-IsBounded {most} {n} {s} one b (finishes duration id) few =
    unfold advance in
    advance-IsBounded most n s.pool nothing _ s.creating b.0 b.1
      (finish_execution-Grows duration id s.pool) few
Step-IsBounded {most} {n} {s} one b (marks f id same) few =
    unfold advance in
    advance-IsBounded most n s.pool nothing _ s.creating b.0 b.1
      (change_worker-Grows nothing f id s.pool (λ t. refl)) few
Step-IsBounded {most} {n} {s} one b (scales stopped tool) few =
    advance-IsBounded most n s.pool _ _ s.creating b.0 b.1 (scale_pool-Grows stopped tool s.pool)
      few
Step-IsBounded {most} {n} {s} one b cleans few =
    unfold advance in
    advance-IsBounded most n s.pool nothing _ s.creating b.0 b.1 (cleanup_all-Grows s.pool) few

-- Executions, initialisations, scaling, clean-ups and changes of workers, which overlap while workers
-- are being made, but no more than `n` of them for one tool at a time: if at first no pool, with the
-- workers in the making, is larger than `most + n - 1`, where `most` is `max_workers_per_tool` and at
-- least 1, no pool ever is. So a limit is kept where no two creations for a tool overlap, and each
-- creation more that overlaps can exceed it by one.
pub Reach-IsBounded :
    {most n : ℕ} {s s' : System}
    → 1 ≤ most
    → IsBounded most n s
    → Reach n s s'
    → IsBounded most n s'
Reach-IsBounded one b here = b
Reach-IsBounded one b (next r step few) = Step-IsBounded one (Reach-IsBounded one b r) step few

replace_first-append :
    (old new : String) (ids : List String)
    → contains old ids ≡ true
    → replace_first old new (ids ++ new ∷ []) ≡ replace_first old new ids ++ new ∷ []
unfolding replace_first contains
replace_first-append old new [] h = cc
replace_first-append old new (id ∷ ids) h = elim (Bool-cases (id == old)) [
  | inl same ↦ rw (same, replace_first) refl
  | inr other ↦
      rw (other, replace_first)
        (ap (λ l. id ∷ l) (replace_first-append old new ids (ground (arith, same_sym id old))))
]

create_worker_lem :
    (now : ℕ) (id tool container : String) (m : WorkerPool)
    → ((create_worker now id tool (some container) m).0 ≡ some id)
      × (pool_of tool (create_worker now id tool (some container) m).1 ≡ pool_of tool m ++ id ∷ [])
unfolding create_worker begin_creation end_creation
create_worker_lem now id tool container m =
    let there : Dict.has tool (Dict.put tool (pool_of tool m) m.worker_pools) ≡ true =
      has-put tool (pool_of tool m) m.worker_pools in
    rw (there, end_creation)
      (
        refl,
        get_default-put_self tool [] _ _
            ∙ ap (λ (ids : List String). ids ++ id ∷ [])
                (get_default-put_self tool [] (pool_of tool m) m.worker_pools),
      )

replaced_lem :
    (old : Worker) (made : Option String) (id : String) (m : WorkerPool)
    → made ≡ some id
    → pool_of old.tool_name (replaced old made m)
      ≡ replace_first old.worker_id id (pool_of old.tool_name m)
unfolding replaced
replaced_lem old made id m h =
    rw (h, replaced) (get_default-put_self old.tool_name [] _ m.worker_pools)

-- The recovery of a worker that is in the pool of its tool, when all calls of Docker succeed, puts
-- the new worker in the place of the old one and once more at the end of the pool, which gets longer
-- by one, whatever the limit is.
pub recover_worker_lem :
    (now : ℕ) (new_id container : String) (old : Worker) (m : WorkerPool)
    → contains old.worker_id (pool_of old.tool_name m) ≡ true
    → attempts_of old.worker_id m ≤ 1
    → pool_of old.tool_name (recover_worker now new_id true (some container) old m)
      ≡ replace_first old.worker_id new_id (pool_of old.tool_name m) ++ new_id ∷ []
unfolding recover_worker
recover_worker_lem now new_id container old m there few =
    let attempted = record m {
      recovery_attempts =
          Dict.put old.worker_id (attempts_of old.worker_id m + 1) m.recovery_attempts;
    } in
    let (made, pool) = create_worker_lem now new_id old.tool_name container attempted in
    rw (if_false (ltb 1 (attempts_of old.worker_id m)) _ _ (ground arith)) (
      replaced_lem old (create_worker now new_id old.tool_name (some container) attempted).0 new_id
        (create_worker now new_id old.tool_name (some container) attempted).1 made
      ∙ ap (replace_first old.worker_id new_id) pool
      ∙ replace_first-append old.worker_id new_id (pool_of old.tool_name m) there)
