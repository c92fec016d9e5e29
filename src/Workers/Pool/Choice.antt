-- ===== src/Workers/Pool/Choice.antt =====
-- Which worker an execution gets in src/workers/worker_pool.py.
pub mod Least
use cyber_security_platform.Prelude.{
  ◌<◌, Bool, ◌++◌, ap, ◌==◌, ℕ, ◌≤◌, String, true, Option, none, some, List, [], ◌∷◌, ◌≡◌, ◌≢◌, ◌⊎◌,
  refl, sym, ◌∙◌, subst, if_true, if_false, arith, filter_by, String-IsKey, Option-cases,
  Bool-cases, inl, inr,
}
use cyber_security_platform.Prelude.Dict
use cyber_security_platform.Prelude.Dict.{Dict, get-put, get-put_self}
use cyber_security_platform.Workers.Pool.{
  WorkerStatus, available, busy, unhealthy, is_available, Worker, WorkerPool, pool_of, objects,
  end_creation, change_worker, get_available_worker, on_worker, outside, take_worker,
}
pub use cyber_security_platform.Workers.Pool.Choice.Least.{
  some_inj, All, IsFirstLeast, least-none, least-IsFirstLeast, All-middle,
}

available_of : (s : WorkerStatus) → is_available s ≡ true → s ≡ available
available_of available h = refl
available_of busy h = cc
available_of unhealthy h = cc

pub get-change_worker :
    (f : Worker → Worker) (id : String) (m : WorkerPool) (x : Worker)
    → Dict.get id m.workers ≡ some x
    → Dict.get id (change_worker f id m).workers ≡ some (f x)
unfolding change_worker
get-change_worker f id m x here = rw (here, change_worker) (get-put_self id (f x) m.workers)

-- The objects of the workers stand under their own identifiers.
abbrev pub IsKeyed : WorkerPool → Type 0
IsKeyed m = (id : String) (x : Worker) → Dict.get id m.workers ≡ some x → x.worker_id ≡ id

-- A worker is the object that the pool has of it.
abbrev pub IsStored : WorkerPool → Worker → Type 0
IsStored m x = Dict.get x.worker_id m.workers ≡ some x

objects-IsStored :
    (m : WorkerPool) (ids : List String) → IsKeyed m → All (IsStored m) (objects m ids)
unfolding objects
objects-IsStored m [] keyed = tt
objects-IsStored m (id ∷ ids) keyed = elim (Option-cases (Dict.get id m.workers)) [
  | inl nothing ↦ rw (nothing, objects) (objects-IsStored m ids keyed)
  | inr (x, found) ↦
      rw (found, objects)
        (ap (λ k. Dict.get k m.workers) (keyed id x found) ∙ found, objects-IsStored m ids keyed)
]

All-filter_by :
    (P : Worker → Type 0) (p : Worker → Bool) (xs : List Worker) → All P xs → All P (filter_by p xs)
All-filter_by P p [] all = tt
All-filter_by P p (x ∷ xs) all = elim (Bool-cases (p x)) [
  | inl kept ↦ rw kept (all.0, All-filter_by P p xs all.1)
  | inr dropped ↦ rw dropped (All-filter_by P p xs all.1)
]

All-available :
    (xs : List Worker) → All (λ x. x.status ≡ available) (filter_by (λ x. is_available x.status) xs)
All-available [] = tt
All-available (x ∷ xs) = elim (Bool-cases (is_available x.status)) [
  | inl free ↦
      rw
        (if_true (is_available x.status) (x ∷ filter_by (λ y. is_available y.status) xs)
          (filter_by (λ y. is_available y.status) xs) free)
        (available_of x.status free, All-available xs)
  | inr taken ↦
      rw
        (if_false (is_available x.status) (x ∷ filter_by (λ y. is_available y.status) xs)
          (filter_by (λ y. is_available y.status) xs) taken)
        (All-available xs)
]

put-IsKeyed :
    (k : String) (v : Worker) (d : Dict String Worker)
    → v.worker_id ≡ k
    → ((id : String) (x : Worker) → Dict.get id d ≡ some x → x.worker_id ≡ id)
    → (id : String) (x : Worker) → Dict.get id (Dict.put k v d) ≡ some x
    → x.worker_id ≡ id
put-IsKeyed k v d own keyed id x found = elim (Bool-cases (k == id)) [
  | inl same ↦
      let stored : some v ≡ some x = sym (get-put k id v d ∙ if_true _ _ _ same) ∙ found in
      ap (λ (w : Worker). w.worker_id) (sym (some_inj stored))
      ∙ own
      ∙ (String-IsKey.same_iff k id).0 same
  | inr other ↦ keyed id x (sym (get-put k id v d ∙ if_false _ _ _ other) ∙ found)
]

pub change_worker-IsKeyed :
    (f : Worker → Worker) (id : String) (m : WorkerPool)
    → ((x : Worker) → (f x).worker_id ≡ x.worker_id)
    → IsKeyed m
    → IsKeyed (change_worker f id m)
unfolding change_worker
change_worker-IsKeyed f id m same keyed = elim (Option-cases (Dict.get id m.workers)) [
  | inl nothing ↦ rw (nothing, change_worker) keyed
  | inr (x, here) ↦
      rw (here, change_worker) (put-IsKeyed id (f x) m.workers (same x ∙ keyed id x here) keyed)
]

pub end_creation-IsKeyed :
    (now : ℕ) (id tool : String) (container : Option String) (m : WorkerPool)
    → IsKeyed m
    → IsKeyed (end_creation now id tool container m).1
unfolding end_creation
end_creation-IsKeyed now id tool none m keyed = keyed
end_creation-IsKeyed now id tool (some c) m keyed =
    elim (Bool-cases (Dict.has tool m.worker_pools)) [
      | inl there ↦ rw (there, end_creation) (put-IsKeyed id _ m.workers refl keyed)
      | inr cleared ↦ rw (cleared, end_creation) keyed
    ]

-- Who gets the next execution, where the objects of the workers stand under their identifiers: the
-- first of the available workers of the pool that have the fewest completed tasks, and the object of
-- that worker is then busy with the task; and no worker, with no change, only if none is available.
pub take_worker_lem :
    (task : Option String) (tool : String) (m : WorkerPool)
    → IsKeyed m
    → let free = filter_by (λ x. is_available x.status) (objects m (pool_of tool m)) in
      let (answer, m') = take_worker task tool m in
      ((answer ≡ outside) × (m' ≡ m) × (free ≡ []))
      ⊎ ((y : Worker) × IsFirstLeast (λ x. x.tasks_completed) free y
          × (answer ≡ on_worker y.worker_id)
          × (y.status ≡ available)
          × (Dict.get y.worker_id m'.workers
              ≡ some (record y { status = busy; current_task = task })))
unfolding take_worker get_available_worker
take_worker_lem task tool m keyed =
    let all = objects m (pool_of tool m) in
    let free = filter_by (λ x. is_available x.status) all in
    elim (Option-cases (get_available_worker tool m)) [
      | inl nothing ↦ inl (
        rw (nothing, take_worker) refl,
        rw (nothing, take_worker) refl,
        least-none (λ x. x.tasks_completed) free nothing,
      )
      | inr (y, found) ↦
          let l = least-IsFirstLeast (λ x. x.tasks_completed) free found in
          let there : IsStored m y = All-middle (IsStored m) l.before y l.after (
            subst (All (IsStored m)) l.split (
              All-filter_by (IsStored m) (λ x. is_available x.status) all
                (objects-IsStored m (pool_of tool m) keyed))) in
          let ready : y.status ≡ available =
            All-middle (λ x. x.status ≡ available) l.before y l.after
              (subst (All (λ x. x.status ≡ available)) l.split (All-available all)) in
          inr (
            y,
            l,
            rw (found, take_worker) refl,
            ready,
            rw (found, take_worker) (get-change_worker _ y.worker_id m y there),
          )
    ]
