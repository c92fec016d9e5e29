-- ===== src/Recovery/Fallback/Order.antt =====
-- Handlers stand in the order of their priorities.
use mathlib.Core.List.Perm
use mathlib.Core.List.{Perm}
use cyber_security_platform.Prelude.{
  ℕ, ◌≤◌, String, none, some, List, [], ◌∷◌, ◌++◌, ◌≡◌, ◌≢◌, arith, leb, String-IsKey, same-ne,
  Bool-cases, inl, inr,
}
use cyber_security_platform.Prelude.Dict
use cyber_security_platform.Prelude.Dict.{get-put_self, get-put}
use cyber_security_platform.Recovery.Fallback.{
  Fallback, FallbackManager, Conditions, insert_by_priority, sort_by_priority, register_fallback,
}

-- Each handler's priority number is at most those of the handlers after it.
abbrev pub IsBelow : ℕ → List Fallback → Type 0
IsBelow p [] = Unit
IsBelow p (f ∷ fs) = (p ≤ f.priority) × IsBelow p fs

abbrev pub IsSorted : List Fallback → Type 0
IsSorted [] = Unit
IsSorted (f ∷ fs) = IsBelow f.priority fs × IsSorted fs

IsBelow-trans : (p q : ℕ) (fs : List Fallback) → p ≤ q → IsBelow q fs → IsBelow p fs
IsBelow-trans p q [] h below = tt
IsBelow-trans p q (f ∷ fs) h below = (omega arith, IsBelow-trans p q fs h below.1)

insert-IsBelow :
    (p : ℕ) (f : Fallback) (fs : List Fallback)
    → p ≤ f.priority
    → IsBelow p fs
    → IsBelow p (insert_by_priority f fs)
unfolding insert_by_priority
insert-IsBelow p f [] h below = (h, tt)
insert-IsBelow p f (g ∷ gs) h below = ground (arith, insert-IsBelow p f gs h below.1)

insert-IsSorted :
    (f : Fallback) (fs : List Fallback) → IsSorted fs → IsSorted (insert_by_priority f fs)
unfolding insert_by_priority
insert-IsSorted f [] s = (tt, tt)
insert-IsSorted f (g ∷ gs) s = ground (
  arith,
  insert-IsSorted f gs s.1,
  insert-IsBelow g.priority f gs,
  IsBelow-trans f.priority g.priority gs,
)

sort-IsSorted : (fs : List Fallback) → IsSorted (sort_by_priority fs)
unfolding sort_by_priority
sort-IsSorted [] = tt
sort-IsSorted (f ∷ fs) = insert-IsSorted f (sort_by_priority fs) (sort-IsSorted fs)

insert-perm : (f : Fallback) (fs : List Fallback) → Perm (insert_by_priority f fs) (f ∷ fs)
unfolding insert_by_priority
insert-perm f [] = Perm.rfl
insert-perm f (g ∷ gs) = elim (Bool-cases (leb f.priority g.priority)) [
  | inl e ↦ rw e Perm.rfl
  | inr e ↦ rw e (Perm.trans (Perm.cons g (insert-perm f gs)) (Perm.swap f g gs))
]

sort-perm : (fs : List Fallback) → Perm (sort_by_priority fs) fs
unfolding sort_by_priority
sort-perm [] = Perm.rfl
sort-perm (f ∷ fs) = Perm.trans (insert-perm f (sort_by_priority fs)) (Perm.cons f (sort-perm fs))

-- A registration leaves the handlers of its name in the order of their priorities, and they are
-- those that were there and the new one; the handlers of other names stay as they were.
pub register_fallback_lem :
    (now : ℕ) (name func : String) (priority : ℕ) (conditions : Conditions) (m : FallbackManager)
    → let m' = register_fallback now name func priority conditions m in
      (fs : List Fallback) × (Dict.get name m'.fallbacks ≡ some fs)
      × IsSorted fs
      × Perm fs (
          Dict.get_default name [] m.fallbacks
          ++ record {
            func = func;
            priority = priority;
            conditions = conditions;
            registered_at = now;
            success_count = 0;
            failure_count = 0;
            last_success = none;
          }
            ∷ [])
      × ((other : String) → name ≢ other → Dict.get other m'.fallbacks ≡ Dict.get other m.fallbacks)
unfolding register_fallback
register_fallback_lem now name func priority conditions m = (
  _,
  get-put_self name _ m.fallbacks,
  sort-IsSorted _,
  sort-perm _,
  λ other h. simp (get-put, same-ne h),
)
