-- ===== src/Workers/Pool/Choice/Least.antt =====
-- The choice of the least loaded worker, `min` in src/workers/worker_pool.py.
use cyber_security_platform.Prelude.{
  ◌<◌, ◌++◌, ap, ℕ, ◌≤◌, none, some, List, [], ◌∷◌, ◌≡◌, ◌≢◌, refl, sym, ◌∙◌, subst, if_true,
  if_false, leb→le, arith, leb, String-IsKey, Option-cases, Bool-cases, inl, inr,
}
use cyber_security_platform.Workers.Pool.{Worker, least}

pub some_inj : {x y : Worker} → some x ≡ some y → x ≡ y
some_inj h = cc

none-ne-some : {x : Worker} → none ≢ some x
none-ne-some h = cc

-- A property of all members.
abbrev pub All : (Worker → Type 0) → List Worker → Type 0
All P [] = Unit
All P (x ∷ xs) = P x × All P xs

-- `y` is the first of the least in `xs`: what is before it is greater, what is after it not less.
pub record IsFirstLeast (key : Worker → ℕ) (xs : List Worker) (y : Worker) : Type 0 where
  pub before : List Worker
  pub after : List Worker
  pub split : xs ≡ before ++ y ∷ after
  pub before_greater : All (λ x. key y < key x) before
  pub after_not_less : All (λ x. key y ≤ key x) after

pub least-none : (key : Worker → ℕ) (xs : List Worker) → least key xs ≡ none → xs ≡ []
unfolding least
least-none key [] h = refl
least-none key (x ∷ xs) h = ground arith

All-lt-le :
    (key : Worker → ℕ) (a b : ℕ) (xs : List Worker)
    → a ≤ b
    → All (λ x. b < key x) xs
    → All (λ x. a ≤ key x) xs
All-lt-le key a b [] h all = tt
All-lt-le key a b (x ∷ xs) h all = (omega (arith, all.0), All-lt-le key a b xs h all.1)

All-le-le :
    (key : Worker → ℕ) (a b : ℕ) (xs : List Worker)
    → a ≤ b
    → All (λ x. b ≤ key x) xs
    → All (λ x. a ≤ key x) xs
All-le-le key a b [] h all = tt
All-le-le key a b (x ∷ xs) h all = (omega (arith, all.0), All-le-le key a b xs h all.1)

All-append : (P : Worker → Type 0) (xs ys : List Worker) → All P xs → All P ys → All P (xs ++ ys)
All-append P [] ys a b = b
All-append P (x ∷ xs) ys a b = (a.0, All-append P xs ys a.1 b)

-- With one more in front.
IsFirstLeast-cons :
    (key : Worker → ℕ) (x z : Worker) (xs : List Worker) {y : Worker}
    → IsFirstLeast key xs z
    → least key xs ≡ some z
    → least key (x ∷ xs) ≡ some y
    → IsFirstLeast key (x ∷ xs) y
unfolding least
IsFirstLeast-cons key x z xs {y} l found h = elim (Bool-cases (leb (key x) (key z))) [
  | inl below ↦
      let same : x ≡ y = some_inj (sym (if_true _ _ _ below) ∙ (rw (found, least) at h)) in
      subst (IsFirstLeast key (x ∷ xs)) same (record {
        before = [];
        after = xs;
        split = refl;
        before_greater = tt;
        after_not_less = rw l.split (
            All-append (λ v. key x ≤ key v) l.before (z ∷ l.after)
              (All-lt-le key (key x) (key z) l.before (leb→le _ _ below) l.before_greater)
              (
                leb→le _ _ below,
                All-le-le key (key x) (key z) l.after (leb→le _ _ below) l.after_not_less,
              ));
      })
  | inr above ↦
      let same : z ≡ y = some_inj (sym (if_false _ _ _ above) ∙ (rw (found, least) at h)) in
      subst (IsFirstLeast key (x ∷ xs)) same (record {
        before = x ∷ l.before;
        after = l.after;
        split = ap (λ t. x ∷ t) l.split;
        before_greater = (ground arith, l.before_greater);
        after_not_less = l.after_not_less;
      })
]

pub least-IsFirstLeast :
    (key : Worker → ℕ) (xs : List Worker) {y : Worker}
    → least key xs ≡ some y
    → IsFirstLeast key xs y
unfolding least
least-IsFirstLeast key [] h = absurd (none-ne-some h)
least-IsFirstLeast key (x ∷ xs) {y} h = elim (Option-cases (least key xs)) [
  | inr (z, found) ↦ IsFirstLeast-cons key x z xs (least-IsFirstLeast key xs found) found h
  | inl nothing ↦
      let same : x ≡ y = some_inj (rw (nothing, least) at h) in
      subst (IsFirstLeast key (x ∷ xs)) same (record {
        before = [];
        after = [];
        split = ap (λ t. x ∷ t) (least-none key xs nothing);
        before_greater = tt;
        after_not_less = tt;
      })
]

pub All-middle :
    (P : Worker → Type 0) (xs : List Worker) (y : Worker) (ys : List Worker)
    → All P (xs ++ y ∷ ys)
    → P y
All-middle P [] y ys all = all.0
All-middle P (x ∷ xs) y ys all = All-middle P xs y ys all.1
