-- ===== src/Prelude/Dict.antt =====
-- Python's `dict`: distinct keys in the order of their first insertion. An assignment to a key that
-- is there keeps its place, as in Python.
use mathlib.Core.Path.{◌≡◌, refl}
use mathlib.Core.Logic.{◌⊎◌, inl, inr}
use mathlib.Core.Bool.{Bool, true, false}
use mathlib.Core.Option.{Option, none, some}
use mathlib.Core.Option
use mathlib.Core.List.{List, [], ◌∷◌, map}
use native.Mathlib.Omega.{arith}
use cyber_security_platform.Prelude.Tests.{if◌then◌else◌, Bool-cases, if_true}
use cyber_security_platform.Prelude.Equality.{IsKey, ◌==◌, same_refl, contains}

abbrev pub Dict {ℓ κ} : Type ℓ → Type κ → Type (ℓ ⊔ κ)
Dict K V = List (K × V)

-- `d.keys()` and `d.values()`
abbrev pub keys {ℓ κ} : {K : Type ℓ} {V : Type κ} → Dict K V → List K
keys = map (λ e. e.0)

abbrev pub values {ℓ κ} : {K : Type ℓ} {V : Type κ} → Dict K V → List V
values = map (λ e. e.1)

-- A loop that changes every value in place.
abbrev pub map_values {ℓ κ} : {K : Type ℓ} {V : Type κ} → (V → V) → Dict K V → Dict K V
map_values f = map (λ e. (e.0, f e.1))

module _ {ℓ κ} {K : Type ℓ} {V : Type κ} ⦃key : IsKey K⦄ where
  -- `d.get(k)`; `d[k]` after the test `k in d`.
  unfoldable pub get : K → Dict K V → Option V
  get k [] = none
  get k ((j, v) ∷ d) = if j == k then some v else get k d

  -- `d[k] = v`
  unfoldable pub put : K → V → Dict K V → Dict K V
  put k v [] = (k, v) ∷ []
  put k v ((j, w) ∷ d) = if j == k then (j, v) ∷ d else (j, w) ∷ put k v d

  -- `d.pop(k, None)`, `del d[k]`
  unfoldable pub remove : K → Dict K V → Dict K V
  remove k [] = []
  remove k ((j, w) ∷ d) = if j == k then remove k d else (j, w) ∷ remove k d

  -- `d.get(k, default)`
  unfoldable pub get_default : K → V → Dict K V → V
  get_default k v d = elim (get k d) [ none ↦ v | some w ↦ w ]

  -- `k in d`
  unfoldable pub has : K → Dict K V → Bool
  has k d = elim (get k d) [ none ↦ false | some _ ↦ true ]

  pub get-put :
      (k j : K) (v : V) (d : Dict K V) → get j (put k v d) ≡ (if k == j then some v else get j d)
  unfolding get put
  get-put k j v [] = refl
  get-put k j v ((i, w) ∷ d) =
      ground (arith, key.same_iff k j, key.same_iff i k, key.same_iff i j, get-put k j v d)

  pub get-put_self : (k : K) (v : V) (d : Dict K V) → get k (put k v d) ≡ some v
  get-put_self k v d = simp (get-put, same_refl)

  pub get-remove :
      (k j : K) (d : Dict K V) → get j (remove k d) ≡ (if k == j then none else get j d)
  unfolding get remove
  get-remove k j [] = ground arith
  get-remove k j ((i, w) ∷ d) =
      ground (arith, key.same_iff k j, key.same_iff i k, key.same_iff i j, get-remove k j d)

  pub get_default-put :
      (k j : K) (w v : V) (d : Dict K V)
      → get_default j w (put k v d) ≡ (if k == j then v else get_default j w d)
  unfolding get_default
  get_default-put k j w v d = ground (arith, get-put k j v d)

  pub get_default-put_self : (k : K) (w v : V) (d : Dict K V) → get_default k w (put k v d) ≡ v
  get_default-put_self k w v d = simp (get_default-put, same_refl)

  -- What is found after an assignment is what was assigned, or was there before.
  pub put-cases :
      (k j : K) (v : V) (d : Dict K V) {w : V}
      → get j (put k v d) ≡ some w
      → (v ≡ w) ⊎ (get j d ≡ some w)
  put-cases k j v d found = ground (arith, get-put k j v d)

  pub has-contains : (k : K) (d : Dict K V) → has k d ≡ true → contains k (keys d) ≡ true
  unfolding has get contains
  has-contains k [] h = cc
  has-contains k ((j, w) ∷ d) h =
      ground (arith, key.same_iff k j, key.same_iff j k, has-contains k d)

  pub has-put : (k : K) (v : V) (d : Dict K V) → has k (put k v d) ≡ true
  unfolding has
  has-put k v d = rw (get-put_self k v d, has) refl

  pub get_default-absent : (k : K) (w : V) (d : Dict K V) → get k d ≡ none → get_default k w d ≡ w
  unfolding get_default
  get_default-absent k w d h = ground arith

  pub get_default-found :
      (k : K) (w : V) (d : Dict K V) {v : V} → get k d ≡ some v → get_default k w d ≡ v
  unfolding get_default
  get_default-found k w d h = ground arith

  pub get-map_values :
      (f : V → V) (k : K) (d : Dict K V) → get k (map_values f d) ≡ Option.map f (get k d)
  unfolding get
  get-map_values f k [] = refl
  get-map_values f k ((j, w) ∷ d) = ground (arith, get-map_values f k d)

  -- What is found after such a loop was there before it.
  pub map_values-cases :
      (f : V → V) (k : K) (d : Dict K V) {w : V}
      → get k (map_values f d) ≡ some w
      → (v : V) × (get k d ≡ some v) × (w ≡ f v)
  unfolding get
  map_values-cases f k [] found = cc
  map_values-cases f k ((j, v) ∷ d) found = elim (Bool-cases (j == k)) [
    | inl same ↦
        (v, rw same refl, cc (found, if_true (j == k) (some (f v)) (get k (map_values f d)) same))
    | inr other ↦ rw other (map_values-cases f k d (rw other at found))
  ]
