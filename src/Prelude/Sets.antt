-- ===== src/Prelude/Sets.antt =====
-- Python's `set` as a list without an order that matters.
use mathlib.Core.Path.{◌≡◌, refl}
use mathlib.Core.Bool.{not, ◌&&◌, ◌||◌}
use mathlib.Core.List.{List, [], ◌∷◌, ◌++◌}
use native.Mathlib.Omega.{arith}
use cyber_security_platform.Prelude.Tests.{if◌then◌else◌}
use cyber_security_platform.Prelude.Equality.{IsKey, ◌==◌, contains}
use cyber_security_platform.Prelude.Lists.{filter_by}

module _ {ℓ} {K : Type ℓ} ⦃key : IsKey K⦄ where
  -- `s.add(k)` and `s.discard(k)`
  unfoldable pub add : K → List K → List K
  add k ks = if contains k ks then ks else ks ++ k ∷ []

  unfoldable pub discard : K → List K → List K
  discard k = filter_by (λ j. not (j == k))

  pub contains-append :
      (k : K) (xs ys : List K) → contains k (xs ++ ys) ≡ (contains k xs || contains k ys)
  unfolding contains
  contains-append k [] ys = refl
  contains-append k (x ∷ xs) ys = ground (arith, contains-append k xs ys)

  contains-one : (k j : K) → contains k (j ∷ []) ≡ (j == k)
  unfolding contains
  contains-one k j = ground (arith, key.same_iff j k, key.same_iff k j)

  pub contains-add : (k j : K) (ks : List K) → contains k (add j ks) ≡ (contains k ks || j == k)
  unfolding add
  contains-add k j ks =
      ground (arith, contains-append k ks (j ∷ []), contains-one k j, key.same_iff j k)

  pub contains-discard :
      (k j : K) (ks : List K) → contains k (discard j ks) ≡ (contains k ks && not (j == k))
  unfolding discard contains
  contains-discard k j [] = refl
  contains-discard k j (x ∷ xs) =
      ground (arith, contains-discard k j xs, key.same_iff x j, key.same_iff j k, key.same_iff k x)
