-- ===== src/Prelude/Equality.antt =====
-- Python's `==` on the keys of dicts and the members of sets.
use Prim.Native.Nat.{ℕ}
use Prim.Native.String.{String}
use mathlib.Core.Path.{◌≡◌, refl}
use mathlib.Core.Logic.{◌↔◌, ◌≢◌}
use mathlib.Core.Bool.{Bool, true, false, ◌||◌}
use mathlib.Core.List.{List, [], ◌∷◌}
use native.Mathlib.Omega.{arith}
use text.Mathlib.Text.{◌==◌ as text_beq}
use text.Mathlib.TextEquality.{eq_iff}
use cyber_security_platform.Prelude.Tests.{nat_beq, nat_beq_iff}

-- What a dict asks of its keys: a test that decides equality.
pub record IsKey {ℓ} (K : Type ℓ) : Type ℓ where
  pub same : K → K → Bool
  pub same_iff : (j k : K) → (same j k ≡ true) ↔ (j ≡ k)

instance abbrev pub String-IsKey : IsKey String
String-IsKey = record { same_iff = eq_iff; same = text_beq }

instance abbrev pub ℕ-IsKey : IsKey ℕ
ℕ-IsKey = record { same_iff = nat_beq_iff; same = nat_beq }

module _ {ℓ} {K : Type ℓ} ⦃key : IsKey K⦄ where
  infix 50 ◌==◌
  abbrev pub ◌==◌ : K → K → Bool
  j == k = key.same j k

  pub same_refl : (k : K) → (k == k) ≡ true
  same_refl k = (key.same_iff k k).1 refl

  pub same-ne : {j k : K} → j ≢ k → (j == k) ≡ false
  same-ne {j} {k} h = ground (arith, key.same_iff j k)

  pub same_sym : (j k : K) → (j == k) ≡ (k == j)
  same_sym j k = ground (arith, key.same_iff j k, key.same_iff k j)

  -- `k in ks` for a list or a set.
  unfoldable pub contains : K → List K → Bool
  contains k [] = false
  contains k (j ∷ ks) = k == j || contains k ks

  pub ne-same : {j k : K} → (j == k) ≡ false → j ≢ k
  ne-same {j} {k} h e = ground (arith, key.same_iff j k)
