-- ===== src/Prelude/Numbers.antt =====
-- Products of native numbers, for the goals that are not linear.
use Prim.Native.Nat.{ℕ, zero, suc, ◌+◌, ◌-◌, ◌*◌, ◌≤◌}
use mathlib.Core.Path.{◌≡◌, sym, ap, ◌∙◌}
use native.Mathlib.Omega.{arith}

pub add-mul : (a b c : ℕ) → (a + b) * c ≡ a * c + b * c
add-mul zero b c = omega arith
add-mul (suc a) b c = omega (arith, add-mul a b c)

-- What is earned in two stretches of time is earned in both together.
pub stretches :
    (start now stop c : ℕ)
    → start ≤ now
    → now ≤ stop
    → (now - start) * c + (stop - now) * c ≡ (stop - start) * c
stretches start now stop c h k =
    sym (add-mul (now - start) (stop - now) c) ∙ ap (λ n. n * c) (omega arith)
