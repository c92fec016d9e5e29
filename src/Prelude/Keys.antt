-- ===== src/Prelude/Keys.antt =====
-- The keys that the program joins by a colon, f"{left}:{right}".
use Prim.Native.Char.{code}
use Prim.Native.String.{String, ◌++◌ as append}
use mathlib.Core.Path.{◌≡◌, sym}
use mathlib.Core.Option.{Option, none, some}
use text.Mathlib.TextLemmas.{append_cancel_right, nil-append, cons-append}
use cyber_security_platform.Prelude.Tests.{nat_beq, if◌then◌else◌}

unfoldable pub join : String → String → String
join left right = append left (append ":" right)

-- What stands behind the last colon of a text.
unfoldable pub last_part : String → Option String
last_part String.[] = none
last_part (String.◌∷◌ c s) = elim (last_part s) [
  | some r ↦ some r
  | none ↦ if nat_beq (code c) b':' then some s else none
]

last_part-join :
    (left right : String) → last_part right ≡ none → last_part (join left right) ≡ some right
unfolding last_part join
last_part-join String.[] right h = rw (nil-append, cons-append, nil-append) (rw (h, last_part))
last_part-join (String.◌∷◌ c s) right h =
    rw (cons-append c s (append ":" right)) (rw (last_part-join s right h, last_part))

-- Where no right part has a colon, a joined key determines its parts.
pub join_inj :
    (a b x y : String)
    → last_part x ≡ none
    → last_part y ≡ none
    → join a x ≡ join b y
    → (a ≡ b) × (x ≡ y)
join_inj a b x y hx hy e =
    (append_cancel_right a b (append ":" x) (unfold join in (rw (sym same) at e)), same)
  where
    same : x ≡ y
    same = cc (last_part-join a x hx, last_part-join b y hy, e)
