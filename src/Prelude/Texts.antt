-- ===== src/Prelude/Texts.antt =====
-- Operations on texts that the program uses: membership of a substring, `split` and `int`.
use Prim.Native.Nat.{ℕ, ◌+◌, ◌-◌, ◌*◌}
use Prim.Native.Char.{code}
use Prim.Native.String.{String, ◌++◌ as append}
use mathlib.Core.Path.{◌≡◌, refl}
use mathlib.Core.Bool.{Bool, true}
use mathlib.Core.Option.{Option, none, some}
use mathlib.Core.List.{List, [], ◌∷◌}
use native.Mathlib.Omega.{arith}
use text.Mathlib.Text.{starts_with}
use text.Mathlib.TextLemmas.{nil-append, cons-append, prefix-append}
use text.Mathlib.TextPositions.{starts_with_of_prefix}
use cyber_security_platform.Prelude.Tests.{nat_beq, leb, if◌then◌else◌}

-- `part in text`
unfoldable pub occurs : String → String → Bool
occurs part String.[] = starts_with String.[] part
occurs part (String.◌∷◌ c s) = if starts_with (String.◌∷◌ c s) part then true else occurs part s

-- `text.split(separator)`, for a separator of one character, given by its code.
unfoldable pub split : ℕ → String → List String
split separator String.[] = "" ∷ []
split separator (String.◌∷◌ c s) = elim (split separator s) [
  | [] ↦ []
  | word ∷ words ↦
      if nat_beq (code c) separator then "" ∷ word ∷ words else String.◌∷◌ c word ∷ words
]

-- The number that digits continue.
unfoldable pub digits : ℕ → String → Option ℕ
digits n String.[] = some n
digits n (String.◌∷◌ c s) =
    let rest = digits (n * 10 + (code c - b'0')) s in
    if leb b'0' (code c) then (if leb (code c) b'9' then rest else none) else none

-- `int(text)` of a text of the digits 0 to 9; none is ValueError. The other texts that Python
-- reads, with signs, spaces or underscores, are not modelled.
unfoldable pub int : String → Option ℕ
int String.[] = none
int (String.◌∷◌ c s) = digits 0 (String.◌∷◌ c s)

occurs-start : (part s : String) → starts_with s part ≡ true → occurs part s ≡ true
unfolding occurs
occurs-start part String.[] h = h
occurs-start part (String.◌∷◌ c s) h = rw (h, occurs) refl

occurs-cons :
    (part : String) (c : Prim.Native.Char.Char) (s : String)
    → occurs part s ≡ true
    → occurs part (String.◌∷◌ c s) ≡ true
unfolding occurs
occurs-cons part c s h = ground arith

pub occurs-append :
    (left part right : String) → occurs part (append left (append part right)) ≡ true
occurs-append String.[] part right =
    rw (nil-append) (occurs-start part _ (starts_with_of_prefix part _ (prefix-append part right)))
occurs-append (String.◌∷◌ c s) part right =
    rw (cons-append c s (append part right)) (occurs-cons part c _ (occurs-append s part right))
