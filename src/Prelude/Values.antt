-- ===== src/Prelude/Values.antt =====
-- The values of attributes, operands and contexts of the program: None, Booleans, natural numbers, texts, lists and
-- dicts with texts as keys, and Python's operators on them. An exception is none.
use Prim.Native.Nat.{compare as compare_ℕ, Ordering}
use Prim.Native.String.{compare as compare_text}
use Prim.Native.Nat.{ℕ, ◌+◌}
use Prim.Native.String.{String}
use mathlib.Core.Bool.{Bool, true, false, not, ◌&&◌}
use mathlib.Core.Option.{Option, none, some}
use cyber_security_platform.Prelude.Tests.{nat_beq, if◌then◌else◌}
use cyber_security_platform.Prelude.Equality.{◌==◌, String-IsKey}
use cyber_security_platform.Prelude.Texts.{occurs}

mutual
  pub data Value : Type 0 where
    null : Value
    boolean : Bool → Value
    number : ℕ → Value
    text : String → Value
    items : Items → Value
    mapping : Entries → Value

  pub data Items : Type 0 where
    nil : Items
    cons : Value → Items → Items

  pub data Entries : Type 0 where
    empty : Entries
    entry : String → Value → Entries → Entries

-- `d.get(key)`
unfoldable pub lookup : String → Entries → Value
lookup key empty = null
lookup key (entry k v rest) = if k == key then v else lookup key rest

unfoldable pub has_key : String → Entries → Bool
has_key key empty = false
has_key key (entry k v rest) = if k == key then true else has_key key rest

unfoldable pub size : Entries → ℕ
size empty = 0
size (entry k v rest) = size rest + 1

unfoldable mutual
  pub same_value : Value → Value → Bool
  same_value null w = elim w [ null ↦ true | _ ↦ false ]
  same_value (boolean b) w = elim w [
    | boolean c ↦ nat_beq (if b then 1 else 0) (if c then 1 else 0)
    | number n ↦ nat_beq (if b then 1 else 0) n
    | _ ↦ false
  ]
  same_value (number n) w = elim w [
    | boolean c ↦ nat_beq n (if c then 1 else 0)
    | number k ↦ nat_beq n k
    | _ ↦ false
  ]
  same_value (text s) w = elim w [ text t ↦ s == t | _ ↦ false ]
  same_value (items vs) w = elim w [ items ws ↦ same_values vs ws | _ ↦ false ]
  same_value (mapping vs) w = elim w [
    | mapping ws ↦ nat_beq (size vs) (size ws) && within vs ws
    | _ ↦ false
  ]

  pub same_values : Items → Items → Bool
  same_values nil ws = elim ws [ nil ↦ true | cons _ _ ↦ false ]
  same_values (cons v vs) ws = elim ws [
    | nil ↦ false
    | cons w ws' ↦ same_value v w && same_values vs ws'
  ]

  pub within : Entries → Entries → Bool
  within empty ws = true
  within (entry k v rest) ws = has_key k ws && same_value v (lookup k ws) && within rest ws

-- The order of numbers, Booleans among them, and of texts by their characters; lists by their first
-- difference. Other values have none: TypeError.
abbrev pub scalar_order : Value → Value → Option Ordering
scalar_order (boolean b) (boolean c) = some (compare_ℕ (if b then 1 else 0) (if c then 1 else 0))
scalar_order (boolean b) (number k) = some (compare_ℕ (if b then 1 else 0) k)
scalar_order (number n) (boolean c) = some (compare_ℕ n (if c then 1 else 0))
scalar_order (number n) (number k) = some (compare_ℕ n k)
scalar_order (text s) (text t) = some (compare_text s t)
scalar_order _ _ = none

unfoldable mutual
  unfolding same_value

  pub order : Value → Value → Option Ordering
  order null w = none
  order (boolean b) w = scalar_order (boolean b) w
  order (number n) w = scalar_order (number n) w
  order (text s) w = scalar_order (text s) w
  order (items vs) w = elim w [ items ws ↦ order_items vs ws | _ ↦ none ]
  order (mapping vs) w = none

  pub order_items : Items → Items → Option Ordering
  order_items nil ws = elim ws [ nil ↦ some Ordering.eq | cons _ _ ↦ some Ordering.lt ]
  order_items (cons v vs) ws = elim ws [
    | nil ↦ some Ordering.gt
    | cons w ws' ↦ if same_value v w then order_items vs ws' else order v w
  ]

abbrev pub is_gt : Ordering → Bool
is_gt o = elim o [ Ordering.gt ↦ true | _ ↦ false ]

abbrev pub is_lt : Ordering → Bool
is_lt o = elim o [ Ordering.lt ↦ true | _ ↦ false ]

unfoldable pub ordered : (Ordering → Bool) → Value → Value → Option Bool
unfolding order
ordered test v w = elim (order v w) [ none ↦ none | some o ↦ some (test o) ]

unfoldable pub member_of : Value → Items → Bool
unfolding same_value
member_of v nil = false
member_of v (cons w ws) = if same_value v w then true else member_of v ws

-- `v in w`; a list or a dict is no key of a dict, and only a text is in a text: TypeError.
unfoldable pub is_in : Value → Value → Option Bool
unfolding member_of has_key
is_in v null = none
is_in v (boolean _) = none
is_in v (number _) = none
is_in v (text t) = elim v [ text s ↦ some (occurs s t) | _ ↦ none ]
is_in v (items ws) = some (member_of v ws)
is_in v (mapping ws) = elim v [
  | text s ↦ some (has_key s ws)
  | items _ ↦ none
  | mapping _ ↦ none
  | _ ↦ some false
]

-- `not` of a result, exceptions passed on.
abbrev pub negated : Option Bool → Option Bool
negated none = none
negated (some b) = some (not b)
