-- ===== src/Security/Abac.antt =====
-- src/security/abac.py. `re.match(p, str(v))` is the argument `matches`; a result of none is an
-- exception (TypeError, AttributeError or re.error), which ends the call.

pub mod Deciding
pub mod Isolation
mod Samples
use Prim.Native.Char.{code}
use Prim.Native.String.{String}
use cyber_security_platform.Prelude.{
  Bool, true, false, not, Option, none, some, List, [], ◌∷◌, ◌++◌, ◌&&◌, ◌||◌, nat_beq,
  if◌then◌else◌, filter_by, ◌==◌, String-IsKey,
}
use cyber_security_platform.Prelude.Texts.{split}
use cyber_security_platform.Prelude.Values.{
  Value, null, text, items, mapping, Items, nil, cons, Entries, empty, entry, boolean, number,
  lookup, same_value, ordered, is_gt, is_lt, is_in, negated,
}

pub record Policy : Type 0 where
  pub name : Option String
  pub action : String
  pub resource : String
  pub conditions : Entries
  pub effect : String

abbrev pub AbacManager : Type 0
AbacManager = List Policy

-- `for op, operand in condition.items()`: the first operator that is known decides.
module _ (matches : Value → Value → Option Bool) where
  unfoldable mutual
    unfolding same_value ordered is_in

    pub evaluate_condition : Value → Value → Option Bool
    evaluate_condition null v = none
    evaluate_condition (boolean _) v = none
    evaluate_condition (number _) v = none
    evaluate_condition (text _) v = none
    evaluate_condition (items _) v = none
    evaluate_condition (mapping condition) v = evaluate_entries condition v

    pub evaluate_entries : Entries → Value → Option Bool
    evaluate_entries empty v = some false
    evaluate_entries (entry op operand rest) v =
        let later = evaluate_entries rest v in
        let conjunction = evaluate_and operand v in
        let disjunction = evaluate_or operand v in
        if op == "eq"
        then some (same_value v operand)
        else if op == "neq"
        then some (not (same_value v operand))
        else if op == "gt"
        then ordered is_gt v operand
        else if op == "gte"
        then negated (ordered is_lt v operand)
        else if op == "lt"
        then ordered is_lt v operand
        else if op == "lte"
        then negated (ordered is_gt v operand)
        else if op == "in"
        then is_in v operand
        else if op == "not_in"
        then negated (is_in v operand)
        else if op == "contains"
        then is_in operand v
        else if op == "matches"
        then matches operand v
        else if op == "and"
        then conjunction
        else if op == "or"
        then disjunction
        else later

    -- `all(…)` over an operand: a text or a dict that is not empty has members without `items`.
    pub evaluate_and : Value → Value → Option Bool
    evaluate_and null v = none
    evaluate_and (boolean _) v = none
    evaluate_and (number _) v = none
    evaluate_and (text s) v = if s == "" then some true else none
    evaluate_and (items conditions) v = all_hold conditions v
    evaluate_and (mapping d) v = elim d [ empty ↦ some true | entry _ _ _ ↦ none ]

    pub evaluate_or : Value → Value → Option Bool
    evaluate_or null v = none
    evaluate_or (boolean _) v = none
    evaluate_or (number _) v = none
    evaluate_or (text s) v = if s == "" then some false else none
    evaluate_or (items conditions) v = any_holds conditions v
    evaluate_or (mapping d) v = elim d [ empty ↦ some false | entry _ _ _ ↦ none ]

    pub all_hold : Items → Value → Option Bool
    all_hold nil v = some true
    all_hold (cons c cs) v =
        let rest = all_hold cs v in
        elim (evaluate_condition c v) [ none ↦ none | some true ↦ rest | some false ↦ some false ]

    pub any_holds : Items → Value → Option Bool
    any_holds nil v = some false
    any_holds (cons c cs) v =
        let rest = any_holds cs v in
        elim (evaluate_condition c v) [ none ↦ none | some true ↦ some true | some false ↦ rest ]

-- `path.startswith(prefix)`, with what stands behind the prefix.
unfoldable pub behind : String → String → Option String
behind String.[] path = some path
behind (String.◌∷◌ c prefix) String.[] = none
behind (String.◌∷◌ c prefix) (String.◌∷◌ d path) =
    let rest = behind prefix path in if nat_beq (code c) (code d) then rest else none

unfoldable pub get_nested_value : Value → List String → Value
unfolding lookup
get_nested_value current [] = current
get_nested_value current (key ∷ path) =
    get_nested_value (elim current [ mapping es ↦ lookup key es | _ ↦ null ]) path

-- The attributes of a request.
pub record Attributes : Type 0 where
  pub resource : Entries
  pub user : Entries
  pub environment : Entries

unfoldable pub get_attribute_value : String → Attributes → Value
unfolding behind get_nested_value
get_attribute_value path attrs = elim (behind "resource." path) [
  | some rest ↦ get_nested_value (mapping attrs.resource) (split b'.' rest)
  | none ↦ elim (behind "user." path) [
    | some rest ↦ get_nested_value (mapping attrs.user) (split b'.' rest)
    | none ↦ elim (behind "environment." path) [
      | some rest ↦ get_nested_value (mapping attrs.environment) (split b'.' rest)
      | none ↦ null
    ]
  ]
]

-- The tests of the action and of the type of the resource.
unfoldable pub concerns : String → Attributes → Policy → Bool
unfolding same_value lookup
concerns action attrs policy =
    (policy.action == "*" || policy.action == action)
    && (policy.resource == "*" || same_value (text policy.resource) (lookup "type" attrs.resource))

module _ (matches : Value → Value → Option Bool) where
  unfoldable pub evaluate_policy : Entries → Attributes → Option Bool
  unfolding evaluate_condition get_attribute_value
  evaluate_policy empty attrs = some true
  evaluate_policy (entry path condition rest) attrs =
      let later = evaluate_policy rest attrs in
      elim (evaluate_condition matches condition (get_attribute_value path attrs)) [
        | none ↦ none
        | some true ↦ later
        | some false ↦ some false
      ]

  unfoldable pub authorize : String → Attributes → AbacManager → Option Bool
  unfolding concerns evaluate_policy
  authorize action attrs [] = some false
  authorize action attrs (policy ∷ policies) =
      let later = authorize action attrs policies in
      if concerns action attrs policy
      then elim (evaluate_policy policy.conditions attrs) [
        | none ↦ none
        | some true ↦ some (policy.effect == "allow")
        | some false ↦ later
      ]
      else later

pub add_policy : Policy → AbacManager → AbacManager
add_policy policy policies = policies ++ policy ∷ []

-- `p.get("name") != policy_name`
pub remove_policy : String → AbacManager → AbacManager
remove_policy name = filter_by (λ p. elim p.name [ none ↦ true | some n ↦ not (n == name) ])

-- One condition: an operator and its operand.
abbrev pub test : String → Value → Value
test op operand = mapping (entry op operand empty)

abbrev pub default_policies : AbacManager
default_policies =
    record {
      name = some "tenant-isolation";
      action = "*";
      resource = "*";
      conditions = entry "user.tenant_id" (test "eq" (text "resource.tenant_id")) empty;
      effect = "allow";
    }
    ∷ record {
      name = some "sensitive-data-access";
      action = "read";
      resource = "finding";
      conditions =
          entry "user.clearance_level" (test "gte" (text "resource.sensitivity_level"))
            (entry "user.tenant_id" (test "eq" (text "resource.tenant_id")) empty);
      effect = "allow";
    }
    ∷ record {
      name = some "destructive-operations";
      action = "execute";
      resource = "exploit";
      conditions =
          entry "user.role"
            (test "in" (items (cons (text "security_engineer") (cons (text "admin") nil))))
            (entry "environment.time" (test "lt" (text "18:00")) (
              entry "environment.day"
                (test "not_in" (items (cons (text "Saturday") (cons (text "Sunday") nil)))) empty));
      effect = "allow";
    }
    ∷ []
