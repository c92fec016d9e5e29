-- ===== src/Workflow/Engine/Conditions.antt =====
-- The conditions of a step, `_check_conditions` of src/workflow/workflow_engine.py.
use cyber_security_platform.Prelude.{
  String, Bool, true, false, Option, none, some, if◌then◌else◌, ◌==◌, String-IsKey,
}
use cyber_security_platform.Prelude.Values.{
  Value, mapping, Entries, empty, entry, lookup, same_value, ordered, is_gt, is_lt, is_in,
}

-- One operator of a condition; none is TypeError, and an operator that is not known passes.
unfoldable pub operator : String → Value → Value → Option Bool
operator op value expected =
    if op == "eq"
    then some (same_value value expected)
    else if op == "gt"
    then ordered is_gt value expected
    else if op == "lt"
    then ordered is_lt value expected
    else if op == "in"
    then is_in value expected
    else some true

-- `first and then second`, with exceptions.
abbrev pub and_also : Option Bool → Option Bool → Option Bool
and_also none second = none
and_also (some true) second = second
and_also (some false) second = some false

unfoldable pub operators : Entries → Value → Option Bool
unfolding operator
operators empty value = some true
operators (entry op expected rest) value =
    and_also (operator op value expected) (operators rest value)

unfoldable pub check_conditions : Entries → Entries → Option Bool
unfolding operators
check_conditions empty context = some true
check_conditions (entry key condition rest) context =
    let value = lookup key context in
    and_also
      (elim condition [ mapping ops ↦ operators ops value | other ↦ some (same_value value other) ])
      (check_conditions rest context)
