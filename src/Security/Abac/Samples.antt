-- ===== src/Security/Abac/Samples.antt =====
-- The access control by attributes on small inputs. No condition uses a pattern.
use cyber_security_platform.Prelude.{
  Bool, true, false, Option, none, some, ◌≡◌, ◌≢◌, refl, String, String-IsKey,
}
use cyber_security_platform.Prelude.Texts.{split, occurs}
use cyber_security_platform.Security.Abac.{
  Attributes, concerns, evaluate_policy, authorize, default_policies, get_attribute_value,
  evaluate_condition, behind, get_nested_value,
}
use cyber_security_platform.Prelude.Values.{
  Value, number, text, empty, entry, lookup, same_value, ordered, order, is_in, member_of,
}
use cyber_security_platform.Security.Abac.Deciding.{Decided, authorize-Decided}
use cyber_security_platform.Security.Abac.Isolation.{authorize-default}

program : Unit {0}
unfolding concerns evaluate_policy authorize get_attribute_value evaluate_condition behind
    get_nested_value lookup same_value ordered order is_in member_of split occurs
program = tt

abbrev no_patterns : Value → Value → Option Bool
no_patterns p v = none

-- A user reads what the own tenant has.
abbrev own : Attributes
own = record {
  resource = entry "type" (text "scan") (entry "tenant_id" (text "acme") empty);
  user = entry "tenant_id" (text "acme") empty;
  environment = empty;
}

own_denied : authorize no_patterns "read" own default_policies ≡ some false
unfolding program
own_denied = refl

abbrev tenant : String
tenant = "acme"

abbrev action : String
action = "execute"

-- An engineer of one tenant runs an exploit of another, on a weekday before six.
abbrev foreign : Attributes
foreign = record {
  resource = entry "type" (text "exploit") (entry "tenant_id" (text "other") empty);
  user = entry "tenant_id" (text "acme") (entry "role" (text "admin") empty);
  environment = entry "time" (text "09:30") (entry "day" (text "Monday") empty);
}

foreign_allowed : authorize no_patterns "execute" foreign default_policies ≡ some true
unfolding program
foreign_allowed = refl

foreign_tenant : lookup "tenant_id" foreign.user ≡ text "acme"
unfolding program
foreign_tenant = refl

acme : tenant ≢ "resource.tenant_id"
acme e = cc

authorize-default_example : (action ≡ "execute") × (lookup "type" foreign.resource ≡ text "exploit")
authorize-default_example =
    authorize-default no_patterns foreign action tenant foreign_tenant acme foreign_allowed

-- A clearance that is a number does not compare with the text of the policy: TypeError.
abbrev cleared : Attributes
cleared = record {
  resource = entry "type" (text "finding") empty;
  user = entry "tenant_id" (text "acme") (entry "clearance_level" (number 3) empty);
  environment = empty;
}

cleared_raises : authorize no_patterns "read" cleared default_policies ≡ none
unfolding program
cleared_raises = refl

authorize-Decided_example :
    Decided no_patterns "execute" foreign default_policies
      (authorize no_patterns "execute" foreign default_policies)
authorize-Decided_example = authorize-Decided no_patterns "execute" foreign default_policies
