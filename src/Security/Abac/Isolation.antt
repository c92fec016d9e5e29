-- ===== src/Security/Abac/Isolation.antt =====
-- What the default policies of src/security/abac.py allow a tenant.
use Prim.Native.String.{String}
use cyber_security_platform.Prelude.{
  Bool, true, false, Option, some, [], ◌∷◌, ◌≡◌, ◌≢◌, refl, sym, ap, arith, ◌&&◌, String-IsKey,
  same-ne,
}
use cyber_security_platform.Prelude.Texts.{split}
use cyber_security_platform.Security.Abac.{
  Policy, AbacManager, Attributes, concerns, evaluate_policy, authorize, default_policies,
  get_attribute_value, evaluate_condition, evaluate_entries, behind, get_nested_value, test,
}
use cyber_security_platform.Prelude.Values.{
  Value, null, boolean, number, items, text, mapping, Entries, empty, entry, lookup, same_value,
}

both_true : (a b : Bool) → (a && b) ≡ true → (a ≡ true) × (b ≡ true)
both_true a b h = ground arith

same_value-text : (s : String) (w : Value) → same_value (text s) w ≡ true → w ≡ text s
unfolding same_value
same_value-text s null h = cc
same_value-text s (boolean _) h = cc
same_value-text s (number _) h = cc
same_value-text s (text t) h = ap text (sym ((String-IsKey.same_iff s t).0 h))
same_value-text s (items _) h = cc
same_value-text s (mapping _) h = cc

module _ (matches : Value → Value → Option Bool) (attrs : Attributes) where
  user_tenant : get_attribute_value "user.tenant_id" attrs ≡ lookup "tenant_id" attrs.user
  unfolding get_attribute_value behind get_nested_value split
  user_tenant = refl

  -- The test of the tenant compares with the text "resource.tenant_id" itself.
  tenant_test :
      (tenant : String)
      → lookup "tenant_id" attrs.user ≡ text tenant
      → tenant ≢ "resource.tenant_id"
      → evaluate_condition matches
          (test "eq" (text "resource.tenant_id"))
          (get_attribute_value "user.tenant_id" attrs)
        ≡ some false
  unfolding evaluate_condition evaluate_entries same_value
  tenant_test tenant here other =
      rw (user_tenant, here, evaluate_condition, evaluate_entries, same-ne other) refl

  -- A condition that fails, and one after any condition.
  policy_fails :
      (path : String) (condition : Value) (rest : Entries)
      → evaluate_condition matches condition (get_attribute_value path attrs) ≡ some false
      → evaluate_policy matches (entry path condition rest) attrs ≡ some false
  unfolding evaluate_policy
  policy_fails path condition rest h = rw (h, evaluate_policy) refl

  policy_fails_later :
      (path : String) (condition : Value) (rest : Entries)
      → evaluate_policy matches rest attrs ≡ some false
      → evaluate_policy matches (entry path condition rest) attrs ≢ some true
  unfolding evaluate_policy
  policy_fails_later path condition rest h e = ground arith

  -- A policy whose conditions do not hold allows nothing.
  authorize_later :
      (action : String) (p : Policy) (ps : AbacManager)
      → evaluate_policy matches p.conditions attrs ≢ some true
      → authorize matches action attrs (p ∷ ps) ≡ some true
      → authorize matches action attrs ps ≡ some true
  unfolding authorize
  authorize_later action p ps fails allowed = ground arith

  authorize_last :
      (action : String) (p : Policy)
      → authorize matches action attrs (p ∷ []) ≡ some true
      → concerns action attrs p ≡ true
  unfolding authorize
  authorize_last action p allowed = ground arith

  -- The default policies allow a user of a tenant, unless its name is the text "resource.tenant_id",
  -- nothing but the execution of an exploit, in the user's own tenant or not.
  pub authorize-default :
      (action tenant : String)
      → lookup "tenant_id" attrs.user ≡ text tenant
      → tenant ≢ "resource.tenant_id"
      → authorize matches action attrs default_policies ≡ some true
      → (action ≡ "execute") × (lookup "type" attrs.resource ≡ text "exploit")
  unfolding concerns
  authorize-default action tenant here other allowed =
      let isolated = policy_fails "user.tenant_id" _ empty (tenant_test tenant here other) in
      let concerned = authorize_last action _ (
        authorize_later action _ _ (policy_fails_later _ _ _ isolated)
          (authorize_later action _ _ (λ e. cc (e, isolated)) allowed)) in
      let parts = both_true _ _ concerned in
      (
        sym ((String-IsKey.same_iff "execute" action).0 parts.0),
        same_value-text "exploit" _ parts.1,
      )
