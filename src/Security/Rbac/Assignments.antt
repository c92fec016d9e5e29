-- ===== src/Security/Rbac/Assignments.antt =====
-- What `assign_role` and `remove_role` of src/security/rbac.py change.
use cyber_security_platform.Prelude.{
  String, Bool, true, false, ◌&&◌, Option, none, some, List, [], ◌≡◌, refl, arith, if◌then◌else◌,
  ◌==◌, String-IsKey, Option-cases, inl, inr,
}
use cyber_security_platform.Prelude.Dict
use cyber_security_platform.Prelude.Dict.{
  Dict, get_default-put, get-put, get_default-absent, get_default-found,
}
use cyber_security_platform.Prelude.Sets.{add, discard}
use cyber_security_platform.Security.Rbac.{
  RbacManager, given, add_role, remove_from, assign_in, remove_in, assign_role, remove_role,
  roles_in,
}
use cyber_security_platform.Security.Rbac.Names.{Role, Role-IsKey}

-- The same place of assignment.
abbrev pub same_place : Option String → Option String → Bool
same_place none none = true
same_place (some a) (some b) = a == b
same_place _ _ = false

module _ (role : Role) (user other : String) where
  get_default-add_role :
      (users : Dict String (List Role))
      → Dict.get_default other [] (add_role user role users)
        ≡ (let rs = Dict.get_default other [] users in if user == other then add role rs else rs)
  unfolding add_role
  get_default-add_role users =
      let before = Dict.get_default user [] users in
      ground (
        arith,
        get_default-put user other [] (add role before) users,
        String-IsKey.same_iff user other,
      )

  get_default-remove_from :
      (users : Dict String (List Role))
      → Dict.get_default other [] (remove_from user role users) ≡ (
          let rs = Dict.get_default other [] users in if user == other then discard role rs else rs)
  unfolding remove_from Dict.get_default
  get_default-remove_from users = elim (Option-cases (Dict.get user users)) [
    | inl absent ↦ unfold discard in ground (arith, String-IsKey.same_iff user other)
    | inr (rs, found) ↦
        ground (arith, get-put user other (discard role rs) users, String-IsKey.same_iff user other)
  ]

  no_roles : (Dict.get_default {V = List Role} other [] [] ≡ []) × (discard {K = Role} role [] ≡ [])
  unfolding discard Dict.get_default Dict.get
  no_roles = (refl, refl)

  assign_in-roles :
      (place asked : Option String) (m : RbacManager)
      → roles_in asked other (assign_in user role place m) ≡ (
          let rs = roles_in asked other m in
          if same_place place asked && user == other then add role rs else rs)
  unfolding roles_in assign_in
  assign_in-roles none none m = get_default-add_role m.user_roles
  assign_in-roles none (some asked) m = refl
  assign_in-roles (some tenant) none m = refl
  assign_in-roles (some tenant) (some asked) m =
      let users = Dict.get_default tenant [] m.tenant_user_roles in
      ground (
        arith,
        get_default-put tenant asked [] (add_role user role users) m.tenant_user_roles,
        get_default-add_role users,
        String-IsKey.same_iff tenant asked,
      )

  remove_in-roles :
      (place asked : Option String) (m : RbacManager)
      → roles_in asked other (remove_in user role place m) ≡ (
          let rs = roles_in asked other m in
          if same_place place asked && user == other then discard role rs else rs)
  unfolding roles_in remove_in
  remove_in-roles none none m = get_default-remove_from m.user_roles
  remove_in-roles none (some asked) m = refl
  remove_in-roles (some tenant) none m = elim (Option-cases (Dict.get tenant m.tenant_user_roles)) [
    | inl absent ↦ ground arith
    | inr found ↦ ground arith
  ]
  remove_in-roles (some tenant) (some asked) m =
      elim (Option-cases (Dict.get tenant m.tenant_user_roles)) [
        | inl absent ↦ ground (
          arith,
          get_default-absent tenant [] m.tenant_user_roles absent,
          no_roles,
          String-IsKey.same_iff tenant asked,
        )
        | inr (users, found) ↦
            let after = remove_from user role users in
            ground (
              arith,
              get_default-put tenant asked [] after m.tenant_user_roles,
              get_default-found tenant [] m.tenant_user_roles found,
              get_default-remove_from users,
              String-IsKey.same_iff tenant asked,
            )
      ]

-- An assignment adds the role to those of the user in its place, and a removal takes it from them;
-- the roles of other users, and those assigned in other places, stay as they were.
pub assign_role-roles :
    (role : Role) (user other : String) (tenant_id place : Option String) (m : RbacManager)
    → (roles_in place other (assign_role user role tenant_id m) ≡ (
        let rs = roles_in place other m in
        if same_place (given tenant_id) place && user == other then add role rs else rs))
      × (roles_in place other (remove_role user role tenant_id m) ≡ (
          let rs = roles_in place other m in
          if same_place (given tenant_id) place && user == other then discard role rs else rs))
unfolding assign_role remove_role
assign_role-roles role user other tenant_id place m = (
  assign_in-roles role user other (given tenant_id) place m,
  remove_in-roles role user other (given tenant_id) place m,
)
