-- ===== src/Security/Rbac.antt =====
-- src/security/rbac.py: roles, their permissions with what they inherit, and who has which role. A
-- set is a list that `in` reads; the table `self.roles` does not change.
pub mod Names
pub mod Assignments
pub mod Permissions
mod Samples
use cyber_security_platform.Prelude.{
  ℕ, zero, suc, String, Bool, true, false, not, Option, none, some, List, [], ◌∷◌, ◌++◌,
  if◌then◌else◌, filter_by, any, all, contains, ◌==◌, String-IsKey,
}
use cyber_security_platform.Prelude.Dict
use cyber_security_platform.Prelude.Dict.{Dict}
use cyber_security_platform.Prelude.Sets.{add, discard}
use Names.{
  Permission, execute_scan, execute_recon, execute_exploit, execute_analysis, read_executions,
  read_findings, read_reports, read_audit, write_config, write_rules, use_nmap, use_nuclei,
  use_sqlmap, use_gobuster, all_permissions, Role, admin, security_analyst, security_engineer,
  auditor, viewer, api_user, Role-IsKey, Permission-IsKey,
}

pub record RoleConfig : Type 0 where
  pub permissions : List Permission
  pub inherits : List Role

-- `self.roles`
unfoldable pub roles : Role → RoleConfig
roles admin = record { permissions = all_permissions; inherits = [] }
roles security_analyst = record {
  permissions =
      execute_scan ∷ read_executions ∷ read_findings ∷ read_reports ∷ use_nmap ∷ use_nuclei ∷ [];
  inherits = viewer ∷ [];
}
roles security_engineer = record {
  permissions =
      execute_scan ∷ execute_recon ∷ execute_exploit ∷ execute_analysis ∷ read_executions
      ∷ read_findings ∷ read_reports ∷ write_config ∷ write_rules ∷ use_nmap ∷ use_nuclei
      ∷ use_sqlmap ∷ use_gobuster ∷ [];
  inherits = security_analyst ∷ [];
}
roles auditor = record {
  permissions = read_executions ∷ read_findings ∷ read_reports ∷ read_audit ∷ [];
  inherits = viewer ∷ [];
}
roles viewer = record {
  permissions = read_executions ∷ read_findings ∷ read_reports ∷ [];
  inherits = [];
}
roles api_user = record { permissions = execute_scan ∷ read_executions ∷ []; inherits = [] }

pub record RbacManager : Type 0 where
  pub user_roles : Dict String (List Role)
  pub tenant_user_roles : Dict String (Dict String (List Role))

abbrev pub init : RbacManager
init = record { user_roles = []; tenant_user_roles = [] }

-- `if tenant_id:` passes over None and the empty text.
abbrev pub given : Option String → Option String
given none = none
given (some tenant) = if tenant == "" then none else some tenant

add_role : String → Role → Dict String (List Role) → Dict String (List Role)
add_role user role users = Dict.put user (add role (Dict.get_default user [] users)) users

remove_from : String → Role → Dict String (List Role) → Dict String (List Role)
remove_from user role users = elim (Dict.get user users) [
  | none ↦ users
  | some rs ↦ Dict.put user (discard role rs) users
]

module _ (user : String) (role : Role) where
  -- The branches of `assign_role` and `remove_role` on the tenant.
  assign_in : Option String → RbacManager → RbacManager
  unfolding add_role
  assign_in none m = record m { user_roles = add_role user role m.user_roles }
  assign_in (some tenant) m = record m {
    tenant_user_roles =
        Dict.put tenant (add_role user role (Dict.get_default tenant [] m.tenant_user_roles))
          m.tenant_user_roles;
  }

  remove_in : Option String → RbacManager → RbacManager
  unfolding remove_from
  remove_in none m = record m { user_roles = remove_from user role m.user_roles }
  remove_in (some tenant) m = elim (Dict.get tenant m.tenant_user_roles) [
    | none ↦ m
    | some users ↦ record m {
      tenant_user_roles = Dict.put tenant (remove_from user role users) m.tenant_user_roles;
    }
  ]

  pub assign_role : Option String → RbacManager → RbacManager
  unfolding assign_in
  assign_role tenant_id m = assign_in (given tenant_id) m

  pub remove_role : Option String → RbacManager → RbacManager
  unfolding remove_in
  remove_role tenant_id m = remove_in (given tenant_id) m

-- The roles of a user that are assigned in one place: for all tenants, or in a tenant.
pub roles_in : Option String → String → RbacManager → List Role
roles_in none user m = Dict.get_default user [] m.user_roles
roles_in (some tenant) user m =
    Dict.get_default user [] (Dict.get_default tenant [] m.tenant_user_roles)

-- The loop of `_get_role_permissions`; `of_role` is its recursive call.
pub inherited : (of_role : Role → List Permission) → List Role → List Permission
inherited of_role [] = []
inherited of_role (r ∷ rs) = of_role r ++ inherited of_role rs

-- `_get_role_permissions`, on fuel for the depth of the inheritance. The roles go two deep.
pub role_permissions : ℕ → Role → List Permission
unfolding inherited
role_permissions zero role = []
role_permissions (suc depth) role =
    (roles role).permissions ++ inherited (role_permissions depth) (roles role).inherits

pub get_role_permissions : Role → List Permission
get_role_permissions role = role_permissions 3 role

pub granted : List Role → List Permission
granted [] = []
granted (r ∷ rs) = get_role_permissions r ++ granted rs

in_tenant : Option String → String → RbacManager → List Role
in_tenant none user m = []
in_tenant (some tenant) user m = roles_in (some tenant) user m

pub get_user_roles : String → Option String → RbacManager → List Role
unfolding in_tenant
get_user_roles user tenant_id m = roles_in none user m ++ in_tenant (given tenant_id) user m

pub get_user_permissions : String → Option String → RbacManager → List Permission
unfolding in_tenant
get_user_permissions user tenant_id m =
    granted (roles_in none user m) ++ granted (in_tenant (given tenant_id) user m)

module _ (user : String) (tenant_id : Option String) (m : RbacManager) where
  pub has_permission : Permission → Bool
  has_permission permission = contains permission (get_user_permissions user tenant_id m)

  pub has_any_permission : List Permission → Bool
  has_any_permission = any (λ p. contains p (get_user_permissions user tenant_id m))

  pub has_all_permissions : List Permission → Bool
  has_all_permissions = all (λ p. contains p (get_user_permissions user tenant_id m))

-- The users of a table who have the role.
abbrev holders : Role → Dict String (List Role) → List String
holders role users = Dict.keys (filter_by (λ e. contains role e.1) users)

users_of : Option String → RbacManager → Dict String (List Role)
users_of none m = m.user_roles
users_of (some tenant) m = Dict.get_default tenant [] m.tenant_user_roles

pub get_users_with_role : Role → Option String → RbacManager → List String
unfolding users_of
get_users_with_role role tenant_id m = holders role (users_of (given tenant_id) m)
