-- ===== src/Security/Rbac/Samples.antt =====
-- Roles of two users.
use cyber_security_platform.Prelude.{
  String, true, false, ◌&&◌, ◌||◌, none, some, ◌≡◌, refl, contains, ◌==◌, String-IsKey,
}
use cyber_security_platform.Prelude.Dict
use cyber_security_platform.Prelude.Sets.{add, discard}
use cyber_security_platform.Security.Rbac.{
  RbacManager, init, given, assign_role, remove_role, assign_in, remove_in, add_role, remove_from,
  roles, roles_in, in_tenant, inherited, role_permissions, get_role_permissions, granted,
  get_user_roles, get_user_permissions, has_permission, get_users_with_role,
}
use cyber_security_platform.Security.Rbac.Names.{
  auditor, security_engineer, security_analyst, Role-IsKey, execute_scan, use_nmap, admin_users,
  Permission-IsKey, all_permissions,
}
use cyber_security_platform.Security.Rbac.Permissions.{reaches, assign_role-has_permission}

program : Unit {0}
unfolding assign_role remove_role assign_in remove_in add_role remove_from roles roles_in in_tenant
    inherited role_permissions get_role_permissions granted get_user_roles get_user_permissions
    has_permission get_users_with_role contains add discard Dict.get Dict.put Dict.get_default
    Role-IsKey Permission-IsKey all_permissions
program = tt

abbrev ann : String
ann = "ann"

-- Ann is an auditor everywhere and an engineer at "acme".
abbrev staff : RbacManager
staff = assign_role "ann" security_engineer (some "acme") (assign_role "ann" auditor none init)

staff_permissions :
    (has_permission "ann" (some "acme") staff use_nmap ≡ true)
    × (has_permission "ann" (some "other") staff use_nmap ≡ false)
    × (has_permission "ann"
          (some "acme")
          (remove_role "ann" security_engineer (some "acme") staff)
          use_nmap
        ≡ false)
    × (has_permission "ann" (some "acme") staff admin_users ≡ false)
unfolding program
staff_permissions = (refl, refl, refl, refl)

assign_role-has_permission_example :
    has_permission "ann"
      (some "other")
      (assign_role "ann" security_analyst (some "acme") staff)
      execute_scan
    ≡ (has_permission "ann" (some "other") staff execute_scan
        || (reaches (given (some "acme")) (given (some "other"))
            && (ann == ann && contains execute_scan (get_role_permissions security_analyst))))
assign_role-has_permission_example =
    assign_role-has_permission execute_scan "ann" "ann" security_analyst (some "acme")
      (some "other") staff
