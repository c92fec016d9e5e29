-- ===== src/Security/Rbac/Permissions.antt =====
-- Which permissions the roles of src/security/rbac.py give.
use cyber_security_platform.Prelude.{
  ℕ, suc, String, Bool, true, false, ◌&&◌, ◌||◌, Option, none, some, List, [], ◌∷◌, ◌++◌, ◌≡◌, refl,
  sym, ap, ◌∙◌, arith, if◌then◌else◌, contains, ◌==◌, String-IsKey, any,
}
use cyber_security_platform.Prelude.Sets.{add, contains-append}
use cyber_security_platform.Security.Rbac.{
  RbacManager, given, assign_role, roles, roles_in, in_tenant, inherited, role_permissions,
  get_role_permissions, granted, get_user_roles, get_user_permissions, has_permission,
}
use cyber_security_platform.Security.Rbac.Names.{
  Role, admin, security_analyst, security_engineer, auditor, viewer, api_user, Role-IsKey,
  Permission, Permission-IsKey,
}
use cyber_security_platform.Security.Rbac.Assignments.{same_place, assign_role-roles}

module _ (p : Permission) where
  -- The role gives the permission, itself or by what it inherits.
  abbrev pub gives : Role → Bool
  gives role = contains p (get_role_permissions role)

  granted-any : (rs : List Role) → contains p (granted rs) ≡ any gives rs
  unfolding granted contains
  granted-any [] = refl
  granted-any (r ∷ rs) =
      ground (arith, contains-append p (get_role_permissions r) (granted rs), granted-any rs)

  any-append : (xs ys : List Role) → any gives (xs ++ ys) ≡ (any gives xs || any gives ys)
  any-append [] ys = refl
  any-append (x ∷ xs) ys = ground (arith, any-append xs ys)

  any-contains :
      (r : Role) (rs : List Role) → contains r rs ≡ true → gives r ≡ true → any gives rs ≡ true
  unfolding contains
  any-contains r [] member h = cc
  any-contains r (x ∷ xs) member h = ground (arith, any-contains r xs, Role-IsKey.same_iff r x)

  any-add : (role : Role) (rs : List Role) → any gives (add role rs) ≡ (any gives rs || gives role)
  unfolding add
  any-add role rs = ground (arith, any-append rs (role ∷ []), any-contains role rs)

  -- A user has a permission exactly if one of the roles that `get_user_roles` returns gives it.
  pub has_permission-any :
      (user : String) (tenant_id : Option String) (m : RbacManager)
      → has_permission user tenant_id m p ≡ any gives (get_user_roles user tenant_id m)
  unfolding has_permission get_user_permissions get_user_roles
  has_permission-any user tenant_id m =
      let everywhere = roles_in none user m in
      let local = in_tenant (given tenant_id) user m in
      ground (
        arith,
        contains-append p (granted everywhere) (granted local),
        granted-any everywhere,
        granted-any local,
        any-append everywhere local,
      )

-- An assignment counts in a tenant if it was made for all tenants, or in that tenant.
abbrev pub reaches : Option String → Option String → Bool
reaches none asked = true
reaches (some tenant) none = false
reaches (some tenant) (some asked) = tenant == asked

module _ (p : Permission) (user other : String) (role : Role) (m m' : RbacManager) where
  -- The roles of each place after an assignment in one place.
  abbrev Assigned : Option String → Type 0
  Assigned place =
      (at : Option String)
      → roles_in at other m' ≡ (
          let rs = roles_in at other m in
          if same_place place at && user == other then add role rs else rs)

  any_at :
      (place at : Option String)
      → Assigned place
      → any (gives p) (roles_in at other m') ≡ (
          any (gives p) (roles_in at other m)
          || (same_place place at && (user == other && gives p role)))
  any_at place at h = ground (arith, h at, any-add p role (roles_in at other m))

  any_after :
      (place asked : Option String)
      → Assigned place
      → any (gives p) (roles_in none other m' ++ in_tenant asked other m') ≡ (
          any (gives p) (roles_in none other m ++ in_tenant asked other m)
          || (reaches place asked && (user == other && gives p role)))
  unfolding in_tenant
  any_after none none h = ground (
    arith,
    any_at none none h,
    any-append p (roles_in none other m) [],
    any-append p (roles_in none other m') [],
  )
  any_after (some t) none h = ground (
    arith,
    any_at (some t) none h,
    any-append p (roles_in none other m) [],
    any-append p (roles_in none other m') [],
  )
  any_after none (some a) h = ground (
    arith,
    any_at none none h,
    any_at none (some a) h,
    any-append p (roles_in none other m) (roles_in (some a) other m),
    any-append p (roles_in none other m') (roles_in (some a) other m'),
  )
  any_after (some t) (some a) h = ground (
    arith,
    any_at (some t) none h,
    any_at (some t) (some a) h,
    any-append p (roles_in none other m) (roles_in (some a) other m),
    any-append p (roles_in none other m') (roles_in (some a) other m'),
  )

-- After an assignment a user has the permissions from before and, if it is the user's own and counts
-- in the tenant that is asked for, those that the role gives; nobody else gains or loses any, and an
-- assignment in one tenant gives nothing in another.
pub assign_role-has_permission :
    (p : Permission) (user other : String) (role : Role) (tenant_id asked : Option String)
    (m : RbacManager)
    → has_permission other asked (assign_role user role tenant_id m) p ≡ (
        has_permission other asked m p
        || (reaches (given tenant_id) (given asked)
            && (user == other && contains p (get_role_permissions role))))
assign_role-has_permission p user other role tenant_id asked m =
    let m' = assign_role user role tenant_id m in
    let after =
      any_after p user other role m m' (given tenant_id) (given asked)
        (λ at. (assign_role-roles role user other tenant_id at m).0) in
    has_permission-any p other asked m'
    ∙ unfold get_user_roles in
      (after
        ∙ ap
            (λ (b : Bool).
              b
              || (reaches (given tenant_id) (given asked)
                  && (user == other && contains p (get_role_permissions role))))
            (sym (has_permission-any p other asked m)))

-- More fuel than that of `get_role_permissions` changes nothing.
role_permissions_enough :
    (n : ℕ) (role : Role) → role_permissions (suc (suc (suc n))) role ≡ get_role_permissions role
unfolding get_role_permissions role_permissions inherited roles
role_permissions_enough n admin = refl
role_permissions_enough n security_analyst = refl
role_permissions_enough n security_engineer = refl
role_permissions_enough n auditor = refl
role_permissions_enough n viewer = refl
role_permissions_enough n api_user = refl

within_depth :
    (q r : Role)
    → contains q (roles r).inherits ≡ true
    → role_permissions 2 q ≡ get_role_permissions q
unfolding get_role_permissions role_permissions inherited roles contains Role-IsKey
within_depth admin r h = refl
within_depth security_analyst r h = refl
within_depth auditor r h = refl
within_depth viewer r h = refl
within_depth api_user r h = refl
within_depth security_engineer admin h = cc (h)
within_depth security_engineer security_analyst h = cc (h)
within_depth security_engineer security_engineer h = cc (h)
within_depth security_engineer auditor h = cc (h)
within_depth security_engineer viewer h = cc (h)
within_depth security_engineer api_user h = cc (h)

inherited-contains :
    (p : Permission) (of_role : Role → List Permission) (q : Role) (rs : List Role)
    → contains q rs ≡ true
    → contains p (of_role q) ≡ true
    → contains p (inherited of_role rs) ≡ true
unfolding inherited contains
inherited-contains p of_role q [] member h = cc
inherited-contains p of_role q (r ∷ rs) member h = ground (
  arith,
  contains-append p (of_role r) (inherited of_role rs),
  inherited-contains p of_role q rs,
  Role-IsKey.same_iff q r,
)

permissions_split :
    (p : Permission) (role : Role)
    → contains p (get_role_permissions role) ≡ (
        contains p (roles role).permissions
        || contains p (inherited (role_permissions 2) (roles role).inherits))
unfolding get_role_permissions role_permissions
permissions_split p role =
    contains-append p (roles role).permissions
      (inherited (role_permissions 2) (roles role).inherits)

-- A role gives its own permissions and all that the roles it inherits from give.
pub get_role_permissions-inherits :
    (p : Permission) (role q : Role)
    → (contains p (roles role).permissions ≡ true → contains p (get_role_permissions role) ≡ true)
      × (contains q (roles role).inherits ≡ true
          → contains p (get_role_permissions q) ≡ true
          → contains p (get_role_permissions role) ≡ true)
get_role_permissions-inherits p role q = (
  λ own. rw (permissions_split p role) (rw own refl),
  λ member gives_p.
      let below : contains p (role_permissions 2 q) ≡ true =
        rw (within_depth q role member) gives_p in
      let rest = inherited-contains p (role_permissions 2) q (roles role).inherits member below in
      rw (permissions_split p role) (ground (arith, rest)),
)
