-- ===== src/Security/Rbac/Names.antt =====
-- The enumerations of src/security/rbac.py.
use cyber_security_platform.Prelude.{ℕ, Bool, true, List, [], ◌∷◌, ◌≡◌, ◌↔◌, arith, nat_beq, IsKey}

pub data Permission : Type 0 where
  execute_scan execute_recon execute_exploit execute_analysis : Permission
  read_executions read_findings read_reports read_audit : Permission
  write_config write_policies write_rules : Permission
  admin_users admin_tenants admin_system admin_audit : Permission
  use_nmap use_nuclei use_sqlmap use_gobuster : Permission

pub data Role : Type 0 where
  admin security_analyst security_engineer auditor viewer api_user : Role

-- `[p for p in Permission]`
unfoldable pub all_permissions : List Permission
all_permissions =
    execute_scan ∷ execute_recon ∷ execute_exploit ∷ execute_analysis ∷ read_executions
    ∷ read_findings ∷ read_reports ∷ read_audit ∷ write_config ∷ write_policies ∷ write_rules
    ∷ admin_users ∷ admin_tenants ∷ admin_system ∷ admin_audit ∷ use_nmap ∷ use_nuclei ∷ use_sqlmap
    ∷ use_gobuster ∷ []

abbrev permission_position : Permission → ℕ
permission_position execute_scan = 0
permission_position execute_recon = 1
permission_position execute_exploit = 2
permission_position execute_analysis = 3
permission_position read_executions = 4
permission_position read_findings = 5
permission_position read_reports = 6
permission_position read_audit = 7
permission_position write_config = 8
permission_position write_policies = 9
permission_position write_rules = 10
permission_position admin_users = 11
permission_position admin_tenants = 12
permission_position admin_system = 13
permission_position admin_audit = 14
permission_position use_nmap = 15
permission_position use_nuclei = 16
permission_position use_sqlmap = 17
permission_position use_gobuster = 18

abbrev same_permission : Permission → Permission → Bool
same_permission a b = nat_beq (permission_position a) (permission_position b)

pub same_permission_iff : (a b : Permission) → (same_permission a b ≡ true) ↔ (a ≡ b)
same_permission_iff a b = ground arith

instance unfoldable pub Permission-IsKey : IsKey Permission
Permission-IsKey = record { same = same_permission; same_iff = same_permission_iff }

abbrev role_position : Role → ℕ
role_position admin = 0
role_position security_analyst = 1
role_position security_engineer = 2
role_position auditor = 3
role_position viewer = 4
role_position api_user = 5

abbrev same_role : Role → Role → Bool
same_role a b = nat_beq (role_position a) (role_position b)

pub same_role_iff : (a b : Role) → (same_role a b ≡ true) ↔ (a ≡ b)
same_role_iff a b = ground arith

instance unfoldable pub Role-IsKey : IsKey Role
Role-IsKey = record { same = same_role; same_iff = same_role_iff }
