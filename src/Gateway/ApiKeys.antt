-- ===== src/Gateway/ApiKeys.antt =====
-- src/gateway/developer_portal/api_key_manager.py. SHA-256 is the argument `hash`; the keys and the
-- identifiers that `secrets` draws are arguments. Times are microseconds.
pub mod Calls
pub mod Validity
mod Samples
use Prim.Native.String.{◌++◌ as append}
use cyber_security_platform.Prelude.{
  ℕ, ◌+◌, ◌-◌, ◌*◌, String, Bool, true, false, Option, none, some, List, [], ◌∷◌, ◌++◌, map, ◌&&◌,
  ltb, leb, if◌then◌else◌, length, drop, filter_by, ◌==◌, String-IsKey,
}
use cyber_security_platform.Prelude.Dict
use cyber_security_platform.Prelude.Dict.{Dict}
use cyber_security_platform.Prelude.Calendar.{second, day}
use cyber_security_platform.Prelude.Texts.{split, int}

pub record KeyInfo : Type 0 where
  pub key_id : String
  pub tenant_id : String
  pub name : String
  pub permissions : List String
  pub created_at : ℕ
  pub expires_at : ℕ
  pub last_used : Option ℕ
  pub rate_limit : String
  pub active : Bool
  pub revoked_at : Option ℕ
  pub rotated_at : Option ℕ
  pub new_key_id : Option String

pub record UsageEntry : Type 0 where
  pub timestamp : ℕ
  pub endpoint : String
  pub status_code : ℕ

pub record ApiKeyManager : Type 0 where
  pub api_keys : Dict String KeyInfo
  pub usage : Dict String (List UsageEntry)
  pub rate_limits : Dict String (List ℕ)

abbrev pub no_keys : ApiKeyManager
no_keys = record { api_keys = []; usage = []; rate_limits = [] }

-- `permissions or ["*"]`
unfoldable pub or_all : List String → List String
or_all [] = "*" ∷ []
or_all (p ∷ ps) = p ∷ ps

-- What `secrets` draws for a key.
pub record Drawn : Type 0 where
  pub key : String
  pub key_id : String

unfoldable pub matching : String → String → KeyInfo → Bool
matching id tenant info = (info.key_id == id) && (info.tenant_id == tenant)

-- The hash and the information of the first key that matches.
unfoldable pub find_key : String → String → Dict String KeyInfo → Option (String × KeyInfo)
unfolding matching
find_key id tenant [] = none
find_key id tenant ((h, info) ∷ rest) =
    if matching id tenant info then some (h, info) else find_key id tenant rest

-- The number and the period of a limit; a text without one slash or without a number gives 100 a
-- minute.
unfoldable pub parse_rate : String → ℕ × ℕ
parse_rate limit = elim (split b'/' limit) [
  | count ∷ period ∷ [] ↦ elim (int count) [
    | none ↦ (100, 60)
    | some n ↦ (
      n,
      Dict.get_default period 60
          (("second", 1) ∷ ("minute", 60) ∷ ("hour", 3_600) ∷ ("day", 86_400) ∷ []),
    )
  ]
  | _ ↦ (100, 60)
]

module _ (hash : String → String) where
  unfoldable pub generate_key :
      (now : ℕ)
      → Drawn
      → (tenant name : String) → List String
      → (days : ℕ) → (rate_limit : String) → ApiKeyManager
      → ApiKeyManager
  unfolding or_all
  generate_key now drawn tenant name permissions days rate_limit m = record m {
    api_keys =
        Dict.put (hash drawn.key)
          (record {
            key_id = drawn.key_id;
            tenant_id = tenant;
            name = name;
            permissions = or_all permissions;
            created_at = now;
            expires_at = now + days * day;
            last_used = none;
            rate_limit = rate_limit;
            active = true;
            revoked_at = none;
            rotated_at = none;
            new_key_id = none;
          })
          m.api_keys;
  }

  unfoldable pub validate_key :
      (now : ℕ) → (key tenant : String) → ApiKeyManager → Bool × ApiKeyManager
  validate_key now key tenant m = elim (Dict.get (hash key) m.api_keys) [
    | none ↦ (false, m)
    | some info ↦
        if info.tenant_id == tenant
        then if info.active
          then if ltb info.expires_at now then (false, m) else (
            true,
            record m {
              api_keys = Dict.put (hash key) (record info { last_used = some now }) m.api_keys;
            },
          )
          else (false, m)
        else (false, m)
  ]

  unfoldable pub rotate_key :
      (now : ℕ) → Drawn → (id tenant : String) → ApiKeyManager → Option String × ApiKeyManager
  unfolding find_key generate_key
  rotate_key now drawn id tenant m = elim (find_key id tenant m.api_keys) [
    | none ↦ (none, m)
    | some (h, old) ↦
        let m' =
          generate_key now drawn tenant (append old.name " (rotated)") old.permissions 365
            old.rate_limit m in
        (
          some drawn.key_id,
          if h == hash drawn.key then m' else record m' {
            api_keys =
                Dict.put h
                  (record old {
                    active = false;
                    rotated_at = some now;
                    new_key_id = some drawn.key_id;
                  })
                  m'.api_keys;
          },
        )
  ]

  -- The requests of a key in its last period.
  unfoldable pub check_rate_limit : (now : ℕ) → String → ApiKeyManager → Bool × ApiKeyManager
  unfolding parse_rate
  check_rate_limit now key m = elim (Dict.get (hash key) m.api_keys) [
    | none ↦ (false, m)
    | some info ↦
        let (max_requests, seconds) = parse_rate info.rate_limit in
        let requests =
          filter_by (λ t. ltb now (t + seconds * second))
            (Dict.get_default (hash key) [] m.rate_limits) in
        if leb max_requests (length requests)
        then (false, record m { rate_limits = Dict.put (hash key) requests m.rate_limits })
        else (
          true,
          record m { rate_limits = Dict.put (hash key) (requests ++ now ∷ []) m.rate_limits },
        )
  ]

  unfoldable pub track_usage :
      (now : ℕ) → (key endpoint : String) → ℕ → ApiKeyManager → ApiKeyManager
  track_usage now key endpoint status m =
      let entries =
        Dict.get_default (hash key) [] m.usage
        ++ record { timestamp = now; endpoint = endpoint; status_code = status } ∷ [] in
      record m {
        usage =
            Dict.put (hash key)
              (if ltb 10_000 (length entries)
                then drop (length entries - 10_000) entries
                else entries)
              m.usage;
      }

unfoldable pub revoke_key : (now : ℕ) → (id tenant : String) → ApiKeyManager → Bool × ApiKeyManager
unfolding find_key
revoke_key now id tenant m = elim (find_key id tenant m.api_keys) [
  | none ↦ (false, m)
  | some (h, info) ↦ (
    true,
    record m {
      api_keys = Dict.put h (record info { active = false; revoked_at = some now }) m.api_keys;
    },
  )
]

unfoldable pub get_key_info : (id tenant : String) → ApiKeyManager → Option KeyInfo
unfolding find_key
get_key_info id tenant m = elim (find_key id tenant m.api_keys) [
  | none ↦ none
  | some (_, info) ↦ some info
]

unfoldable pub list_keys : (tenant : String) → ApiKeyManager → List KeyInfo
list_keys tenant m = filter_by (λ info. info.tenant_id == tenant) (Dict.values m.api_keys)
