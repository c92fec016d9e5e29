-- ===== src/Gateway/ApiKeys/Validity.antt =====
-- When the keys of the key manager are valid: after a revocation and after a rotation.
use cyber_security_platform.Prelude.{
  ℕ, ◌+◌, ◌*◌, String, true, false, some, List, ◌≡◌, ◌≢◌, refl, ◌∙◌, arith, any, String-IsKey,
  same-ne, ltb, not,
}
use cyber_security_platform.Prelude.Calendar.{day}
use cyber_security_platform.Prelude.Dict
use cyber_security_platform.Prelude.Dict.{Dict, get-put, get-put_self}
use cyber_security_platform.Gateway.ApiKeys.{
  KeyInfo, ApiKeyManager, Drawn, or_all, find_key, generate_key, validate_key, rotate_key,
  revoke_key,
}
use cyber_security_platform.Gateway.ApiKeys.Calls.{Call, run, draws, IsInactive, run-IsInactive}

-- What is stored before an entry of another hash is still found.
get-put_before :
    (j k : String) (a b : KeyInfo) (keys : Dict String KeyInfo)
    → j ≢ k
    → Dict.get k (Dict.put j a (Dict.put k b keys)) ≡ some b
get-put_before j k a b keys apart =
    get-put j k a (Dict.put k b keys) ∙ rw (same-ne apart) (get-put_self k b keys)

module _ (hash : String → String) where
  validate_key_inactive :
      (now : ℕ) (key tenant : String) (m : ApiKeyManager)
      → IsInactive (hash key) m.api_keys
      → (validate_key hash now key tenant m).0 ≡ false
  unfolding validate_key
  validate_key_inactive now key tenant m (info, found, off) = ground arith

  -- A key that is revoked by its identifier and tenant is never valid again, at any time, for any
  -- tenant and after any calls, if none of them draws a key with its hash.
  pub validate_key-revoke_key :
      (now later : ℕ) (id tenant key asked : String) (info : KeyInfo) (m : ApiKeyManager)
      (calls : List Call)
      → find_key id tenant m.api_keys ≡ some (hash key, info)
      → any (draws hash (hash key)) calls ≡ false
      → (validate_key hash later key asked (run hash calls (revoke_key now id tenant m).1)).0
        ≡ false
  unfolding revoke_key
  validate_key-revoke_key now later id tenant key asked info m calls found fresh =
      validate_key_inactive later key asked _ (
        run-IsInactive hash (hash key) calls _ fresh
          (rw (found, revoke_key) (_, get-put_self (hash key) _ m.api_keys, refl)))

  validate_key_valid :
      (now : ℕ) (key tenant : String) (info : KeyInfo) (m : ApiKeyManager)
      → Dict.get (hash key) m.api_keys ≡ some info
      → info.tenant_id ≡ tenant
      → info.active ≡ true
      → (validate_key hash now key tenant m).0 ≡ not (ltb info.expires_at now)
  unfolding validate_key
  validate_key_valid now key tenant info m found own live =
      ground (arith, String-IsKey.same_iff info.tenant_id tenant)

  -- A rotation of a key, active or not, to a new key of another hash: the new key is valid for the
  -- tenant through the next 365 days and no longer, with the permissions and the limit of the old one,
  -- which is not valid any more.
  pub rotate_key_lem :
      (now later : ℕ) (drawn : Drawn) (id tenant key asked : String) (old : KeyInfo)
      (m : ApiKeyManager)
      → find_key id tenant m.api_keys ≡ some (hash key, old)
      → hash key ≢ hash drawn.key
      → let (made, m') = rotate_key hash now drawn id tenant m in
        (made ≡ some drawn.key_id)
        × ((validate_key hash later drawn.key tenant m').0 ≡ not (ltb (now + 365 * day) later))
        × ((new : KeyInfo) × (Dict.get (hash drawn.key) m'.api_keys ≡ some new)
            × (new.permissions ≡ or_all old.permissions)
            × (new.rate_limit ≡ old.rate_limit))
        × ((validate_key hash later key asked m').0 ≡ false)
  unfolding rotate_key generate_key
  rotate_key_lem now later drawn id tenant key asked old m found apart =
      rw (found, rotate_key, same-ne apart)
        (
          refl,
          validate_key_valid later drawn.key tenant _ _
              (get-put_before (hash key) (hash drawn.key) _ _ m.api_keys apart) refl refl,
          (_, get-put_before (hash key) (hash drawn.key) _ _ m.api_keys apart, refl, refl),
          validate_key_inactive later key asked _ (_, get-put_self (hash key) _ _, refl),
        )
