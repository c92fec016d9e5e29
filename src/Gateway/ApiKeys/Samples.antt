-- ===== src/Gateway/ApiKeys/Samples.antt =====
-- The key manager on small inputs. The hash of a text puts a character before it.
use Prim.Native.String.{◌++◌ as append}
use cyber_security_platform.Prelude.{
  ◌*◌, String, true, false, some, none, List, [], ◌∷◌, ◌≡◌, ◌≢◌, refl, any, String-IsKey, ne-same,
}
use cyber_security_platform.Prelude.Calendar.{day}
use cyber_security_platform.Prelude.Dict
use cyber_security_platform.Prelude.Texts.{split, int, digits}
use cyber_security_platform.Gateway.ApiKeys.{
  KeyInfo, ApiKeyManager, no_keys, Drawn, or_all, matching, find_key, generate_key, validate_key,
  rotate_key, check_rate_limit, parse_rate, revoke_key,
}
use cyber_security_platform.Gateway.ApiKeys.Calls.{
  Call, generate_call, validate_call, run, perform, draws,
}
use cyber_security_platform.Gateway.ApiKeys.Validity.{validate_key-revoke_key}

program : Unit {0}
unfolding or_all matching find_key generate_key validate_key rotate_key check_rate_limit parse_rate
    revoke_key run perform draws Dict.get Dict.put Dict.get_default split int digits
program = tt

abbrev hashed : String → String
hashed s = append "#" s

abbrev first : Drawn
first = record { key = "k1"; key_id = "1" }

abbrev second_key : Drawn
second_key = record { key = "k2"; key_id = "2" }

abbrev keys : ApiKeyManager
keys = generate_key hashed 0 first "acme" "main" [] 30 "2/minute" no_keys

abbrev stored : KeyInfo
stored = record {
  key_id = "1";
  tenant_id = "acme";
  name = "main";
  permissions = "*" ∷ [];
  created_at = 0;
  expires_at = 30 * day;
  last_used = none;
  rate_limit = "2/minute";
  active = true;
  revoked_at = none;
  rotated_at = none;
  new_key_id = none;
}

stored_found : find_key "1" "acme" keys.api_keys ≡ some (hashed "k1", stored)
unfolding program
stored_found = refl

valid_at_once : (validate_key hashed 5 "k1" "acme" keys).0 ≡ true
unfolding program
valid_at_once = refl

third_refused :
    let m1 = (check_rate_limit hashed 5 "k1" keys).1 in
    let m2 = (check_rate_limit hashed 6 "k1" m1).1 in
    ((check_rate_limit hashed 7 "k1" m2).0 ≡ false)
    × ((check_rate_limit hashed 60_000_005 "k1" m2).0 ≡ true)
unfolding program
third_refused = (refl, refl)

abbrev after : List Call
after = generate_call 8 second_key "acme" "main" [] 30 "2/minute" ∷ validate_call 9 "k1" "acme" ∷ []

after_fresh : any (draws hashed (hashed "k1")) after ≡ false
unfolding program
after_fresh = refl

validate_key-revoke_key_example :
    (validate_key hashed 10 "k1" "acme" (run hashed after (revoke_key 7 "1" "acme" keys).1)).0
    ≡ false
validate_key-revoke_key_example =
    validate_key-revoke_key hashed 7 10 "1" "acme" "k1" "acme" stored keys after stored_found
      after_fresh

apart : hashed "k1" ≢ hashed second_key.key
apart = ne-same refl
