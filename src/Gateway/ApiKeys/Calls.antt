-- ===== src/Gateway/ApiKeys/Calls.antt =====
-- Sequences of calls of the key manager: an inactive key stays inactive.
use cyber_security_platform.Prelude.{
  ℕ, String, Bool, true, false, some, List, [], ◌∷◌, ◌≡◌, refl, ◌∙◌, arith, any, ltb, ◌⊎◌, sym,
  ◌==◌, String-IsKey, Option-cases, Bool-cases, inl, inr,
}
use cyber_security_platform.Prelude.Dict
use cyber_security_platform.Prelude.Dict.{Dict, get-put}
use cyber_security_platform.Gateway.ApiKeys.{
  KeyInfo, ApiKeyManager, Drawn, find_key, generate_key, validate_key, rotate_key, check_rate_limit,
  track_usage, revoke_key,
}

-- The calls that change the manager, each at a reading of the clock, with what `secrets` draws.
pub data Call : Type 0 where
  generate_call :
      (now : ℕ)
      → Drawn
      → (tenant name : String) → List String
      → (days : ℕ) → (rate_limit : String) → Call
  validate_call : (now : ℕ) → (key tenant : String) → Call
  revoke_call : (now : ℕ) → (id tenant : String) → Call
  rotate_call : (now : ℕ) → Drawn → (id tenant : String) → Call
  check_call : (now : ℕ) → (key : String) → Call
  track_call : (now : ℕ) → (key endpoint : String) → ℕ → Call

module _ (hash : String → String) where
  unfoldable pub perform : Call → ApiKeyManager → ApiKeyManager
  unfolding generate_key validate_key revoke_key rotate_key check_rate_limit track_usage
  perform (generate_call now drawn tenant name permissions days limit) m =
      generate_key hash now drawn tenant name permissions days limit m
  perform (validate_call now key tenant) m = (validate_key hash now key tenant m).1
  perform (revoke_call now id tenant) m = (revoke_key now id tenant m).1
  perform (rotate_call now drawn id tenant) m = (rotate_key hash now drawn id tenant m).1
  perform (check_call now key) m = (check_rate_limit hash now key m).1
  perform (track_call now key endpoint status) m = track_usage hash now key endpoint status m

  unfoldable pub run : List Call → ApiKeyManager → ApiKeyManager
  run [] m = m
  run (call ∷ calls) m = run calls (perform call m)

  -- Whether a call draws a key of this hash.
  unfoldable pub draws : String → Call → Bool
  draws h (generate_call _ drawn _ _ _ _ _) = hash drawn.key == h
  draws h (rotate_call _ drawn _ _) = hash drawn.key == h
  draws h (validate_call _ _ _) = false
  draws h (revoke_call _ _ _) = false
  draws h (check_call _ _) = false
  draws h (track_call _ _ _ _) = false

-- The key of this hash is there and inactive.
abbrev pub IsInactive : String → Dict String KeyInfo → Type 0
IsInactive h keys = (info : KeyInfo) × (Dict.get h keys ≡ some info) × (info.active ≡ false)

put-IsInactive :
    (h j : String) (new : KeyInfo) (keys : Dict String KeyInfo)
    → (j ≡ h → new.active ≡ false)
    → IsInactive h keys
    → IsInactive h (Dict.put j new keys)
put-IsInactive h j new keys off (info, found, inactive) = elim (Bool-cases (j == h)) [
  | inl same ↦ (new, get-put j h new keys ∙ rw same refl, off ((String-IsKey.same_iff j h).0 same))
  | inr other ↦ (info, get-put j h new keys ∙ rw other found, inactive)
]

module _ (hash : String → String) where
  -- A validation leaves the keys alone, or rewrites an active one.
  validate-keys :
      (now : ℕ) (key tenant : String) (m : ApiKeyManager)
      → ((validate_key hash now key tenant m).1.api_keys ≡ m.api_keys)
        ⊎ ((k : KeyInfo) × (Dict.get (hash key) m.api_keys ≡ some k)
            × (k.active ≡ true)
            × ((validate_key hash now key tenant m).1.api_keys
                ≡ Dict.put (hash key) (record k { last_used = some now }) m.api_keys))
  unfolding validate_key
  validate-keys now key tenant m = elim (Option-cases (Dict.get (hash key) m.api_keys)) [
    | inl missing ↦ inl (rw (missing, validate_key) refl)
    | inr (k, here) ↦ elim (Bool-cases (k.tenant_id == tenant)) [
      | inr foreign ↦ inl (rw (here, foreign, validate_key) refl)
      | inl own ↦ elim (Bool-cases k.active) [
        | inr off ↦ inl (rw (here, own, off, validate_key) refl)
        | inl live ↦ elim (Bool-cases (ltb k.expires_at now)) [
          | inl over ↦ inl (rw (here, own, live, over, validate_key) refl)
          | inr valid ↦ inr (k, here, live, rw (here, own, live, valid, validate_key) refl)
        ]
      ]
    ]
  ]

  check-keys :
      (now : ℕ) (key : String) (m : ApiKeyManager)
      → (check_rate_limit hash now key m).1.api_keys ≡ m.api_keys
  unfolding check_rate_limit
  check-keys now key m = ground arith

  drawn_apart : (h key : String) → (hash key == h) ≡ false → hash key ≡ h → true ≡ false
  drawn_apart h key other e = sym ((String-IsKey.same_iff (hash key) h).1 e) ∙ other

  perform-IsInactive :
      (h : String) (call : Call) (m : ApiKeyManager)
      → draws hash h call ≡ false
      → IsInactive h m.api_keys
      → IsInactive h (perform hash call m).api_keys
  unfolding perform draws generate_key revoke_key rotate_key check_rate_limit track_usage
  perform-IsInactive h (generate_call now drawn tenant name permissions days limit) m other i =
      put-IsInactive h (hash drawn.key) _ m.api_keys (λ e. drawn_apart h drawn.key other e) i
  perform-IsInactive h (validate_call now key tenant) m other (info, found, off) =
      elim (validate-keys now key tenant m) [
        | inl same ↦ rw same (info, found, off)
        | inr (k, here, live, e) ↦ rw e (
            put-IsInactive h (hash key) _ m.api_keys (λ same. cc (same, here, found, off))
              (info, found, off))
      ]
  perform-IsInactive h (revoke_call now id tenant) m other i =
      elim (Option-cases (find_key id tenant m.api_keys)) [
        | inl missing ↦ rw (missing, perform, revoke_key) i
        | inr ((j, info), here) ↦
            rw (here, perform, revoke_key) (put-IsInactive h j _ m.api_keys (λ e. refl) i)
      ]
  perform-IsInactive h (rotate_call now drawn id tenant) m other i =
      elim (Option-cases (find_key id tenant m.api_keys)) [
        | inl missing ↦ rw (missing, perform, rotate_key) i
        | inr ((j, old), here) ↦
            let made =
              put-IsInactive h (hash drawn.key) _ m.api_keys (drawn_apart h drawn.key other) i in
            elim (Bool-cases (j == hash drawn.key)) [
              | inl again ↦ rw (here, again, perform, rotate_key, generate_key) made
              | inr apart ↦
                  rw (here, apart, perform, rotate_key, generate_key)
                    (put-IsInactive h j _ _ (λ e. refl) made)
            ]
      ]
  perform-IsInactive h (check_call now key) m other i = rw (check-keys now key m) i
  perform-IsInactive h (track_call now key endpoint status) m other i = i

  -- A key that is inactive stays so through any calls that draw no key of its hash.
  pub run-IsInactive :
      (h : String) (calls : List Call) (m : ApiKeyManager)
      → any (draws hash h) calls ≡ false
      → IsInactive h m.api_keys
      → IsInactive h (run hash calls m).api_keys
  unfolding run
  run-IsInactive h [] m other i = i
  run-IsInactive h (call ∷ calls) m other i =
      run-IsInactive h calls (perform hash call m) (ground arith)
        (perform-IsInactive h call m (ground arith) i)
