-- ===== src/Tools/RateLimiter/Limits.antt =====
-- Which limit a key of src/tools/rate_limiter.py has, and which checks a call of tools passes.
use Prim.Native.String.{◌++◌ as append}
use cyber_security_platform.Prelude.{
  ℕ, String, true, false, Option, none, some, List, [], ◌∷◌, ◌++◌, map, ◌≡◌, inl, inr, refl, sym,
  ap, ◌∙◌, if◌then◌else◌, Bool-cases, ◌==◌, String-IsKey,
}
use cyber_security_platform.Prelude.Dict
use cyber_security_platform.Prelude.Dict.{Dict, get-put}
use cyber_security_platform.Prelude.Texts.{occurs-append}
use cyber_security_platform.Tools.RateLimiter.{
  new_bucket, consume, LimitConfig, Tool, parse_limit, limit_text, Script, ToolRateLimiter,
  get_limit_config, check_local_limit, check_limit, check_keys, tool_keys, check_limits,
}

-- The checks that a call of tools has to pass, in one row: for each tool the key for everyone, the key
-- of the tenant and the key of the user.
unfoldable pub all_checks : (user tenant : String) → List Tool → List (String × Tool)
all_checks user tenant [] = []
all_checks user tenant (tool ∷ tools) =
    (append "tool:global:" tool.name, tool)
    ∷ (append "tool:tenant:" (append tenant (append ":" tool.name)), tool)
    ∷ (append "tool:user:" (append user (append ":" tool.name)), tool)
    ∷ all_checks user tenant tools

module _ {S : Type 0} where
  -- A key without a limit of its own that has "global" anywhere in it, in the name of the tool, the
  -- tenant or the user too, gets the limit of the tool for everyone.
  pub get_limit_config-global :
      (left right : String) (tool : Tool) (m : ToolRateLimiter S)
      → let key = append left (append "global" right) in
        Dict.get key m.limits ≡ none
        → get_limit_config key tool m ≡ parse_limit (limit_text "global" "100/minute" tool)
  unfolding get_limit_config
  get_limit_config-global left right tool m missing =
      rw (missing, get_limit_config, occurs-append left "global" right) refl

  -- A check in memory answers what the bucket of its key answers, and changes no other bucket.
  check_local_limit_lem :
      (now : ℕ) (key other : String) (config : LimitConfig) (m : ToolRateLimiter S)
      → let b =
          Dict.get_default key (new_bucket now config.rate config.capacity) m.local_limiters in
        let (allowed, m') = check_local_limit now key config m in
        (allowed ≡ (consume now 1 b).0)
        × (Dict.get other m'.local_limiters
            ≡ (if key == other then some (consume now 1 b).1 else Dict.get other m.local_limiters))
  unfolding check_local_limit
  check_local_limit_lem now key other config m = (refl, get-put key other _ m.local_limiters)

  -- What follows checks that are all allowed.
  and_then :
      (ToolRateLimiter S → Option String × ToolRateLimiter S)
      → Option String × ToolRateLimiter S
      → Option String × ToolRateLimiter S
  and_then f (refused, m) = elim refused [ some key ↦ (some key, m) | none ↦ f m ]

  and_then_same :
      (f g : ToolRateLimiter S → Option String × ToolRateLimiter S)
      (r : Option String × ToolRateLimiter S)
      → f r.1 ≡ g r.1
      → and_then f r ≡ and_then g r
  unfolding and_then
  and_then_same f g (none, m) h = h
  and_then_same f g (some key, m) h = refl

  module _ (script : Script S) (now : ℕ) where
    -- The limiter after these checks, all of them allowed.
    abbrev pub Passes : List (String × Tool) → ToolRateLimiter S → ToolRateLimiter S → Type 0
    Passes [] m m' = m ≡ m'
    Passes ((key, tool) ∷ checks) m m' =
        ((check_limit script now key tool m).0 ≡ true)
        × Passes checks (check_limit script now key tool m).1 m'

    -- How a row of checks ends: all are allowed, or the first that is refused ends it.
    pub data Row (checks : List (String × Tool)) (m : ToolRateLimiter S)
        (r : Option String × ToolRateLimiter S) : Type 0 where
      passed : r.0 ≡ none → Passes checks m r.1 → Row checks m r
      stopped :
          (before after : List (String × Tool)) (key : String) (tool : Tool)
          (m1 : ToolRateLimiter S)
          → checks ≡ before ++ (key, tool) ∷ after
          → Passes before m m1
          → check_limit script now key tool m1 ≡ (false, r.1)
          → r.0 ≡ some key
          → Row checks m r

    -- The row in one loop.
    unfoldable pub check_row :
        List (String × Tool) → ToolRateLimiter S → Option String × ToolRateLimiter S
    check_row [] m = (none, m)
    check_row ((key, tool) ∷ checks) m =
        let (allowed, m') = check_limit script now key tool m in
        let rest = check_row checks m' in if allowed then rest else (some key, m')

    Row-cons :
        (key : String) (tool : Tool) (checks : List (String × Tool)) (m : ToolRateLimiter S)
        (r : Option String × ToolRateLimiter S)
        → (check_limit script now key tool m).0 ≡ true
        → Row checks (check_limit script now key tool m).1 r
        → Row ((key, tool) ∷ checks) m r
    Row-cons key tool checks m r pass (passed e p) = passed e (pass, p)
    Row-cons key tool checks m r pass (stopped before after k t m1 e p deny refused) =
        stopped ((key, tool) ∷ before) after k t m1 (ap (λ l. (key, tool) ∷ l) e) (pass, p) deny
          refused

    check_row-Row :
        (checks : List (String × Tool)) (m : ToolRateLimiter S) → Row checks m (check_row checks m)
    unfolding check_row
    check_row-Row [] m = passed refl refl
    check_row-Row ((key, tool) ∷ checks) m =
        let c = check_limit script now key tool m in
        elim (Bool-cases c.0) [
          | inl pass ↦
              rw (pass, check_row) (Row-cons key tool checks m _ pass (check_row-Row checks c.1))
          | inr deny ↦
              rw (deny, check_row)
                (stopped [] checks key tool m refl refl (ap (λ x. (x, c.1)) deny) refl)
        ]

    check_row_passes :
        (key : String) (tool : Tool) (checks : List (String × Tool)) (m : ToolRateLimiter S)
        → (check_limit script now key tool m).0 ≡ true
        → check_row ((key, tool) ∷ checks) m
          ≡ check_row checks (check_limit script now key tool m).1
    unfolding check_row
    check_row_passes key tool checks m pass = rw (pass, check_row) refl

    check_keys_passes :
        (key : String) (tool : Tool) (keys : List String) (m : ToolRateLimiter S)
        → (check_limit script now key tool m).0 ≡ true
        → check_keys script now tool (key ∷ keys) m
          ≡ check_keys script now tool keys (check_limit script now key tool m).1
    unfolding check_keys
    check_keys_passes key tool keys m pass = rw (pass, check_keys) refl

    check_row-keys :
        (tool : Tool) (keys : List String) (rest : List (String × Tool)) (m : ToolRateLimiter S)
        → check_row (map (λ key. (key, tool)) keys ++ rest) m
          ≡ and_then (check_row rest) (check_keys script now tool keys m)
    unfolding check_row check_keys and_then
    check_row-keys tool [] rest m = refl
    check_row-keys tool (key ∷ keys) rest m =
        let c = check_limit script now key tool m in
        elim (Bool-cases c.0) [
          | inl pass ↦
              check_row_passes key tool (map (λ k. (k, tool)) keys ++ rest) m pass
              ∙ check_row-keys tool keys rest c.1
              ∙ ap (and_then (check_row rest)) (sym (check_keys_passes key tool keys m pass))
          | inr deny ↦ rw (deny, check_row, check_keys) refl
        ]

    check_limits-row :
        (user tenant : String) (tools : List Tool) (m : ToolRateLimiter S)
        → check_limits script now user tenant tools m ≡ check_row (all_checks user tenant tools) m
    unfolding check_limits all_checks check_row and_then tool_keys
    check_limits-row user tenant [] m = refl
    check_limits-row user tenant (tool ∷ tools) m =
        let k = check_keys script now tool (tool_keys user tenant tool) m in
        and_then_same (check_limits script now user tenant tools)
          (check_row (all_checks user tenant tools)) k (check_limits-row user tenant tools k.1)
        ∙ sym (check_row-keys tool (tool_keys user tenant tool) (all_checks user tenant tools) m)

    -- A call of tools is checked tool by tool, each under the key "tool:global:" with its name, then
    -- under that of the tenant, then under that of the user: either all these checks are allowed, or
    -- the first that is not ends the call with its key, and what the checks before it took stays
    -- taken.
    pub check_limits-Row :
        (user tenant : String) (tools : List Tool) (m : ToolRateLimiter S)
        → Row (all_checks user tenant tools) m (check_limits script now user tenant tools m)
    check_limits-Row user tenant tools m =
        rw (check_limits-row user tenant tools m) (check_row-Row (all_checks user tenant tools) m)
