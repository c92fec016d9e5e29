-- ===== src/Tools/ToolCache/Invalidation.antt =====
-- What is found after an invalidation by src/tools/tool_cache.py, and what `get_or_compute` gives.
use cyber_security_platform.Prelude.{
  ℕ, ◌+◌, ◌*◌, ◌≤◌, String, Bool, true, false, Option, none, some, List, [], ◌∷◌, ◌≡◌, refl, sym,
  ◌∙◌, ap, arith, lt→ltb, if◌then◌else◌, ◌==◌, String-IsKey, Bool-cases, Option-cases, List-cases,
  inl, inr, same_sym, same-ne, if_true, if_false, contains,
}
use cyber_security_platform.Prelude.Dict
use cyber_security_platform.Prelude.Dict.{Dict, get-remove}
use cyber_security_platform.Tools.ToolCache.{
  second, Json, Redis, Entry, ToolCache, cache_key, tag_key, pop_all, get, fetch, invalidate,
  delete_all, invalidate_by_tag, get_or_compute,
}
use cyber_security_platform.Tools.ToolCache.Keys.{
  cache_key_same, tag_key-ne-cache_key, get-delete_all,
}
use cyber_security_platform.Tools.ToolCache.Fresh.{text_of, parsed, read, get-read, get-set}

get-pop_all :
    {V : Type 0} (j : String) (ks : List String) (d : Dict String (Entry V))
    → Dict.get j (pop_all ks d) ≡ (if contains j ks then none else Dict.get j d)
unfolding contains
get-pop_all j [] d = refl
get-pop_all j (k ∷ ks) d =
    ground (arith, get-pop_all j ks (Dict.remove k d), get-remove k j d, same_sym k j)

module _ {V S : Type 0} (json : Json V) (server : Redis S) where
  -- A key that is gone from both is not found, another one is found as before.
  read-gone :
      (now : ℕ) (b : Bool) (e e' : Option (Entry V)) (t t' : Option String)
      → e' ≡ (if b then none else e)
      → t' ≡ (if b then none else t)
      → read json server now e' t' ≡ (if b then none else read json server now e t)
  unfolding read parsed
  read-gone now b e e' t t' he ht = ground arith

  get-gone :
      (now : ℕ) (j : String) (b : Bool) (c c' : ToolCache V S)
      → Dict.get j c'.local_cache ≡ (if b then none else Dict.get j c.local_cache)
      → text_of json server now j c'.redis ≡ (if b then none else text_of json server now j c.redis)
      → (get json server now j c').0 ≡ (if b then none else (get json server now j c).0)
  get-gone now j b c c' he ht =
      get-read json server now j c'
      ∙ read-gone now b _ _ _ _ he ht
      ∙ ap (λ r. if b then none else r) (sym (get-read json server now j c))

  text_of-invalidate :
      (now : ℕ) (key j : String) (redis : Option S)
      → text_of json server now j
          (elim redis [ none ↦ none | some s ↦ some (server.delete (cache_key key) s) ])
        ≡ (if key == j then none else text_of json server now j redis)
  unfolding text_of
  text_of-invalidate now key j none = ground arith
  text_of-invalidate now key j (some s) =
      ground (arith, server.get-delete now (cache_key key) (cache_key j) s, cache_key_same key j)

  -- After the invalidation of a key, `get` finds nothing under it, and under every other key what it
  -- would have found before.
  pub get-invalidate :
      (now : ℕ) (key j : String) (c : ToolCache V S)
      → (get json server now j (invalidate json server key c)).0
        ≡ (if key == j then none else (get json server now j c).0)
  unfolding invalidate
  get-invalidate now key j c =
      get-gone now j (key == j) c (invalidate json server key c) (get-remove key j c.local_cache)
        (text_of-invalidate now key j c.redis)

  text_of-untagged :
      (now : ℕ) (tag j : String) (ks : List String) (s : S)
      → text_of json server now j (some (server.delete (tag_key tag) (delete_all server ks s)))
        ≡ (if contains j ks then none else text_of json server now j (some s))
  unfolding text_of
  text_of-untagged now tag j ks s =
      server.get-delete now (tag_key tag) (cache_key j) (delete_all server ks s)
      ∙ if_false _ _ _ (same-ne (tag_key-ne-cache_key tag j))
      ∙ get-delete_all server now j ks s

  untagged :
      (now : ℕ) (tag : String) (c : ToolCache V S) (s : S)
      → c.redis ≡ some s
      → server.smembers now (tag_key tag) s ≡ []
      → invalidate_by_tag json server now tag c ≡ c
  unfolding invalidate_by_tag
  untagged now tag c s there nobody = ground arith

  -- After the invalidation of a tag, `get` finds nothing under the keys that Redis has in its set, and
  -- under every other key what it would have found before.
  pub get-invalidate_by_tag :
      (now later : ℕ) (tag j : String) (c : ToolCache V S) (s : S)
      → c.redis ≡ some s
      → (get json server later j (invalidate_by_tag json server now tag c)).0 ≡ (
          if contains j (server.smembers now (tag_key tag) s)
          then none
          else (get json server later j c).0)
  unfolding invalidate_by_tag contains
  get-invalidate_by_tag now later tag j c s there =
      elim (List-cases (server.smembers now (tag_key tag) s)) [
        | inl nobody ↦
            rw nobody (ap (λ x. (get json server later j x).0) (untagged now tag c s there nobody))
        | inr (k, ks, members) ↦ rw (members) (
            get-gone later j (contains j (k ∷ ks)) c (invalidate_by_tag json server now tag c)
              (rw (there, invalidate_by_tag, members) (get-pop_all j (k ∷ ks) c.local_cache))
              (rw (there, invalidate_by_tag, members) (text_of-untagged later tag j (k ∷ ks) s)))
      ]

  -- The answer that `get_or_compute` takes from the cache: a value that is not empty.
  unfoldable pub usable : (falsy : V → Bool) → Option V → Option V
  usable falsy none = none
  usable falsy (some v) = if falsy v then none else some v

  get-redis :
      (now : ℕ) (key : String) (c : ToolCache V S) → (get json server now key c).1.redis ≡ c.redis
  unfolding get fetch
  get-redis now key c = ground arith

  -- What `get_or_compute` does.
  pub data Answered (falsy : V → Bool) (later : ℕ) (key : String) (value : V) (ttl : ℕ)
      (cached : Option V) (r : Option (V × Bool × ToolCache V S)) : Type 0 where
    taken :
        (v : V) (c' : ToolCache V S)
        → cached ≡ some v
        → falsy v ≡ false
        → r ≡ some (v, false, c')
        → Answered falsy later key value ttl cached r
    computed :
        (c' : ToolCache V S)
        → usable falsy cached ≡ none
        → r ≡ some (value, true, c')
        → (get json server later key c').0 ≡ some value
        → Answered falsy later key value ttl cached r

  -- With Redis and a positive time to live, `get_or_compute` gives a value that is in the cache and
  -- is not empty, without a computation; else it computes the value, gives it, and `get` finds it.
  pub get_or_compute-Answered :
      (falsy : V → Bool) (now later : ℕ) (key : String) (value : V) (ttl : ℕ) (tags : List String)
      (c : ToolCache V S) (s : S)
      → 1 ≤ ttl
      → c.redis ≡ some s
      → Answered falsy later key value ttl
          (get json server now key c).0
          (get_or_compute json server falsy now later key value ttl tags c)
  unfolding get_or_compute usable
  get_or_compute-Answered falsy now later key value ttl tags c s one there =
      let (cached, c1) = get json server now key c in
      let (c2, stored, found) =
        get-set json server later key value ttl tags c1 s one (get-redis now key c ∙ there) in
      let fresh : (get json server later key c2).0 ≡ some value =
        found later (omega arith)
        ∙ if_true _ _ _ (lt→ltb later (later + ttl * second) (omega (arith, one))) in
      elim (Option-cases (get json server now key c).0) [
        | inl missing ↦
            computed c2 (rw (missing, usable)) (rw (get_or_compute, missing, stored) refl) fresh
        | inr (v, there) ↦ elim (Bool-cases (falsy v)) [
          | inl blank ↦
              computed c2 (rw (there, usable, blank))
                (rw (get_or_compute, there, blank, stored) refl) fresh
          | inr kept ↦ taken v c1 there kept (rw (get_or_compute, there, kept) refl)
        ]
      ]
