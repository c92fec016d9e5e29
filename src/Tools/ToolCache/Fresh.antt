-- ===== src/Tools/ToolCache/Fresh.antt =====
-- What `get` of src/tools/tool_cache.py answers, and how long a value is found.
use cyber_security_platform.Prelude.{
  ℕ, ◌+◌, ◌*◌, ◌≤◌, ◌<◌, min, String, Bool, true, false, Option, none, some, List, ◌≡◌, refl, sym,
  ◌∙◌, ap, arith, ltb, lt→ltb, if◌then◌else◌, ◌==◌, String-IsKey, same_refl, if_true,
}
use cyber_security_platform.Prelude.Dict
use cyber_security_platform.Prelude.Dict.{Dict, get-put_self}
use cyber_security_platform.Tools.ToolCache.{
  second, Json, Redis, Entry, ToolCache, cache_key, set_local, fetch, get, tagged, set,
}
use cyber_security_platform.Tools.ToolCache.Keys.{get-tagged}

module _ {V S : Type 0} (json : Json V) (server : Redis S) where
  -- The text of a key in Redis, and the value that it encodes.
  unfoldable pub text_of : (now : ℕ) → String → Option S → Option String
  text_of now key none = none
  text_of now key (some s) = server.get now (cache_key key) s

  unfoldable pub parsed : Option String → Option V
  parsed none = none
  parsed (some t) = if t == "" then none else json.loads t

  -- The local entry while it lasts, else what Redis has.
  unfoldable pub read : (now : ℕ) → Option (Entry V) → Option String → Option V
  unfolding parsed
  read now none t = parsed t
  read now (some e) t = if ltb now e.expires_at then some e.value else parsed t

  fetch-parsed :
      (now : ℕ) (key : String) (c : ToolCache V S)
      → (fetch json server now key c).0 ≡ parsed (text_of now key c.redis)
  unfolding fetch text_of parsed
  fetch-parsed now key c = ground arith

  -- What `get` answers.
  pub get-read :
      (now : ℕ) (key : String) (c : ToolCache V S)
      → (get json server now key c).0
        ≡ read now (Dict.get key c.local_cache) (text_of now key c.redis)
  unfolding get read
  get-read now key c =
      let c' = record c { local_cache = Dict.remove key c.local_cache } in
      ground (arith, fetch-parsed now key c, fetch-parsed now key c')

  parsed-dumps : (v : V) → parsed (some (json.dumps v)) ≡ some v
  unfolding parsed
  parsed-dumps v = rw (json.dumps-ne v, parsed) (json.loads-dumps v)

  parsed-if :
      (b : Bool) (v : V)
      → parsed (if b then some (json.dumps v) else none) ≡ (if b then some v else none)
  parsed-if true v = parsed-dumps v
  parsed-if false v = unfold parsed in refl

  -- What a value is found as after its entry is made.
  read-entry :
      (now later ttl : ℕ) (v : V) (t : Option String)
      → parsed t ≡ (if ltb later (now + ttl * second) then some v else none)
      → read later (some (record { value = v; expires_at = now + min ttl 60 * second })) t
        ≡ (if ltb later (now + ttl * second) then some v else none)
  unfolding read
  read-entry now later ttl v t h = ground arith

  pub get-set :
      (now : ℕ) (key : String) (v : V) (ttl : ℕ) (tags : List String) (c : ToolCache V S) (s : S)
      → 1 ≤ ttl
      → c.redis ≡ some s
      → (c' : ToolCache V S) × (set json server now key v ttl tags c ≡ some c')
        × ((later : ℕ)
            → now ≤ later
            → (get json server later key c').0
              ≡ (if ltb later (now + ttl * second) then some v else none))
  unfolding set text_of
  get-set now key v ttl tags c s one there =
      let (s', stored) = server.setex_positive now (cache_key key) ttl (json.dumps v) s one in
      let c' =
        set_local now key v ttl (record c { redis = some (tagged server now key ttl tags s') }) in
      (
        c',
        rw (there, set, stored) refl,
        λ later after.
            let found : server.get later (cache_key key) (tagged server now key ttl tags s')
                ≡ (if ltb later (now + ttl * second) then some (json.dumps v) else none) =
              get-tagged server now later ttl key key tags s'
              ∙ server.get-setex now later (cache_key key) (cache_key key) ttl (json.dumps v) s s'
                  after stored
              ∙ if_true _ _ _ (same_refl (cache_key key)) in
            (get-read later key c'
              ∙ ap (λ o. read later o (text_of later key c'.redis))
                  (get-put_self key _ c.local_cache)
              ∙ read-entry now later ttl v _
                  (ap parsed found ∙ parsed-if (ltb later (now + ttl * second)) v)),
      )

  fetch_kept :
      (now : ℕ) (key : String) (c : ToolCache V S) (v : V)
      → (fetch json server now key c).0 ≡ some v
      → Dict.get key (fetch json server now key c).1.local_cache
        ≡ some (record { value = v; expires_at = now + 60 * second })
  unfolding fetch
  fetch_kept now key c v h =
      ground (
        arith,
        get-put_self key (record { value = v; expires_at = now + 60 * second }) c.local_cache,
      )

  get_unknown :
      (now : ℕ) (key : String) (c : ToolCache V S)
      → Dict.get key c.local_cache ≡ none
      → get json server now key c ≡ fetch json server now key c
  unfolding get
  get_unknown now key c nothing = rw (nothing, get) refl

  get_local :
      (now : ℕ) (key : String) (c : ToolCache V S) (e : Entry V)
      → Dict.get key c.local_cache ≡ some e
      → now < e.expires_at
      → (get json server now key c).0 ≡ some e.value
  unfolding get
  get_local now key c e there soon = rw (there, get, lt→ltb now e.expires_at soon) refl

  -- A value that `get` takes from Redis, since no local entry is there, is what it gives for the next
  -- minute, whatever Redis holds by then, and if it has been lost or left.
  pub get_kept :
      (now later : ℕ) (key : String) (c : ToolCache V S) (v : V)
      → Dict.get key c.local_cache ≡ none
      → (get json server now key c).0 ≡ some v
      → later < now + 60 * second
      → (redis : Option S)
      → (get json server later key (record ((get json server now key c).1) { redis = redis })).0
        ≡ some v
  get_kept now later key c v nothing given soon redis =
      let same = get_unknown now key c nothing in
      get_local later key _ (record { value = v; expires_at = now + 60 * second })
        (ap (λ r. Dict.get key r.1.local_cache) same
          ∙ fetch_kept now key c v (sym (ap (λ r. r.0) same) ∙ given))
        soon
