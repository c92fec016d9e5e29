-- ===== src/Tools/ToolCache.antt =====
-- src/tools/tool_cache.py. Redis is an interface, `Redis`: the commands that the cache sends at a
-- reading of the clock, and what it relies on. `V` is the type of the values, `Json` their texts. A
-- method reads the clock once. A pipeline sends its commands one after the other.
pub mod Keys
pub mod Fresh
pub mod Invalidation
mod Samples
use Prim.Native.String.{◌++◌ as append}
use cyber_security_platform.Prelude.{
  ℕ, ◌+◌, ◌*◌, ◌/◌, ◌≤◌, min, String, Bool, true, false, Option, none, some, List, [], ◌∷◌, ◌≡◌,
  ◌≢◌, ltb, if◌then◌else◌, length, ◌==◌, String-IsKey,
}
use cyber_security_platform.Prelude.Dict
use cyber_security_platform.Prelude.Dict.{Dict}

-- Microseconds.
abbrev pub second : ℕ
second = 1000000

-- `json.dumps` and `json.loads`, where none is JSONDecodeError. The text of a value is not empty.
pub record Json (V : Type 0) : Type 0 where
  pub dumps : V → String
  pub loads : String → Option V
  pub loads-dumps : (v : V) → loads (dumps v) ≡ some v
  pub dumps-ne : (v : V) → (dumps v == "") ≡ false

-- Redis: `setex` is none for the ResponseError of a time that is not positive.
pub record Redis (S : Type 0) : Type 0 where
  pub get : (now : ℕ) → String → S → Option String
  pub setex : (now : ℕ) → String → (ttl : ℕ) → String → S → Option S
  pub delete : String → S → S
  pub sadd : String → String → S → S
  pub expire : (now : ℕ) → String → ℕ → S → S
  pub smembers : (now : ℕ) → String → S → List String
  pub flushdb : S → S
  pub setex_positive :
      (now : ℕ) (k : String) (ttl : ℕ) (t : String) (s : S)
      → 1 ≤ ttl
      → (s' : S) × (setex now k ttl t s ≡ some s')
  pub get-setex :
      (now later : ℕ) (k j : String) (ttl : ℕ) (t : String) (s s' : S)
      → now ≤ later
      → setex now k ttl t s ≡ some s'
      → get later j s' ≡ (
          if k == j
          then if ltb later (now + ttl * 1000000) then some t else none
          else get later j s)
  pub get-delete :
      (now : ℕ) (k j : String) (s : S)
      → get now j (delete k s) ≡ (if k == j then none else get now j s)
  pub get-sadd : (now : ℕ) (k j m : String) (s : S) → k ≢ j → get now j (sadd k m s) ≡ get now j s
  pub get-expire :
      (now later : ℕ) (k j : String) (ttl : ℕ) (s : S)
      → k ≢ j
      → get later j (expire now k ttl s) ≡ get later j s
  pub get-flushdb : (now : ℕ) (j : String) (s : S) → get now j (flushdb s) ≡ none

pub record Entry (V : Type 0) : Type 0 where
  pub value : V
  pub expires_at : ℕ

pub record Stats : Type 0 where
  pub hits : ℕ
  pub misses : ℕ
  pub sets : ℕ
  pub invalidations : ℕ

pub record ToolCache (V S : Type 0) : Type 0 where
  pub redis : Option S
  pub local_cache : Dict String (Entry V)
  pub stats : Stats

abbrev pub new_cache : (V S : Type 0) → Option S → ToolCache V S
new_cache V S redis = record {
  redis = redis;
  local_cache = [];
  stats = record { hits = 0; misses = 0; sets = 0; invalidations = 0 };
}

abbrev pub hit : Stats → Stats
hit s = record s { hits = s.hits + 1 }

abbrev pub missed : Stats → Stats
missed s = record s { misses = s.misses + 1 }

-- `hit_rate`, the share of hits in percent, rounded down.
unfoldable pub hit_rate : Stats → ℕ
hit_rate s = if ltb 0 (s.hits + s.misses) then s.hits * 100 / (s.hits + s.misses) else 0

abbrev pub cache_key : String → String
cache_key key = append "cache:" key

abbrev pub tag_key : String → String
tag_key tag = append "tag:" tag

module _ {V S : Type 0} where
  abbrev pub miss : ToolCache V S → Option V × ToolCache V S
  miss c = (none, record c { stats = missed c.stats })

  -- A value that Redis gave is kept for a minute.
  abbrev pub keep : (now : ℕ) → String → V → ToolCache V S → ToolCache V S
  keep now key v c = record c {
    stats = hit c.stats;
    local_cache = Dict.put key (record { value = v; expires_at = now + 60 * second }) c.local_cache;
  }

  abbrev pub set_local : (now : ℕ) → String → V → (ttl : ℕ) → ToolCache V S → ToolCache V S
  set_local now key v ttl c = record c {
    local_cache =
        Dict.put key (record { value = v; expires_at = now + min ttl 60 * second }) c.local_cache;
    stats = record (c.stats) { sets = c.stats.sets + 1 };
  }

  unfoldable pub get_stats : ToolCache V S → Stats × ℕ × ℕ
  unfolding hit_rate
  get_stats c = (c.stats, hit_rate c.stats, length c.local_cache)

abbrev pub pop_all : {V : Type 0} → List String → Dict String (Entry V) → Dict String (Entry V)
pop_all [] d = d
pop_all (k ∷ ks) d = pop_all ks (Dict.remove k d)

module _ {S : Type 0} (server : Redis S) where
  -- The loop over the tags.
  unfoldable pub tagged : (now : ℕ) → String → (ttl : ℕ) → List String → S → S
  tagged now key ttl [] s = s
  tagged now key ttl (tag ∷ tags) s =
      tagged now key ttl tags
        (server.expire now (tag_key tag) ttl (server.sadd (tag_key tag) key s))

  -- The commands of the pipeline.
  unfoldable pub delete_all : List String → S → S
  delete_all [] s = s
  delete_all (k ∷ ks) s = delete_all ks (server.delete (cache_key k) s)

module _ {V S : Type 0} (json : Json V) (server : Redis S) where
  -- The part of `get` behind the test of the local cache.
  unfoldable pub fetch : (now : ℕ) → String → ToolCache V S → Option V × ToolCache V S
  fetch now key c = elim c.redis [
    | none ↦ miss c
    | some s ↦ elim (server.get now (cache_key key) s) [
      | none ↦ miss c
      | some t ↦
          if t == ""
          then miss c
          else elim (json.loads t) [ none ↦ miss c | some v ↦ (some v, keep now key v c) ]
    ]
  ]

  unfoldable pub get : (now : ℕ) → String → ToolCache V S → Option V × ToolCache V S
  unfolding fetch
  get now key c = elim (Dict.get key c.local_cache) [
    | none ↦ fetch now key c
    | some e ↦
        if ltb now e.expires_at
        then (some e.value, record c { stats = hit c.stats })
        else fetch now key (record c { local_cache = Dict.remove key c.local_cache })
  ]

  -- None is the ResponseError of Redis, before anything is stored.
  unfoldable pub set :
      (now : ℕ) → String → V → (ttl : ℕ) → List String → ToolCache V S → Option (ToolCache V S)
  unfolding tagged
  set now key v ttl tags c = elim c.redis [
    | none ↦ some (set_local now key v ttl c)
    | some s ↦ elim (server.setex now (cache_key key) ttl (json.dumps v) s) [
      | none ↦ none
      | some s' ↦
          some (
            set_local now key v ttl (record c { redis = some (tagged server now key ttl tags s') }))
    ]
  ]

  unfoldable pub invalidate : String → ToolCache V S → ToolCache V S
  invalidate key c = record c {
    redis = elim c.redis [ none ↦ none | some s ↦ some (server.delete (cache_key key) s) ];
    local_cache = Dict.remove key c.local_cache;
    stats = record (c.stats) { invalidations = c.stats.invalidations + 1 };
  }

  unfoldable pub invalidate_by_tag : (now : ℕ) → String → ToolCache V S → ToolCache V S
  unfolding delete_all
  invalidate_by_tag now tag c = elim c.redis [
    | none ↦ c
    | some s ↦ elim (server.smembers now (tag_key tag) s) [
      | [] ↦ c
      | k ∷ ks ↦ record c {
        redis = some (server.delete (tag_key tag) (delete_all server (k ∷ ks) s));
        local_cache = pop_all (k ∷ ks) c.local_cache;
        stats = record (c.stats) { invalidations = c.stats.invalidations + length (k ∷ ks) };
      }
    ]
  ]

  -- `falsy` is Python's test of an empty dict, `value` what `compute_func` returns. The answer says
  -- whether it is called, after which it is `later`; none is the ResponseError of `set`.
  unfoldable pub get_or_compute :
      (falsy : V → Bool) (now later : ℕ)
      → String
      → (value : V) (ttl : ℕ) → List String
      → ToolCache V S
      → Option (V × Bool × ToolCache V S)
  unfolding get set
  get_or_compute falsy now later key value ttl tags c =
      let (cached, c1) = get now key c in
      let computed : Option (V × Bool × ToolCache V S) = elim (set later key value ttl tags c1) [
        | none ↦ none
        | some c2 ↦ some (value, true, c2)
      ] in
      elim cached [ none ↦ computed | some v ↦ if falsy v then computed else some (v, false, c1) ]

  unfoldable pub clear : ToolCache V S → ToolCache V S
  clear c = record c {
    redis = elim c.redis [ none ↦ none | some s ↦ some (server.flushdb s) ];
    local_cache = [];
  }
