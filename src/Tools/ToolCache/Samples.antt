-- ===== src/Tools/ToolCache/Samples.antt =====
-- The tool cache on small inputs, with dicts for Redis and a mark before a text for JSON.
use text.Mathlib.TextLemmas.{cons-ne-nil}
use cyber_security_platform.Prelude.{
  ℕ, ◌+◌, ◌*◌, ◌≤◌, String, Bool, Option, none, some, List, [], ◌∷◌, ◌++◌, ◌≡◌, refl, arith, ltb,
  nat_beq, if◌then◌else◌, ◌==◌, String-IsKey, same-ne, contains, if_false,
}
use cyber_security_platform.Prelude.Dict
use cyber_security_platform.Prelude.Dict.{Dict, get-put, get-remove}
use cyber_security_platform.Tools.ToolCache.{
  Json, Redis, ToolCache, new_cache, cache_key, tag_key, tagged, fetch, get, set, delete_all,
  invalidate_by_tag, get_or_compute,
}
use cyber_security_platform.Tools.ToolCache.Fresh.{get_kept}
use cyber_security_platform.Tools.ToolCache.Invalidation.{
  usable, Answered, get-invalidate_by_tag, get_or_compute-Answered,
}

program : Unit {0}
unfolding Dict.get Dict.put Dict.remove Dict.get_default contains tagged fetch get set delete_all
    invalidate_by_tag get_or_compute usable
program = tt

abbrev unmark : String → Option String
unmark String.[] = none
unmark (String.◌∷◌ c s) = some s

abbrev json : Json String
json = record {
  dumps = λ v. String.◌∷◌ "=" v;
  loads = unmark;
  loads-dumps = λ v. refl;
  dumps-ne = λ v. same-ne (cons-ne-nil "=" v);
}

record Server : Type 0 where
  texts : Dict String (String × ℕ)
  sets : Dict String (List String)

abbrev alive : ℕ → Option (String × ℕ) → Option String
alive now none = none
alive now (some (t, over)) = if ltb now over then some t else none

abbrev setex_at : ℕ → String → ℕ → String → Server → Option Server
setex_at now k ttl t s =
    if nat_beq ttl 0
    then none
    else some (record s { texts = Dict.put k (t, now + ttl * 1000000) s.texts })

setex_at_positive :
    (now : ℕ) (k : String) (ttl : ℕ) (t : String) (s : Server)
    → 1 ≤ ttl
    → (s' : Server) × (setex_at now k ttl t s ≡ some s')
setex_at_positive now k ttl t s one = (_, if_false (nat_beq ttl 0) none _ (ground arith))

get_setex_at :
    (now later : ℕ) (k j : String) (ttl : ℕ) (t : String) (s s' : Server)
    → setex_at now k ttl t s ≡ some s'
    → alive later (Dict.get j s'.texts) ≡ (
        if k == j
        then if ltb later (now + ttl * 1000000) then some t else none
        else alive later (Dict.get j s.texts))
get_setex_at now later k j ttl t s s' stored =
    ground (arith, get-put k j (t, now + ttl * 1000000) s.texts)

get_deleted :
    (now : ℕ) (k j : String) (s : Server)
    → alive now (Dict.get j (Dict.remove k s.texts))
      ≡ (if k == j then none else alive now (Dict.get j s.texts))
get_deleted now k j s = ground (arith, get-remove k j s.texts)

nothing_left : (now : ℕ) (j : String) (s : Server) → alive now (Dict.get j []) ≡ none
unfolding Dict.get
nothing_left now j s = refl

abbrev server : Redis Server
server = record {
  get = λ now k s. alive now (Dict.get k s.texts);
  setex = setex_at;
  delete = λ k s. record { texts = Dict.remove k s.texts; sets = Dict.remove k s.sets };
  sadd = λ k m s. record s { sets = Dict.put k (Dict.get_default k [] s.sets ++ m ∷ []) s.sets };
  expire = λ now k ttl s. s;
  smembers = λ now k s. Dict.get_default k [] s.sets;
  flushdb = λ s. record { texts = []; sets = [] };
  setex_positive = setex_at_positive;
  get-setex = λ now later k j ttl t s s' after stored. get_setex_at now later k j ttl t s s' stored;
  get-delete = λ now k j s. get_deleted now k j s;
  get-sadd = λ now k j m s h. refl;
  get-expire = λ now later k j ttl s h. refl;
  get-flushdb = nothing_left;
}

abbrev start : ToolCache String Server
start = new_cache String Server (some (record { texts = []; sets = [] }))

abbrev filled : Option (ToolCache String Server) → ToolCache String Server
filled none = start
filled (some c) = c

-- "a" is set with a tag, "b" without one.
abbrev both : ToolCache String Server
both =
    filled
      (set json server 6 "b" "y" 90 [] (filled (set json server 5 "a" "x" 90 ("t" ∷ []) start)))

abbrev shared : Server
shared = record {
  texts = (cache_key "a", ("=x", 90000005)) ∷ (cache_key "b", ("=y", 90000006)) ∷ [];
  sets = (tag_key "t", "a" ∷ []) ∷ [];
}

both_redis : both.redis ≡ some shared
unfolding program
both_redis = refl

tagged_gone : (get json server 7 "a" (invalidate_by_tag json server 7 "t" both)).0 ≡ none
unfolding program
tagged_gone = refl

other_kept : (get json server 7 "b" (invalidate_by_tag json server 7 "t" both)).0 ≡ some "y"
unfolding program
other_kept = refl

get-invalidate_by_tag_example :
    (get json server 7 "b" (invalidate_by_tag json server 7 "t" both)).0 ≡ (
      if contains "b" (server.smembers 7 (tag_key "t") shared)
      then none
      else (get json server 7 "b" both).0)
get-invalidate_by_tag_example = get-invalidate_by_tag json server 7 7 "t" "b" both shared both_redis

abbrev is_blank : String → Bool
is_blank v = v == ""

get_or_compute-Answered_example :
    Answered json server is_blank 9 "a" "z" 90
      (get json server 8 "a" both).0
      (get_or_compute json server is_blank 8 9 "a" "z" 90 [] both)
get_or_compute-Answered_example =
    get_or_compute-Answered json server is_blank 8 9 "a" "z" 90 [] both shared (omega arith)
      both_redis

-- Another process has read nothing yet.
abbrev other : ToolCache String Server
other = new_cache String Server (some shared)

other_reads : (get json server 80000000 "a" other).0 ≡ some "x"
unfolding program
other_reads = refl

other_unread : Dict.get "a" other.local_cache ≡ none
unfolding program
other_unread = refl

get_kept_example :
    (get json server 120000000 "a"
      (record ((get json server 80000000 "a" other).1) { redis = none })).0
    ≡ some "x"
get_kept_example =
    get_kept json server 80000000 120000000 "a" other "x" other_unread other_reads (omega arith)
      none
