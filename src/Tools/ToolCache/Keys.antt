-- ===== src/Tools/ToolCache/Keys.antt =====
-- The keys of src/tools/tool_cache.py in Redis: "cache:" and "tag:" before a text.
use Prim.Native.Char.{code}
use text.Mathlib.TextLemmas.{append_cancel_left, cons-append}
use cyber_security_platform.Prelude.{
  ℕ, String, none, List, [], ◌∷◌, ◌≡◌, ◌≢◌, refl, ◌∙◌, arith, if◌then◌else◌, ◌==◌, String-IsKey,
  same-ne, ne-same, same_sym, sym, ap, Bool-cases, inl, inr, contains,
}
use cyber_security_platform.Tools.ToolCache.{Redis, cache_key, tag_key, tagged, delete_all}

first : String → ℕ
first String.[] = 0
first (String.◌∷◌ c s) = code c

first-cache_key : (k : String) → first (cache_key k) ≡ b'c'
unfolding first
first-cache_key k = rw cons-append refl

first-tag_key : (t : String) → first (tag_key t) ≡ b't'
unfolding first
first-tag_key t = rw cons-append refl

pub tag_key-ne-cache_key : (t k : String) → tag_key t ≢ cache_key k
tag_key-ne-cache_key t k e = omega (arith, sym (first-tag_key t) ∙ ap first e ∙ first-cache_key k)

pub cache_key_same : (k j : String) → (cache_key k == cache_key j) ≡ (k == j)
cache_key_same k j = elim (Bool-cases (k == j)) [
  | inl same ↦
      (String-IsKey.same_iff _ _).1 (ap cache_key ((String-IsKey.same_iff k j).0 same)) ∙ sym same
  | inr other ↦ same-ne (λ e. ne-same other (append_cancel_left "cache:" k j e)) ∙ sym other
]

module _ {S : Type 0} (server : Redis S) where
  -- Tags leave the values alone.
  pub get-tagged :
      (now later ttl : ℕ) (key j : String) (tags : List String) (s : S)
      → server.get later (cache_key j) (tagged server now key ttl tags s)
        ≡ server.get later (cache_key j) s
  unfolding tagged
  get-tagged now later ttl key j [] s = refl
  get-tagged now later ttl key j (t ∷ tags) s =
      get-tagged now later ttl key j tags _
      ∙ server.get-expire now later (tag_key t) (cache_key j) ttl _ (tag_key-ne-cache_key t j)
      ∙ server.get-sadd later (tag_key t) (cache_key j) key s (tag_key-ne-cache_key t j)

  -- A deletion of several values.
  pub get-delete_all :
      (now : ℕ) (j : String) (ks : List String) (s : S)
      → server.get now (cache_key j) (delete_all server ks s)
        ≡ (if contains j ks then none else server.get now (cache_key j) s)
  unfolding delete_all contains
  get-delete_all now j [] s = refl
  get-delete_all now j (k ∷ ks) s = ground (
    arith,
    get-delete_all now j ks (server.delete (cache_key k) s),
    server.get-delete now (cache_key k) (cache_key j) s,
    cache_key_same k j,
    same_sym k j,
  )
