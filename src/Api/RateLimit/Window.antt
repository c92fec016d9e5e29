-- ===== src/Api/RateLimit/Window.antt =====
-- The log in memory of src/api/middleware/rate_limit.py counts the requests of the last period.
use cyber_security_platform.Prelude.{
  ℕ, ◌+◌, ◌≤◌, String, Bool, true, false, Option, none, some, List, [], ◌∷◌, ◌++◌, ltb,
  if◌then◌else◌, ◌≡◌, refl, ap, sym, ◌∙◌, arith, length, filter_by, String-IsKey, ◌==◌,
  length-append, Bool-cases, inl, inr, if_false,
}
use mathlib.Core.List.{append_assoc, append-nil}
use cyber_security_platform.Prelude.Dict
use cyber_security_platform.Prelude.Dict.{get_default-put, get_default-put_self}
use cyber_security_platform.Api.RateLimit.{
  Limit, Storage, span, is_recent, check_memory_limit, passed, exceeded, verdict, check_limit,
  token_bucket, parse_period,
}

-- A call of `_check_limit`: its time and its key. Each key has one limit.
abbrev pub Request : Type 0
Request = ℕ × String

module _ (limit_of : String → Limit) where
  unfoldable pub storage_after : List Request → Storage → Storage
  storage_after [] storage = storage
  storage_after ((now, key) ∷ requests) storage =
      storage_after requests (check_limit now key (limit_of key) storage).1

-- The times of the requests of a key.
abbrev pub times_of : String → List Request → List ℕ
times_of key [] = []
times_of key (r ∷ requests) =
    if r.1 == key then r.0 ∷ times_of key requests else times_of key requests

-- The times do not fall, from `t` on.
abbrev pub IsOrdered : ℕ → List Request → Type 0
IsOrdered t [] = Unit
IsOrdered t (r ∷ requests) = (t ≤ r.0) × IsOrdered r.0 requests

abbrev pub last_time : ℕ → List Request → ℕ
last_time t [] = t
last_time t (r ∷ requests) = last_time r.0 requests

-- Cleaning at a later time makes up for cleaning before.
filter_recent :
    (period before now : ℕ) (ts : List ℕ)
    → before ≤ now
    → filter_by (is_recent period now) (filter_by (is_recent period before) ts)
      ≡ filter_by (is_recent period now) ts
filter_recent period before now [] h = refl
filter_recent period before now (t ∷ ts) h = ground (arith, filter_recent period before now ts h)

filter_append :
    (p : ℕ → Bool) (xs ys : List ℕ) → filter_by p (xs ++ ys) ≡ filter_by p xs ++ filter_by p ys
filter_append p [] ys = refl
filter_append p (x ∷ xs) ys = ground (arith, filter_append p xs ys)

module _ (limit_of : String → Limit) (key : String) where
  abbrev recent : ℕ → List ℕ → List ℕ
  recent now = filter_by (is_recent (span (limit_of key)) now)

  -- From `t` on, the log of the key shows what the times of all requests show.
  abbrev Shows : List ℕ → ℕ → Storage → Type 0
  Shows times t storage =
      (now : ℕ) → t ≤ now → recent now (Dict.get_default key [] storage) ≡ recent now times

  log-check_limit :
      (now : ℕ) (storage : Storage)
      → Dict.get_default key [] (check_limit now key (limit_of key) storage).1
        ≡ recent now (Dict.get_default key [] storage) ++ now ∷ []
  unfolding check_limit check_memory_limit
  log-check_limit now storage = get_default-put_self key [] _ storage

  log_other :
      (now : ℕ) (k : String) (storage : Storage)
      → (k == key) ≡ false
      → Dict.get_default key [] (check_limit now k (limit_of k) storage).1
        ≡ Dict.get_default key [] storage
  unfolding check_limit check_memory_limit
  log_other now k storage h = get_default-put k key [] _ storage ∙ if_false (k == key) _ _ h

  Shows-check_limit :
      (times : List ℕ) (t now : ℕ) (storage : Storage)
      → t ≤ now
      → Shows times t storage
      → Shows (times ++ now ∷ []) now (check_limit now key (limit_of key) storage).1
  Shows-check_limit times t now storage h shows n later =
      let stored = Dict.get_default key [] storage in
      let p = span (limit_of key) in
      ap (recent n) (log-check_limit now storage)
      ∙ filter_append (is_recent p n) (recent now stored) (now ∷ [])
      ∙ ap (λ (ts : List ℕ). ts ++ recent n (now ∷ []))
          (filter_recent p now n stored later ∙ shows n (omega arith))
      ∙ sym (filter_append (is_recent p n) times (now ∷ []))

  Shows-storage_after :
      (requests : List Request) (times : List ℕ) (t : ℕ) (storage : Storage)
      → IsOrdered t requests
      → Shows times t storage
      → Shows
          (times ++ times_of key requests)
          (last_time t requests)
          (storage_after limit_of requests storage)
  unfolding storage_after
  Shows-storage_after [] times t storage ordered shows = rw (append-nil times) shows
  Shows-storage_after ((now, k) ∷ requests) times t storage ordered shows =
      elim (Bool-cases (k == key)) [
        | inr other ↦
            let still : Shows times now (check_limit now k (limit_of k) storage).1 = λ n later.
              ap (recent n) (log_other now k storage other)
              ∙ shows n (omega (arith, ordered.0, later)) in
            rw other (Shows-storage_after requests times now _ ordered.1 still)
        | inl same ↦
            let eq : k ≡ key = (String-IsKey.same_iff k key).0 same in
            rw same (
              rw eq (
                rw (sym (append_assoc times (now ∷ []) (times_of key requests))) (
                  Shows-storage_after requests (times ++ now ∷ []) now _ ordered.1
                    (Shows-check_limit times t now storage ordered.0 shows))))
      ]

verdict_of :
    (now : ℕ) (key : String) (limit : Limit) (storage : Storage)
    → (check_limit now key limit storage).0
      ≡ verdict
          (length (filter_by (is_recent (span limit) now) (Dict.get_default key [] storage)) + 1)
          limit
unfolding check_limit check_memory_limit
verdict_of now key limit storage =
    ap (λ (n : ℕ). verdict n limit)
      (length-append (filter_by (is_recent (span limit) now) (Dict.get_default key [] storage))
        (now ∷ []))

-- After any requests at times that do not fall, from an empty log on, a request is refused exactly
-- if, with it, the requests of its key within the period, the refused ones included, are more than
-- the limit allows; else it passes.
pub check_limit-window :
    (limit_of : String → Limit) (requests : List Request) (now : ℕ) (key : String)
    → IsOrdered 0 requests
    → last_time 0 requests ≤ now
    → let limit = limit_of key in
      (check_limit now key limit (storage_after limit_of requests [])).0 ≡ (
        if ltb limit.max_requests
          (length (filter_by (is_recent (span limit) now) (times_of key requests)) + 1)
        then exceeded (parse_period limit.period)
        else passed)
check_limit-window limit_of requests now key ordered h =
    let shows =
      Shows-storage_after limit_of key requests [] 0 [] ordered
        (λ n later. unfold Dict.get_default Dict.get in refl) now h in
    verdict_of now key (limit_of key) (storage_after limit_of requests [])
    ∙ unfold verdict in ap (λ (ts : List ℕ). verdict (length ts + 1) (limit_of key)) shows

within_max :
    (served : Bool) (left : Option (ℕ × ℕ)) (limit : Limit)
    → let result : ℕ × Option (ℕ × ℕ) = if served then (0, left) else (limit.max_requests, none) in
      verdict result.0 limit ≡ passed
unfolding verdict
within_max true left limit = ground arith
within_max false left limit = ground arith

-- The token bucket never reports more than the maximum, so that its caller refuses no request, with
-- whatever tokens are left.
pub token_bucket-verdict :
    (now period : ℕ) (limit : Limit) (tokens last_refill : Option ℕ)
    → verdict (token_bucket now limit.max_requests period tokens last_refill).0 limit ≡ passed
unfolding verdict token_bucket
token_bucket-verdict now period limit none last_refill = ground arith
token_bucket-verdict now period limit (some tokens) last_refill = within_max _ _ limit
