-- ===== src/Tools/RateLimiter/Bucket.antt =====
-- How much a token bucket of src/tools/rate_limiter.py admits.
use cyber_security_platform.Prelude.{
  ℕ, ◌+◌, ◌-◌, ◌*◌, ◌≤◌, Bool, List, [], ◌∷◌, ◌≡◌, refl, sym, ◌∙◌, arith, if◌then◌else◌,
}
use cyber_security_platform.Prelude.Numbers.{add-mul, stretches}
use cyber_security_platform.Tools.RateLimiter.{
  Rate, token, TokenBucket, new_bucket, refilled, consume,
}

-- Calls of `consume()` at these times: how many are admitted, and the bucket after them.
unfoldable pub consume_all : List ℕ → TokenBucket → ℕ × TokenBucket
consume_all [] b = (0, b)
consume_all (now ∷ times) b =
    let (allowed, b') = consume now 1 b in
    let (admitted, last) = consume_all times b' in
    (if allowed then admitted + 1 else admitted, last)

-- Times that do not go back, from `start` to `stop`.
abbrev pub Rising : ℕ → List ℕ → ℕ → Type 0
Rising start [] stop = start ≤ stop
Rising start (t ∷ times) stop = (start ≤ t) × Rising t times stop

-- The bucket has no more than its capacity.
abbrev pub IsBounded : TokenBucket → Type 0
IsBounded b = b.tokens ≤ b.capacity * token b.rate

Rising-le : (start : ℕ) (times : List ℕ) (stop : ℕ) → Rising start times stop → start ≤ stop
Rising-le start [] stop h = h
Rising-le start (t ∷ times) stop h = omega (arith, Rising-le t times stop h.1)

consume-keeps :
    (now : ℕ) (b : TokenBucket)
    → let b' = (consume now 1 b).1 in
      (b'.rate ≡ b.rate) × (b'.capacity ≡ b.capacity) × (b'.last_refill ≡ now)
unfolding consume refilled
consume-keeps now b = ground arith

consume-IsBounded : (now : ℕ) (b : TokenBucket) → IsBounded (consume now 1 b).1
unfolding consume refilled
consume-IsBounded now b = ground arith

-- One call takes a token for what it admits, and earns what the time since the last one gives.
consume_le :
    (now : ℕ) (b : TokenBucket)
    → let (allowed, b') = consume now 1 b in
      (if allowed then token b.rate else 0) + b'.tokens
      ≤ b.tokens + (now - b.last_refill) * b.rate.count
unfolding consume refilled
consume_le now b = ground arith

consume_all-keeps :
    (times : List ℕ) (b : TokenBucket)
    → let b' = (consume_all times b).1 in (b'.rate ≡ b.rate) × (b'.capacity ≡ b.capacity)
unfolding consume_all
consume_all-keeps [] b = (refl, refl)
consume_all-keeps (now ∷ times) b =
    let k = consume-keeps now b in
    let r = consume_all-keeps times (consume now 1 b).1 in (r.0 ∙ k.0, r.1 ∙ k.1)

consume_all-IsBounded :
    (times : List ℕ) (b : TokenBucket) → IsBounded b → IsBounded (consume_all times b).1
unfolding consume_all
consume_all-IsBounded [] b h = h
consume_all-IsBounded (now ∷ times) b h = consume_all-IsBounded times _ (consume-IsBounded now b)

-- The account of one call and of those after it.
account :
    (allowed : Bool) (later before after part last now stop count : ℕ)
    → last ≤ now
    → now ≤ stop
    → later * part ≤ after + (stop - now) * count
    → (if allowed then part else 0) + after ≤ before + (now - last) * count
    → (if allowed then later + 1 else later) * part ≤ before + (stop - last) * count
account allowed later before after part last now stop count h k ih one =
    ground (arith, add-mul later 1 part, stretches last now stop count h k)

consume_all-le :
    (times : List ℕ) (b : TokenBucket) (rate : Rate) (last stop : ℕ)
    → b.rate ≡ rate
    → b.last_refill ≡ last
    → Rising last times stop
    → (consume_all times b).0 * token rate ≤ b.tokens + (stop - last) * rate.count
unfolding consume_all
consume_all-le [] b rate last stop same at h = ground arith
consume_all-le (now ∷ times) b rate last stop same at h =
    let (allowed, b') = consume now 1 b in
    let k = consume-keeps now b in
    account allowed (consume_all times b').0 b.tokens b'.tokens (token rate) last now stop
      rate.count h.0 (Rising-le now times stop h.1)
      (consume_all-le times b' rate now stop (k.0 ∙ same) k.2 h.1)
      (rw (sym same, sym at) (consume_le now b))

at_most :
    (b : TokenBucket) (rate : Rate) (capacity : ℕ)
    → IsBounded b
    → b.rate ≡ rate
    → b.capacity ≡ capacity
    → b.tokens ≤ capacity * token rate
at_most b rate capacity h same room = rw (sym same, sym room) h

-- A bucket in use: after any earlier calls, the calls from then to a time `stop` are admitted at
-- most as often as its capacity and what the rate gives in that time, one token each.
pub consume_all-window :
    (made : ℕ) (rate : Rate) (capacity : ℕ) (earlier times : List ℕ) (stop : ℕ)
    → let b = (consume_all earlier (new_bucket made rate capacity)).1 in
      Rising b.last_refill times stop
      → (consume_all times b).0 * token rate
        ≤ capacity * token rate + (stop - b.last_refill) * rate.count
unfolding new_bucket
consume_all-window made rate capacity earlier times stop h = omega (
  arith,
  consume_all-le times b rate b.last_refill stop k.0 refl h,
  at_most b rate capacity
      (consume_all-IsBounded earlier (new_bucket made rate capacity) (omega arith)) k.0 k.1,
)
  where
    b : TokenBucket
    b = (consume_all earlier (new_bucket made rate capacity)).1

    k : (b.rate ≡ rate) × (b.capacity ≡ capacity)
    k = consume_all-keeps earlier (new_bucket made rate capacity)
