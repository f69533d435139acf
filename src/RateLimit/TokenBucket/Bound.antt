-- ===== src/RateLimit/TokenBucket/Bound.antt =====
-- How many requests `TokenBucketLimiter` of internal/ratelimit/limiter.go lets through.
use aizen_gate.Base.{
  ℕ, ◌+◌, ◌-◌, ◌*◌, ◌≤◌, ◌<◌, ◌≡◌, ◌&&◌, String, true, some, List, [], ◌∷◌, arith, str_eq, eq_iff,
  leb, Option-cases, inl, inr, if◌then◌else◌,
}
use aizen_gate.Base.Int.{ℤ}
use aizen_gate.Base.Dict.{lookup, lookup-insert}
use aizen_gate.RateLimit.Calls.{Call, elapsed}
use aizen_gate.RateLimit.TokenBucket.{
  token, TokenBucket, TokenBucketLimiter, bucket_of, refill, allow,
}

-- The tokens that a client has at `now`.
unfoldable pub level : String → ℕ → TokenBucketLimiter → ℕ
level client now l = refill l now (bucket_of client now l)

-- No bucket was refilled after `now`.
pub record IsPast (now : ℕ) (l : TokenBucketLimiter) : Type 0 where
  pub past : (c : String) (b : TokenBucket) → lookup c l.buckets ≡ some b → b.last_refill ≤ now

refill-le-capacity :
    (now : ℕ) (l : TokenBucketLimiter) (b : TokenBucket) → refill l now b ≤ l.capacity * token
unfolding refill
refill-le-capacity now l b = ground arith

add-elapsed : (t now d : ℕ) → t ≤ now → now + d - t ≡ (now - t) + d
add-elapsed t now d h = omega arith

refill-later :
    (l : TokenBucketLimiter) (now d : ℕ) (b : TokenBucket)
    → b.last_refill ≤ now
    → refill l (now + d) b ≤ refill l now b + d * l.rate
unfolding refill
refill-later l now d b h = rw (add-elapsed b.last_refill now d h) (ground arith)

-- A bucket that was just written holds what was written.
refill_now :
    (l : TokenBucketLimiter) (now n : ℕ)
    → n ≤ l.capacity * token
    → refill l now (record { tokens = n; last_refill = now }) ≡ n
unfolding refill
refill_now l now n h = ground arith

-- Time brings at most `rate` tokens a second.
pub level-later :
    (c : String) (now d : ℕ) (l : TokenBucketLimiter)
    → IsPast now l
    → level c (now + d) l ≤ level c now l + d * l.rate
unfolding level bucket_of
level-later c now d l h = elim (Option-cases (lookup c l.buckets)) [
  | inl new ↦
      rw (new, level, bucket_of)
        let full = l.capacity * token in
          omega
            (arith, refill_now l (now + d) full (omega arith), refill_now l now full (omega arith))
  | inr (b, known) ↦ rw (known, level, bucket_of) (refill-later l now d b (h.past c b known))
]

-- What is left of `n` units after a request.
abbrev pub spent : ℕ → ℕ
spent n = if leb token n then n - token else n

module _ (client : String) (limit window : ℤ) (now : ℕ) (l : TokenBucketLimiter) where
  abbrev after : TokenBucketLimiter
  after = (allow client limit window now l).0

  buckets-allow :
      (c : String)
      → lookup c after.buckets ≡ (
          if str_eq client c
          then some (record { tokens = spent (level client now l); last_refill = now })
          else lookup c l.buckets)
  unfolding level allow
  buckets-allow c = ground (
    arith,
    lookup-insert client c (record { tokens = level client now l - token; last_refill = now })
        l.buckets,
    lookup-insert client c (record { tokens = level client now l; last_refill = now }) l.buckets,
  )

  pub allow-allowed : (allow client limit window now l).1 ≡ leb token (level client now l)
  unfolding level allow
  allow-allowed = ground arith

  pub capacity-allow : (after.capacity ≡ l.capacity) × (after.rate ≡ l.rate)
  unfolding allow
  capacity-allow = ground arith

  refill-allow : (b : TokenBucket) → refill after now b ≡ refill l now b
  unfolding refill
  refill-allow b = rw (capacity-allow.0, capacity-allow.1)

  -- A request takes at most one token of its own client, and none of any other.
  pub level-allow :
      (c : String)
      → level c now after ≡ (if str_eq client c then spent (level client now l) else level c now l)
  unfolding level bucket_of
  level-allow c = ground (
    arith,
    buckets-allow c,
    refill-allow (record { tokens = spent (level client now l); last_refill = now }),
    refill-allow (bucket_of c now l),
    capacity-allow.0,
    refill_now l now (spent (level client now l)),
    refill-le-capacity now l (bucket_of client now l),
  )

  IsPast-allow : IsPast now l → IsPast now after
  IsPast-allow h = record { past = λ c b e. ground (arith, buckets-allow c, h.past c b) }

-- How many of the calls for `c` are let through.
unfoldable pub admitted : String → List Call → ℕ → TokenBucketLimiter → ℕ
admitted c [] now l = 0
admitted c (k ∷ ks) now l =
    let o = allow k.client k.limit k.window (now + k.delay) l in
    (if str_eq k.client c && o.1 then 1 else 0) + admitted c ks (now + k.delay) o.0

IsPast-later : (now d : ℕ) (l : TokenBucketLimiter) → IsPast now l → IsPast (now + d) l
IsPast-later now d l h = record { past = λ c b e. omega (arith, h.past c b e) }

admitted-le-level :
    (c : String) (ks : List Call) (now : ℕ) (l : TokenBucketLimiter)
    → IsPast now l
    → admitted c ks now l * token ≤ level c now l + elapsed ks * l.rate
unfolding admitted
admitted-le-level c [] now l h = omega arith
admitted-le-level c (k ∷ ks) now l h =
    let next = now + k.delay in
    let later = allow k.client k.limit k.window next l in
    ground (
      arith,
      level-later c now k.delay l h,
      level-allow k.client k.limit k.window next l c,
      allow-allowed k.client k.limit k.window next l,
      capacity-allow k.client k.limit k.window next l,
      eq_iff k.client c,
      admitted-le-level c ks next later.0
          (IsPast-allow k.client k.limit k.window next l (IsPast-later now k.delay l h)),
    )

-- From a limiter with no bucket refilled in the future, over any calls, of any clients and with any
-- limits and windows, at most the capacity and what the rate brings in the elapsed time is let
-- through for one client.
pub admitted-le :
    (c : String) (ks : List Call) (now : ℕ) (l : TokenBucketLimiter)
    → IsPast now l
    → admitted c ks now l * token ≤ l.capacity * token + elapsed ks * l.rate
unfolding level
admitted-le c ks now l h =
    omega (arith, admitted-le-level c ks now l h, refill-le-capacity now l (bucket_of c now l))

refill_after_wait :
    (l : TokenBucketLimiter) (now d : ℕ) (b : TokenBucket)
    → b.last_refill ≤ now
    → 0 < l.capacity
    → token ≤ d * l.rate
    → token ≤ refill l (now + d) b
unfolding refill
refill_after_wait l now d b h room waited = rw (add-elapsed b.last_refill now d h) (ground arith)

level_after_wait :
    (c : String) (now d : ℕ) (l : TokenBucketLimiter)
    → IsPast now l
    → 0 < l.capacity
    → token ≤ d * l.rate
    → token ≤ level c (now + d) l
unfolding level bucket_of
level_after_wait c now d l h room waited = elim (Option-cases (lookup c l.buckets)) [
  | inl new ↦
      rw (new, level, bucket_of)
        (omega (arith, refill_now l (now + d) (l.capacity * token) (omega arith)))
  | inr (b, known) ↦
      rw (known, level, bucket_of) (refill_after_wait l now d b (h.past c b known) room waited)
]

-- With a positive capacity and no bucket refilled in the future, a client that waits until the rate
-- has brought one token is let through.
pub allow_after_wait :
    (c : String) (limit window : ℤ) (now d : ℕ) (l : TokenBucketLimiter)
    → IsPast now l
    → 0 < l.capacity
    → token ≤ d * l.rate
    → (allow c limit window (now + d) l).1 ≡ true
allow_after_wait c limit window now d l h room waited =
    rw (allow-allowed c limit window (now + d) l)
      (ground (arith, level_after_wait c now d l h room waited))
