-- ===== src/RateLimit/TokenBucket.antt =====
-- `TokenBucketLimiter` of internal/ratelimit/limiter.go. Times are nanoseconds, and tokens are
-- counted in units of 10^-9, so that a refill of `rate` tokens per second is an integer. The
-- rounding of float64 is left out.
pub mod Bound
mod Tests
use aizen_gate.Base.{
  ℕ, ◌+◌, ◌-◌, ◌*◌, ◌^◌, String, Bool, true, false, Option, none, some, [], leb, ltb, if◌then◌else◌,
}
use aizen_gate.Base.Int.{ℤ}
use aizen_gate.RateLimit.Limiter.{Limiter, allowed}
use aizen_gate.Base.Dict.{Dict, lookup, insert}

-- One token.
abbrev pub token : ℕ
token = 1000000000

pub record TokenBucket : Type 0 where
  pub tokens : ℕ
  pub last_refill : ℕ

pub record TokenBucketLimiter : Type 0 where
  pub buckets : Dict TokenBucket
  pub capacity : ℕ
  pub rate : ℕ

unfoldable pub new_token_bucket_limiter : ℕ → ℕ → TokenBucketLimiter
new_token_bucket_limiter rate capacity = record { buckets = []; capacity = capacity; rate = rate }

-- The bucket of a client, a full one if it is new.
unfoldable pub bucket_of : String → ℕ → TokenBucketLimiter → TokenBucket
bucket_of client now l = elim (lookup client l.buckets) [
  | none ↦ record { tokens = l.capacity * token; last_refill = now }
  | some b ↦ b
]

-- The tokens of a bucket at `now`; `time.Now` is monotonic, so the elapsed time is not negative.
unfoldable pub refill : TokenBucketLimiter → ℕ → TokenBucket → ℕ
refill l now b =
    let tokens = b.tokens + (now - b.last_refill) * l.rate in
    if ltb (l.capacity * token) tokens then l.capacity * token else tokens

-- `Allow`; the limit and the window are not read.
unfoldable pub allow : String → ℤ → ℤ → ℕ → TokenBucketLimiter → TokenBucketLimiter × Bool
allow client limit window now l =
    let tokens = refill l now (bucket_of client now l) in
    let keep = λ (n : ℕ). record l {
      buckets = insert client (record { tokens = n; last_refill = now }) l.buckets;
    } in
    if leb token tokens then (keep (tokens - token), true) else (keep tokens, false)

-- The limiter when the clock shows `now`.
unfoldable pub limiter_at : ℕ → Limiter TokenBucketLimiter
limiter_at now = record {
  allow = λ client limit window l.
      let (l', verdict) = allow client limit window now l in (l', allowed verdict);
}
