-- ===== src/Gateway/Startup.antt =====
-- The limiter that cmd/gateway/main.go starts with.
use aizen_gate.Base.{
  ℕ, ◌+◌, ◌*◌, ◌≤◌, ◌≡◌, String, Bool, true, false, Option, none, some, List, arith, if◌then◌else◌,
  Bool-cases, inl, inr,
}
use aizen_gate.Base.Dict.{lookup}
use aizen_gate.RateLimit.TokenBucket.{token, TokenBucketLimiter, new_token_bucket_limiter}
use aizen_gate.RateLimit.Calls.{Call, elapsed}
use aizen_gate.RateLimit.TokenBucket.Bound.{IsPast, admitted, admitted-le}
use aizen_gate.RateLimit.SlidingWindow.{
  Scripts, RedisSlidingWindowLimiter, new_redis_sliding_window_limiter,
}

-- The local limiter, the one on Redis, or the end of the program.
pub data Choice (R : Type 0) : Type 0 where
  local : TokenBucketLimiter → Choice R
  distributed : RedisSlidingWindowLimiter R → Choice R
  exits : Choice R

module _ {R : Type 0} (scripts : Scripts R) (ping : R → Bool) where
  -- With the client of the parsed URL, `none` where the URL does not parse.
  unfoldable pub choose_limiter : Bool → Option R → Choice R
  choose_limiter enabled client =
      if enabled
      then elim client [
        | none ↦ exits
        | some r ↦
            if ping r
            then elim (new_redis_sliding_window_limiter scripts r) [
              | none ↦ exits
              | some l ↦ distributed l
            ]
            else local (new_token_bucket_limiter 10 20)
      ]
      else local (new_token_bucket_limiter 10 20)

  choice_of_local :
      (enabled : Bool) (client : Option R) (l : TokenBucketLimiter)
      → choose_limiter enabled client ≡ local l
      → l ≡ new_token_bucket_limiter 10 20
  unfolding choose_limiter
  choice_of_local true none l e = absurd (ground arith)
  choice_of_local false client l e = ground arith
  choice_of_local true (some r) l e = elim (Bool-cases (ping r)) [
    | inl up ↦ absurd (ground arith)
    | inr down ↦ ground arith
  ]

pub new-IsPast : (now rate capacity : ℕ) → IsPast now (new_token_bucket_limiter rate capacity)
unfolding new_token_bucket_limiter lookup
new-IsPast now rate capacity = record { past = λ c b e. ground arith }

-- Whenever the gateway starts with the local limiter, be it because limiting on Redis is turned off
-- or because Redis does not answer, a client gets at most 20 requests through and 10 more for each
-- second, whatever the policies say.
pub local_bound :
    {R : Type 0} (scripts : Scripts R) (ping : R → Bool) (enabled : Bool) (client : Option R)
    (l : TokenBucketLimiter) (c : String) (ks : List Call) (now : ℕ)
    → choose_limiter scripts ping enabled client ≡ local l
    → admitted c ks now l * token ≤ 20 * token + elapsed ks * 10
unfolding new_token_bucket_limiter
local_bound scripts ping enabled client l c ks now e =
    let same = choice_of_local scripts ping enabled client l e in
    rw same
      (omega (arith, admitted-le c ks now (new_token_bucket_limiter 10 20) (new-IsPast now 10 20)))
