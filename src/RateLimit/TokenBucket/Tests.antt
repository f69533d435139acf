-- ===== src/RateLimit/TokenBucket/Tests.antt =====
-- The theorems on the local limiter of internal/ratelimit/limiter.go at concrete inputs.
use aizen_gate.Base.{◌≡◌, ◌+◌, refl, String, true, List, [], ◌∷◌, arith}
use aizen_gate.Base.Int.{pos}
use aizen_gate.Base.Dict.{lookup, insert}
use aizen_gate.RateLimit.TokenBucket.{
  refill, TokenBucketLimiter, new_token_bucket_limiter, bucket_of, allow,
}
use aizen_gate.RateLimit.Calls.{Call}
use aizen_gate.RateLimit.TokenBucket.Bound.{IsPast, admitted, allow_after_wait}

abbrev small : TokenBucketLimiter
small = new_token_bucket_limiter 2 3

abbrev call : String → Call
call c = record { client = c; limit = pos 9; window = pos 9; delay = 1000 }

abbrev calls : List Call
calls = call "a" ∷ call "b" ∷ call "a" ∷ call "a" ∷ call "a" ∷ []

three_of_four : admitted "a" calls 0 small ≡ 3
unfolding admitted allow bucket_of refill new_token_bucket_limiter lookup insert
three_of_four = refl

small-IsPast : IsPast 7 small
unfolding new_token_bucket_limiter lookup
small-IsPast = record { past = λ c b e. ground arith }

allow_after_wait_example : (allow "a" (pos 1) (pos 1) (7 + 500000000) small).1 ≡ true
unfolding new_token_bucket_limiter
allow_after_wait_example =
    allow_after_wait "a" (pos 1) (pos 1) 7 500000000 small small-IsPast (omega arith) (omega arith)
