-- ===== src/RateLimit/SlidingWindow/ClientTests.antt =====
-- Two clients of the Redis limiter of internal/ratelimit/limiter.go, on a store with a sorted
-- set for each key.
use aizen_gate.Base.{ℕ, ◌≡◌, ◌≤◌, refl, String, false, List, [], ◌∷◌, arith, length, keep, eq_iff}
use aizen_gate.Base.Int.{pos, pos_part}
use aizen_gate.Base.Decimal.{show}
use aizen_gate.RateLimit.Calls.{Call, last_time}
use aizen_gate.RateLimit.SlidingWindow.{
  limiter_at, sliding_window, RedisSlidingWindowLimiter, allow,
}
use aizen_gate.RateLimit.SlidingWindow.Window.{recent}
use aizen_gate.RateLimit.SlidingWindow.Clients.{times_of, times_of-le-limit}
use aizen_gate.RateLimit.SlidingWindow.Store.{Store, keyed-laws, caching, caching-laws, separate}

abbrev limiter : RedisSlidingWindowLimiter Store
limiter = record { script_sha = "S"; redis = record { at = λ k. []; cached = false } }

abbrev call : String → ℕ → Call
call client delay = record { client = client; limit = pos 1; window = pos 10000000; delay = delay }

abbrev calls : List Call
calls = call "a" 1 ∷ call "b" 1 ∷ call "a" 1 ∷ []

times_of-le-limit_example :
    length (keep (recent 10 (last_time calls 90)) (times_of caching "a" calls 90 limiter []))
    ≤ pos_part (pos 1)
unfolding sliding_window keep show limiter_at allow
times_of-le-limit_example =
    times_of-le-limit keyed-laws caching-laws separate "a" (pos 1) 10 calls 90 limiter (omega arith)
      refl ((λ e. (refl, refl)), ((λ e. (refl, refl)), ((λ e. (refl, refl)), tt)))
      ((λ e. refl), ((λ e. absurd (ground (arith, e, eq_iff "b" "a"))), ((λ e. refl), tt))) refl

once : times_of caching "a" calls 90 limiter [] ≡ 91 ∷ []
unfolding times_of allow sliding_window keep
once = refl
