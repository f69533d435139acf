-- ===== src/RateLimit/Limiter.antt =====
-- The interface `Limiter` of internal/ratelimit/limiter.go.
use aizen_gate.Base.{String, Bool}
use aizen_gate.Base.Int.{ℤ}

-- The two results of `Allow`: a verdict, or an error.
pub data Answer : Type 0 where
  allowed : Bool → Answer
  error : Answer

-- `Allow` takes a client, a limit and a window in nanoseconds; the limiter reads the clock itself.
pub record Limiter (L : Type 0) : Type 0 where
  pub allow : String → ℤ → ℤ → L → L × Answer
