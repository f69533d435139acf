-- ===== src/RateLimit/FixedWindow.antt =====
-- pkg/ratelimiter/limiter.go: the limiter with a fixed window, and the script that it runs. Times
-- are milliseconds.
pub mod Burst
mod Tests
use aizen_gate.Base.{ℕ, ◌+◌, String, Bool, true, Option, none, some, ◌==◌, if◌then◌else◌}
use aizen_gate.Base.Int.{ℤ, at_most}
use aizen_gate.RateLimit.SlidingWindow.{milliseconds}

-- The commands of Redis that the script calls, at a time, on a store `R`.
pub record Counters (R : Type 0) : Type 0 where
  pub incr : ℕ → String → R → R × ℕ
  pub pexpire : ℕ → String → ℤ → R → R

-- The script.
unfoldable pub rate_limit_script : {R : Type 0} → Counters R → String → ℤ → ℤ → ℕ → R → R × ℕ
rate_limit_script counters key window limit now r =
    let (r', current) = counters.incr now key r in
    (
      if current == 1 then counters.pexpire now key window r' else r',
      if at_most current limit then 1 else 0,
    )

-- The two results of `Allow`, which go together.
pub record Answer : Type 0 where
  pub allowed : Bool
  pub failed : Bool

module _ {R : Type 0} (eval : String → ℤ → ℤ → ℕ → R → R × Option ℕ) where
  -- `Allow`: `eval` is EVAL of the script, `none` its error.
  unfoldable pub allow : String → ℤ → ℤ → ℕ → R → R × Answer
  allow key limit window now r =
      let (r', reply) = eval key (milliseconds window) limit now r in
      (
        r',
        elim reply [
          | none ↦ record { allowed = true; failed = true }
          | some n ↦ record { allowed = n == 1; failed = Bool.false }
        ],
      )
