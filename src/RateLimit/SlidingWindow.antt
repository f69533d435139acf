-- ===== src/RateLimit/SlidingWindow.antt =====
-- `RedisSlidingWindowLimiter` of internal/ratelimit/limiter.go, and the script that it runs,
-- internal/ratelimit/scripts/sliding_window.lua. Times are milliseconds.
pub mod Window
pub mod Reload
pub mod Clients
mod Tests
pub mod Store
mod ClientTests
use aizen_gate.Base.{
  ℕ, ◌+◌, ◌*◌, ◌/◌, ◌%◌, ◌^◌, ◌≤◌, ◌≡◌, String, Bool, true, false, not, ◌&&◌, Option, none, some,
  List, [], ◌∷◌, ◌==◌, if◌then◌else◌,
}
use aizen_gate.Base.Int.{ℤ, pos, negsuc, below, at_most, minus, to_bits, of_bits}
use aizen_gate.Base.Text.{◌<>◌}
use aizen_gate.RateLimit.Limiter.{Limiter, Answer, allowed, error}

-- The commands of Redis that the script calls, on a store `R`. A score range starts at 0.
pub record SortedSets (R : Type 0) : Type 0 where
  pub zremrangebyscore : String → ℤ → R → R
  pub zcard : String → R → ℕ
  pub zadd : String → ℕ → String → R → R
  pub pexpire : String → ℤ → R → R

-- The script: 1 and the request is logged, or 0. `member` is `now .. ':' .. math.random()`.
unfoldable pub sliding_window :
    {R : Type 0} → SortedSets R → String → ℕ → ℤ → ℤ → String → R → R × ℕ
sliding_window sets key now limit window member r =
    let cleared = sets.zremrangebyscore key (minus now window) r in
    if below (sets.zcard key cleared) limit
    then (sets.pexpire key window (sets.zadd key now member cleared), 1)
    else (cleared, 0)

-- What a call of a script through the client can give.
pub data Reply : Type 0 where
  integer : ℕ → Reply
  other : Reply
  no_script : Reply
  failure : Reply

-- What the limiter uses of the Redis client: SCRIPT LOAD, which returns the SHA, and EVALSHA with
-- the key, the time, the limit and the window.
pub record Scripts (R : Type 0) : Type 0 where
  pub script_load : R → R × Option String
  pub eval_sha : String → String → ℕ → ℤ → ℤ → R → R × Reply

-- The limiter's own state, and the store behind its client.
pub record RedisSlidingWindowLimiter (R : Type 0) : Type 0 where
  pub script_sha : String
  pub redis : R

-- `window.Milliseconds()`, which rounds towards zero
abbrev pub milliseconds : ℤ → ℤ
milliseconds (pos n) = pos (n / 1000000)
milliseconds (negsuc n) = let ms = (n + 1) / 1000000 in minus 0 (pos ms)

abbrev pub key_of : String → String
key_of client_id = "zg:rl:" <> client_id

-- The type switch on the reply.
abbrev pub read_reply : Reply → Answer
read_reply (integer n) = allowed (n == 1)
read_reply _ = error

module _ {R : Type 0} (scripts : Scripts R) where
  -- `NewRedisSlidingWindowLimiter`
  unfoldable pub new_redis_sliding_window_limiter : R → Option (RedisSlidingWindowLimiter R)
  new_redis_sliding_window_limiter r =
      let (r', sha) = scripts.script_load r in
      elim sha [ none ↦ none | some s ↦ some (record { script_sha = s; redis = r' }) ]

  -- The branch on NOSCRIPT: load the script again, and call it once more.
  unfoldable pub reload :
      String → ℕ → ℤ → ℤ → RedisSlidingWindowLimiter R → RedisSlidingWindowLimiter R × Answer
  reload key now limit window l =
      let (r', sha) = scripts.script_load l.redis in
      elim sha [
        | none ↦ (record { script_sha = ""; redis = r' }, error)
        | some s ↦
            let (r'', reply) = scripts.eval_sha s key now limit window r' in
            (record { script_sha = s; redis = r'' }, read_reply reply)
      ]

  -- `Allow`, at the time `now`
  unfoldable pub allow :
      String → ℤ → ℤ → ℕ → RedisSlidingWindowLimiter R → RedisSlidingWindowLimiter R × Answer
  unfolding reload
  allow client_id limit window now l =
      let (r', reply) =
        scripts.eval_sha l.script_sha (key_of client_id) now limit (milliseconds window) l.redis in
      let l' = record l { redis = r' } in
      elim reply [
        | no_script ↦ reload (key_of client_id) now limit (milliseconds window) l'
        | final ↦ (l', read_reply final)
      ]

  -- The limiter when the clock shows `now`.
  unfoldable pub limiter_at : ℕ → Limiter (RedisSlidingWindowLimiter R)
  limiter_at now = record { allow = λ client limit window l. allow client limit window now l }
