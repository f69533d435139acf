-- ===== src/RateLimit/SlidingWindow/Reload.antt =====
-- `Allow` of `RedisSlidingWindowLimiter` in internal/ratelimit/limiter.go runs the script once.
use aizen_gate.Base.{ℕ, ◌≡◌, String, Bool, true, false, some, arith, ◌==◌, if◌then◌else◌}
use aizen_gate.Base.Int.{ℤ}
use aizen_gate.RateLimit.Limiter.{allowed}
use aizen_gate.RateLimit.SlidingWindow.{
  SortedSets, sliding_window, integer, no_script, Scripts, RedisSlidingWindowLimiter, milliseconds,
  key_of, allow, new_redis_sliding_window_limiter,
}

-- What Redis documents of its script cache, for the one script that is loaded: `held` says that
-- the cache has it, `with_script` is the store after a load, and `draw` is the member with the
-- random suffix that a run would log.
pub record ScriptLaws {R : Type 0} (scripts : Scripts R) (sets : SortedSets R) : Type 0 where
  pub sha : String
  pub held : R → Bool
  pub with_script : R → R
  pub draw : ℕ → R → String
  pub script_load_lem : (r : R) → scripts.script_load r ≡ (with_script r, some sha)
  pub held-with_script : (r : R) → held (with_script r) ≡ true
  pub eval_sha_held :
      (key : String) (now : ℕ) (limit window : ℤ) (r : R)
      → held r ≡ true
      → scripts.eval_sha sha key now limit window r ≡ (
        (sliding_window sets key now limit window (draw now r) r).0,
        integer (sliding_window sets key now limit window (draw now r) r).1,
      )
  pub eval_sha_missing :
      (any key : String) (now : ℕ) (limit window : ℤ) (r : R)
      → held r ≡ false
      → scripts.eval_sha any key now limit window r ≡ (r, no_script)

module _ {R : Type 0} (scripts : Scripts R) (sets : SortedSets R)
    (laws : ScriptLaws scripts sets) where
  -- The store on which the script runs.
  abbrev pub loaded : R → R
  loaded r = if laws.held r then r else laws.with_script r

  -- For a limiter that knows the SHA of the script, while scripts can be loaded, `Allow` runs the
  -- script exactly once, on the store as it is or, where the script cache was flushed, as it is
  -- after loading the script again; it answers what the script answers and keeps the SHA.
  pub allow_runs_script :
      (client : String) (limit window : ℤ) (now : ℕ) (l : RedisSlidingWindowLimiter R)
      → l.script_sha ≡ laws.sha
      → let r = loaded l.redis in
        let o =
          sliding_window sets (key_of client) now limit (milliseconds window) (laws.draw now r) r in
        allow scripts client limit window now l
        ≡ (record { script_sha = laws.sha; redis = o.0 }, allowed (o.1 == 1))
  unfolding allow
  allow_runs_script client limit window now l ready =
      let key = key_of client in
      let ms = milliseconds window in
      ground (
        arith,
        laws.eval_sha_held key now limit ms l.redis,
        laws.eval_sha_missing laws.sha key now limit ms l.redis,
        laws.script_load_lem l.redis,
        laws.held-with_script l.redis,
        laws.eval_sha_held key now limit ms (laws.with_script l.redis),
      )

  -- A new limiter knows the SHA of the script.
  pub new_limiter-sha :
      (r : R)
      → new_redis_sliding_window_limiter scripts r
        ≡ some (record { script_sha = laws.sha; redis = laws.with_script r })
  unfolding new_redis_sliding_window_limiter
  new_limiter-sha r = ground (arith, laws.script_load_lem r)
