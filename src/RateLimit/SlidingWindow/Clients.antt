-- ===== src/RateLimit/SlidingWindow/Clients.antt =====
-- `Allow` of `RedisSlidingWindowLimiter` in internal/ratelimit/limiter.go under the calls of many
-- clients, with the script cache flushed at any time.
use aizen_gate.Base.{
  ℕ, ◌+◌, ◌-◌, ◌≤◌, ◌<◌, ◌≡◌, ◌≢◌, refl, ap, ◌∙◌, String, true, ◌&&◌, List, [], ◌∷◌, arith, str_eq,
  eq_iff, ◌==◌, length, Bool-cases, inl, inr, keep, keep-keep, length-keep-le, if◌then◌else◌,
}
use aizen_gate.Base.Int.{ℤ, pos, minus, pos_part, below}
use aizen_gate.Base.Text.Laws.{append_inj_right}
use aizen_gate.RateLimit.Calls.{passes, Call, last_time, AllMeet, AllFind, after_calls}
use aizen_gate.RateLimit.SlidingWindow.{
  SortedSets, sliding_window, Scripts, RedisSlidingWindowLimiter, milliseconds, key_of, allow,
  limiter_at,
}
use aizen_gate.RateLimit.SlidingWindow.Window.{SortedSetLaws, recent, IsLog, IsLog-called}
use aizen_gate.RateLimit.SlidingWindow.Reload.{ScriptLaws, loaded, allow_runs_script}

-- What Redis documents of its keys: a command changes no other key, and neither does a load of a
-- script.
pub record SeparateKeys {R : Type 0} {scripts : Scripts R} {sets : SortedSets R}
    (laws : SortedSetLaws sets) (script_laws : ScriptLaws scripts sets) : Type 0 where
  pub zremrangebyscore_other :
      (key k : String) (high : ℤ) (r : R)
      → key ≢ k
      → laws.scores k (sets.zremrangebyscore key high r) ≡ laws.scores k r
  pub zadd_other :
      (key k : String) (score : ℕ) (member : String) (r : R)
      → key ≢ k
      → laws.scores k (sets.zadd key score member r) ≡ laws.scores k r
  pub pexpire_other :
      (key k : String) (ms : ℤ) (r : R)
      → key ≢ k
      → laws.scores k (sets.pexpire key ms r) ≡ laws.scores k r
  pub with_script_other :
      (k : String) (r : R) → laws.scores k (script_laws.with_script r) ≡ laws.scores k r

-- Every call of `c` has one limit, and a window of `width` milliseconds.
abbrev pub MeetsPolicy : String → ℤ → ℕ → Call → Type 0
MeetsPolicy c limit width k = k.client ≡ c → (k.limit ≡ limit) × (milliseconds k.window ≡ pos width)

module _ {R : Type 0} (scripts : Scripts R) where
  -- The times at which `c` was let through, the last one first.
  unfoldable pub times_of : String → List Call → ℕ → RedisSlidingWindowLimiter R → List ℕ → List ℕ
  times_of c [] now l before = before
  times_of c (k ∷ ks) now l before =
      let o = allow scripts k.client k.limit k.window (now + k.delay) l in
      times_of c ks (now + k.delay) o.0
        (if str_eq k.client c && passes o.1 then (now + k.delay) ∷ before else before)

module _ {R : Type 0} {scripts : Scripts R} {sets : SortedSets R} (laws : SortedSetLaws sets)
    (script_laws : ScriptLaws scripts sets) (apart : SeparateKeys laws script_laws) (c : String)
    (limit : ℤ) (width : ℕ) where
  -- The store on which the script runs.
  abbrev ready : R → R
  ready r = loaded scripts sets script_laws r

  abbrev called : Call → ℕ → R → R × ℕ
  called k t r =
      sliding_window sets (key_of k.client) t k.limit (milliseconds k.window)
        (script_laws.draw t (ready r)) (ready r)

  -- The member that would be logged for `c` at a time is not in its set.
  abbrev pub IsNewDraw : ℕ → R → Type 0
  IsNewDraw t r =
      laws.is_new (key_of c) (script_laws.draw t (ready r))
        (sets.zremrangebyscore (key_of c) (minus t (pos width)) (ready r))
      ≡ true

  -- Whenever `c` calls, the random suffix makes its member new.
  abbrev pub FindsNew : ℕ → RedisSlidingWindowLimiter R → String → Type 0
  FindsNew t l client = client ≡ c → IsNewDraw t l.redis

  abbrev pub HasNewDraws : List Call → ℕ → RedisSlidingWindowLimiter R → Type 0
  HasNewDraws = AllFind (limiter_at scripts) FindsNew

  key_of-ne : (a b : String) → a ≢ b → key_of a ≢ key_of b
  key_of-ne a b other same = other (append_inj_right "zg:rl:" a b same)

  scores-ready : (r : R) → laws.scores (key_of c) (ready r) ≡ laws.scores (key_of c) r
  scores-ready r = ground (arith, apart.with_script_other (key_of c) r)

  -- A call of another client leaves the log of `c` alone.
  scores-called :
      (k : Call) (t : ℕ) (r : R)
      → k.client ≢ c
      → laws.scores (key_of c) (called k t r).0 ≡ laws.scores (key_of c) r
  unfolding sliding_window
  scores-called k t r other =
      let key = key_of k.client in
      let ne = key_of-ne k.client c other in
      let high = minus t (milliseconds k.window) in
      let cleared = sets.zremrangebyscore key high (ready r) in
      let member = script_laws.draw t (ready r) in
      let kept = apart.zremrangebyscore_other key (key_of c) high (ready r) ne ∙ scores-ready r in
      elim (Bool-cases (below (sets.zcard key cleared) k.limit)) [
        | inl room ↦ rw room (
            apart.pexpire_other key (key_of c) (milliseconds k.window)
              (sets.zadd key t member cleared) ne
            ∙ apart.zadd_other key (key_of c) t member cleared ne
            ∙ kept)
        | inr full ↦ rw full kept
      ]

  -- The log of `c` as its last call at `t` left it.
  abbrev pub Logs : ℕ → List ℕ → R → Type 0
  Logs t before r = IsLog sets laws (key_of c) limit width t before r

  Logs-same :
      (t : ℕ) (before : List ℕ) (r r' : R)
      → laws.scores (key_of c) r' ≡ laws.scores (key_of c) r
      → Logs t before r
      → Logs t before r'
  Logs-same t before r r' same h = record { logged = same ∙ h.logged; fits = h.fits }

  recent-le-limit :
      (t now : ℕ) (before : List ℕ) (r : R)
      → t ≤ now
      → Logs t before r
      → length (keep (recent width now) before) ≤ pos_part limit
  recent-le-limit t now before r le h = omega (
    arith,
    h.fits,
    ap length (keep-keep (recent width now) (recent width t) before (λ x e. ground arith)),
    length-keep-le (recent width now) (keep (recent width t) before),
  )

  -- A call of `c` itself, on its log.
  own_call :
      (k : Call) (t d : ℕ) (before : List ℕ) (r : R)
      → 0 < width
      → k.client ≡ c
      → k.limit ≡ limit
      → milliseconds k.window ≡ pos width
      → laws.is_new
          (key_of c)
          (script_laws.draw (t + d) (ready r))
          (sets.zremrangebyscore (key_of c) (minus (t + d) (pos width)) (ready r))
        ≡ true
      → Logs t before r
      → Logs
          (t + d)
          (if (called k (t + d) r).1 == 1 then (t + d) ∷ before else before)
          (called k (t + d) r).0
  own_call k t d before r wide same l w new h =
      rw (same, l, w)
        (IsLog-called sets laws (key_of c) limit width t d before
          (script_laws.draw (t + d) (ready r)) (ready r) wide new
          (Logs-same t before r (ready r) (scores-ready r) h))

  -- The log of `c` behind any calls is that of the times at which it was let through.
  pub times_of-Logs :
      (ks : List Call) (t now : ℕ) (l : RedisSlidingWindowLimiter R) (before : List ℕ)
      → 0 < width
      → l.script_sha ≡ script_laws.sha
      → AllMeet (MeetsPolicy c limit width) ks
      → HasNewDraws ks now l
      → t ≤ now
      → Logs t before l.redis
      → (u : ℕ) × (u ≤ last_time ks now)
        × ((after_calls (limiter_at scripts) ks now l).script_sha ≡ script_laws.sha)
        × Logs u
            (times_of scripts c ks now l before)
            (after_calls (limiter_at scripts) ks now l).redis
  unfolding times_of after_calls limiter_at
  times_of-Logs [] t now l before wide knows policy new le h = (t, le, knows, h)
  times_of-Logs (k ∷ ks) t now l before wide knows (policy, policies) (new, news) le h =
      let next = now + k.delay in
      let runs =
        allow_runs_script scripts sets script_laws k.client k.limit k.window next l knows in
      let after : RedisSlidingWindowLimiter R = record {
        script_sha = script_laws.sha;
        redis = (called k next l.redis).0;
      } in
      let moved : after_calls (limiter_at scripts) (k ∷ ks) now l
          ≡ after_calls (limiter_at scripts) ks next after =
        ap (λ o. after_calls (limiter_at scripts) ks next o.0) runs in
      elim (Bool-cases (str_eq k.client c)) [
        | inl same ↦
            let own = (eq_iff k.client c).0 same in
            let (e, w) = policy own in
            let d = next - t in
            let at : t + d ≡ next = omega arith in
            let logs = own_call k t d before l.redis wide own e w (rw at (new own)) h in
            rw (moved, runs, same)
              (times_of-Logs ks next next after _ wide refl policies (rw runs at news) (omega arith)
                (rw at at logs))
        | inr other ↦
            rw (moved, runs, other)
              (times_of-Logs ks t next after before wide refl policies (rw runs at news)
                (omega arith)
                (Logs-same t before l.redis (called k next l.redis).0
                  (scores-called k next l.redis (λ e. ground (arith, e, eq_iff k.client c))) h))
      ]

  pub times_of-logged :
      (ks : List Call) (t now : ℕ) (l : RedisSlidingWindowLimiter R) (before : List ℕ)
      → 0 < width
      → l.script_sha ≡ script_laws.sha
      → AllMeet (MeetsPolicy c limit width) ks
      → HasNewDraws ks now l
      → t ≤ now
      → Logs t before l.redis
      → length (keep (recent width (last_time ks now)) (times_of scripts c ks now l before))
        ≤ pos_part limit
  times_of-logged ks t now l before wide knows policies news le h =
      let (u, earlier, still, logs) =
        times_of-Logs ks t now l before wide knows policies news le h in
      recent-le-limit u (last_time ks now) (times_of scripts c ks now l before)
        (after_calls (limiter_at scripts) ks now l).redis earlier logs

  -- From an empty log of a client, for a limiter that knows the SHA of the script, while Redis
  -- answers each EVALSHA and SCRIPT LOAD: if each call for the client has the same limit and a
  -- window of the same positive width, and the member that it would log is new, then in the window
  -- that ends with the last call `Allow` lets the client through at most as often as the limit
  -- says, whatever calls other clients make in between, with whatever policies, and whenever the
  -- script cache is flushed.
  pub times_of-le-limit :
      (ks : List Call) (now : ℕ) (l : RedisSlidingWindowLimiter R)
      → 0 < width
      → l.script_sha ≡ script_laws.sha
      → AllMeet (MeetsPolicy c limit width) ks
      → HasNewDraws ks now l
      → laws.scores (key_of c) l.redis ≡ []
      → length (keep (recent width (last_time ks now)) (times_of scripts c ks now l []))
        ≤ pos_part limit
  unfolding keep
  times_of-le-limit ks now l wide knows policies news empty =
      times_of-logged ks now now l [] wide knows policies news (omega arith)
        (record { logged = empty; fits = omega arith })
