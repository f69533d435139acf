-- ===== src/RateLimit/SlidingWindow/Window.antt =====
-- How many requests the script internal/ratelimit/scripts/sliding_window.lua admits in a window.
use mathlib.Core.Path.{fun_ext}
use aizen_gate.Base.{
  ℕ, ◌+◌, ◌≤◌, ◌<◌, ◌≡◌, ◌↔◌, ap, String, Bool, true, not, List, [], ◌∷◌, arith, ltb, ◌==◌, length,
  Bool-cases, inl, inr, keep, keep-keep, length-keep-le, if◌then◌else◌,
}
use aizen_gate.Base.Int.{ℤ, pos, at_most, minus, pos_part, below}
use aizen_gate.RateLimit.SlidingWindow.{SortedSets, sliding_window}

-- What Redis documents of the commands: `scores` are those of a key, the last added first, and
-- `is_new` says that a member is not in the set of the key. An expiration in the future leaves the
-- set as it is; one that is not in the future deletes it, and no law speaks of it.
pub record SortedSetLaws {R : Type 0} (sets : SortedSets R) : Type 0 where
  pub scores : String → R → List ℕ
  pub is_new : String → String → R → Bool
  pub zcard_lem : (key : String) (r : R) → sets.zcard key r ≡ length (scores key r)
  pub zremrangebyscore_lem :
      (key : String) (high : ℤ) (r : R)
      → scores key (sets.zremrangebyscore key high r)
        ≡ keep (λ s. not (at_most s high)) (scores key r)
  pub zadd_lem :
      (key : String) (score : ℕ) (member : String) (r : R)
      → is_new key member r ≡ true
      → scores key (sets.zadd key score member r) ≡ score ∷ scores key r
  pub pexpire_lem :
      (key : String) (ms : ℕ) (r : R)
      → 0 < ms
      → scores key (sets.pexpire key (pos ms) r) ≡ scores key r

-- The requests of the last `width` milliseconds before `now`.
abbrev pub recent : ℕ → ℕ → ℕ → Bool
recent width now t = ltb now (t + width)

-- A call of the script, the time since the call before it, and the member that it would log.
pub record Hit : Type 0 where
  pub delay : ℕ
  pub member : String

not-at_most : (now width s : ℕ) → not (at_most s (minus now (pos width))) ≡ recent width now s
not-at_most now width s = ground arith

-- What is recent later is recent now.
recent_earlier : (width now d t : ℕ) → recent width (now + d) t ≡ true → recent width now t ≡ true
recent_earlier width now d t h = ground arith

module _ {R : Type 0} (sets : SortedSets R) (laws : SortedSetLaws sets) (key : String) (limit : ℤ)
    (width : ℕ) where
  open laws use {scores, is_new, zcard_lem, zremrangebyscore_lem, zadd_lem, pexpire_lem}

  abbrev cleared : ℕ → R → R
  cleared now r = sets.zremrangebyscore key (minus now (pos width)) r

  scores-cleared :
      (now : ℕ) (r : R) → scores key (cleared now r) ≡ keep (recent width now) (scores key r)
  scores-cleared now r =
      rw zremrangebyscore_lem
        (ap (λ p. keep p (scores key r)) (fun_ext (λ s. not-at_most now width s)))

  -- The log holds the admitted requests of the window, and no more than the limit.
  pub record IsLog (now : ℕ) (admitted : List ℕ) (r : R) : Type 0 where
    pub logged : scores key r ≡ keep (recent width now) admitted
    pub fits : length (keep (recent width now) admitted) ≤ pos_part limit

  -- The window moves on, and the script clears what falls out of it.
  IsLog-cleared :
      (now d : ℕ) (admitted : List ℕ) (r : R)
      → IsLog now admitted r
      → IsLog (now + d) admitted (cleared (now + d) r)
  IsLog-cleared now d admitted r h =
      let same =
        keep-keep (recent width (now + d)) (recent width now) admitted
          (recent_earlier width now d) in
      record {
        logged = rw (scores-cleared (now + d) r, h.logged) same;
        fits = omega (
          arith,
          h.fits,
          ap length same,
          length-keep-le (recent width (now + d)) (keep (recent width now) admitted),
        );
      }

  abbrev called : ℕ → String → R → R × ℕ
  called now member r = sliding_window sets key now limit (pos width) member r

  -- The admitted times after a call that answers `n`.
  abbrev pub noted : ℕ → ℕ → List ℕ → List ℕ
  noted n now admitted = if n == 1 then now ∷ admitted else admitted

  -- On a log that holds the admitted requests, the script admits a request exactly if fewer than
  -- the limit were admitted in the window before it.
  pub sliding_window_iff :
      (now d : ℕ) (admitted : List ℕ) (member : String) (r : R)
      → IsLog now admitted r
      → ((sliding_window sets key (now + d) limit (pos width) member r).1 ≡ 1)
        ↔ (length (keep (recent width (now + d)) admitted) < pos_part limit)
  unfolding sliding_window
  sliding_window_iff now d admitted member r h =
      let c = IsLog-cleared now d admitted r h in
      ground (arith, zcard_lem key (cleared (now + d) r), ap length c.logged)

  IsLog-added :
      (now : ℕ) (admitted : List ℕ) (member : String) (r : R)
      → 0 < width
      → is_new key member r ≡ true
      → IsLog now admitted r
      → length (keep (recent width now) admitted) < pos_part limit
      → IsLog now (now ∷ admitted) (sets.pexpire key (pos width) (sets.zadd key now member r))
  unfolding keep
  IsLog-added now admitted member r wide new c room = record {
    logged =
        rw
          (
            pexpire_lem key width (sets.zadd key now member r) wide,
            zadd_lem key now member r new,
            c.logged,
          )
          (ground arith);
    fits = ground arith;
  }

  pub IsLog-called :
      (now d : ℕ) (admitted : List ℕ) (member : String) (r : R)
      → 0 < width
      → is_new key member (cleared (now + d) r) ≡ true
      → IsLog now admitted r
      → let o = called (now + d) member r in IsLog (now + d) (noted o.1 (now + d) admitted) o.0
  unfolding sliding_window
  IsLog-called now d admitted member r wide new h =
      let c = IsLog-cleared now d admitted r h in
      elim (Bool-cases (below (sets.zcard key (cleared (now + d) r)) limit)) [
        | inl room ↦ rw room (
            IsLog-added (now + d) admitted member (cleared (now + d) r) wide new c
              (ground (arith, zcard_lem key (cleared (now + d) r), ap length c.logged)))
        | inr full ↦ rw full c
      ]

  -- The state and the admitted times after a run of calls.
  pub run : List Hit → ℕ → List ℕ → R → R × List ℕ
  run [] now admitted r = (r, admitted)
  run (h ∷ hs) now admitted r =
      let o = called (now + h.delay) h.member r in
      run hs (now + h.delay) (noted o.1 (now + h.delay) admitted) o.0

  -- Each call's member is new to the set when it is added.
  abbrev pub HasNewMembers : List Hit → ℕ → R → Type 0
  HasNewMembers [] now r = Unit
  HasNewMembers (h ∷ hs) now r =
      (is_new key h.member (cleared (now + h.delay) r) ≡ true)
      × HasNewMembers hs (now + h.delay) (called (now + h.delay) h.member r).0

  abbrev pub end_of : List Hit → ℕ → ℕ
  end_of [] now = now
  end_of (h ∷ hs) now = end_of hs (now + h.delay)

  IsLog-run :
      (hs : List Hit) (now : ℕ) (admitted : List ℕ) (r : R)
      → 0 < width
      → HasNewMembers hs now r
      → IsLog now admitted r
      → IsLog (end_of hs now) (run hs now admitted r).1 (run hs now admitted r).0
  unfolding run
  IsLog-run [] now admitted r wide new h = h
  IsLog-run (k ∷ hs) now admitted r wide (new, rest) h =
      IsLog-run hs (now + k.delay) _ _ wide rest
        (IsLog-called now k.delay admitted k.member r wide new h)

  -- From an empty log, for a window of positive width and members that are new when they are
  -- logged, whatever calls are made, at most the limit is admitted in the window that ends with the
  -- last call.
  pub run-le-limit :
      (hs : List Hit) (now : ℕ) (r : R)
      → 0 < width
      → HasNewMembers hs now r
      → scores key r ≡ []
      → length (keep (recent width (end_of hs now)) (run hs now [] r).1) ≤ pos_part limit
  unfolding keep
  run-le-limit hs now r wide new empty =
      (IsLog-run hs now [] r wide new (record { logged = empty; fits = omega arith })).fits
