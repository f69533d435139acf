-- ===== src/RateLimit/SlidingWindow/Tests.antt =====
-- The theorems on the Redis limiter of internal/ratelimit/limiter.go and its script at concrete
-- inputs, with a store that holds one sorted set.
use aizen_gate.Base.{
  ℕ, ◌+◌, ◌≡◌, ◌<◌, ◌↔◌, refl, String, Bool, true, not, List, [], ◌∷◌, map, arith, length, keep,
  if◌then◌else◌,
}
use aizen_gate.Base.Int.{pos, at_most, pos_part}
use aizen_gate.RateLimit.SlidingWindow.{SortedSets, sliding_window}
use aizen_gate.RateLimit.SlidingWindow.Window.{SortedSetLaws, recent, sliding_window_iff}
-- The entries of the set, and whether the script is cached.
use aizen_gate.RateLimit.SlidingWindow.Store.{is_new, rescore, times, times-keep, length-times}

record OneSet : Type 0 where
  entries : List (ℕ × String)
  cached : Bool

abbrev one_set : SortedSets OneSet
one_set = record {
  zremrangebyscore =
      λ key high s. record s { entries = keep (λ e. not (at_most e.0 high)) s.entries };
  zcard = λ key s. length s.entries;
  zadd = λ key score m s. record s {
    entries =
        if is_new m s.entries then (score, m) ∷ s.entries else map (rescore score m) s.entries;
  };
  pexpire = λ key ms s. s;
}

abbrev one_set-laws : SortedSetLaws one_set
one_set-laws = record {
  scores = λ key s. times s.entries;
  is_new = λ key m s. is_new m s.entries;
  zcard_lem = λ key s. length-times s.entries;
  zremrangebyscore_lem = λ key high s. times-keep (λ t. not (at_most t high)) s.entries;
  zadd_lem = λ key score m s new. rw new refl;
  pexpire_lem = λ key ms s ahead. refl;
}

abbrev one_hit : OneSet
one_hit = record { entries = (95, "x") ∷ []; cached = true }

sliding_window_iff_example :
    ((sliding_window one_set "k" (96 + 3) (pos 2) (pos 10) "y" one_hit).1 ≡ 1)
    ↔ (length (keep (recent 10 (96 + 3)) (95 ∷ [])) < pos_part (pos 2))
unfolding keep
sliding_window_iff_example =
    sliding_window_iff one_set one_set-laws "k" (pos 2) 10 96 3 (95 ∷ []) "y" one_hit
      (record { logged = refl; fits = omega arith })
