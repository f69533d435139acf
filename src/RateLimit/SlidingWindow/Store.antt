-- ===== src/RateLimit/SlidingWindow/Store.antt =====
-- A Redis for the script internal/ratelimit/scripts/sliding_window.lua, as the tests use it: a
-- sorted set for each key, whose members carry the time, and whether the script is cached. An
-- expiration that is not in the future deletes the key.
use aizen_gate.Base.{
  ◌<◌, all, Bool-cases, inl, inr, ℕ, ◌≡◌, ◌≢◌, refl, String, Bool, true, false, not, some, List, [],
  ◌∷◌, map, arith, length, keep, str_eq, eq_refl, eq_iff, if◌then◌else◌,
}
use aizen_gate.Base.Int.{nonpos, pos, at_most}
use aizen_gate.Base.Decimal.{show}
use aizen_gate.RateLimit.SlidingWindow.{SortedSets, sliding_window, Scripts, integer, no_script}
use aizen_gate.RateLimit.SlidingWindow.Window.{SortedSetLaws}
use aizen_gate.RateLimit.SlidingWindow.Reload.{ScriptLaws}
use aizen_gate.RateLimit.SlidingWindow.Clients.{SeparateKeys}

abbrev pub is_new : String → List (ℕ × String) → Bool
is_new m es = all (λ e. not (str_eq e.1 m)) es

abbrev pub rescore : ℕ → String → ℕ × String → ℕ × String
rescore score m e = if str_eq e.1 m then (score, m) else e

abbrev pub times : List (ℕ × String) → List ℕ
times es = map (λ e. e.0) es

pub times-keep :
    (p : ℕ → Bool) (es : List (ℕ × String)) → times (keep (λ e. p e.0) es) ≡ keep p (times es)
unfolding keep
times-keep p [] = refl
times-keep p (e ∷ es) = ground (arith, times-keep p es)

pub length-times : (es : List (ℕ × String)) → length es ≡ length (times es)
length-times [] = refl
length-times (e ∷ es) = omega (arith, length-times es)

pub record Store : Type 0 where
  pub at : String → List (ℕ × String)
  pub cached : Bool

abbrev pub change : String → (List (ℕ × String) → List (ℕ × String)) → Store → Store
change key f s = record s { at = λ k. if str_eq key k then f (s.at k) else s.at k }

abbrev pub add : ℕ → String → List (ℕ × String) → List (ℕ × String)
add score m es = if is_new m es then (score, m) ∷ es else map (rescore score m) es

abbrev pub keyed : SortedSets Store
keyed = record {
  zremrangebyscore = λ key high. change key (keep (λ e. not (at_most e.0 high)));
  zcard = λ key s. length (s.at key);
  zadd = λ key score m. change key (add score m);
  pexpire = λ key ms s. if nonpos ms then change key (λ es. []) s else s;
}

pub pos-nonpos : (n : ℕ) → 0 < n → nonpos (pos n) ≡ false
pos-nonpos n ahead = ground (arith, ahead)

abbrev pub keyed-laws : SortedSetLaws keyed
keyed-laws = record {
  scores = λ key s. times (s.at key);
  is_new = λ key m s. is_new m (s.at key);
  zcard_lem = λ key s. length-times (s.at key);
  zremrangebyscore_lem =
      λ key high s. rw (eq_refl key) (times-keep (λ t. not (at_most t high)) (s.at key));
  zadd_lem = λ key score m s new. rw (eq_refl key, new) refl;
  pexpire_lem = λ key ms s ahead. rw (pos-nonpos ms ahead) refl;
}

abbrev pub caching : Scripts Store
caching = record {
  script_load = λ s. (record s { cached = true }, some "S");
  eval_sha = λ sha key now limit window s.
      let o = sliding_window keyed key now limit window (show now) s in
      if s.cached then (o.0, integer o.1) else (s, no_script);
}

abbrev pub caching-laws : ScriptLaws caching keyed
caching-laws = record {
  sha = "S";
  held = λ s. s.cached;
  with_script = λ s. record s { cached = true };
  draw = λ now s. show now;
  script_load_lem = λ s. refl;
  held-with_script = λ s. refl;
  eval_sha_held = λ key now limit window s held. rw held refl;
  eval_sha_missing = λ any key now limit window s missing. rw missing refl;
}

pub unequal : (a b : String) → a ≢ b → str_eq a b ≡ false
unequal a b ne = ground (arith, ne, eq_iff a b)

pub separate : SeparateKeys keyed-laws caching-laws
separate = record {
  zremrangebyscore_other = λ key k high s ne. rw (unequal key k ne) refl;
  zadd_other = λ key k score m s ne. rw (unequal key k ne) refl;
  pexpire_other = λ key k ms s ne. elim (Bool-cases (nonpos ms)) [
    | inl past ↦ rw (past, unequal key k ne) refl
    | inr ahead ↦ rw ahead refl
  ];
  with_script_other = λ k s. refl;
}
