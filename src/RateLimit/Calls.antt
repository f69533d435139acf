-- ===== src/RateLimit/Calls.antt =====
-- Calls of a limiter of internal/ratelimit that come one after another.
use aizen_gate.Base.{
  ℕ, ◌+◌, ◌≤◌, ◌≡◌, refl, ap, subst, String, Bool, true, ◌&&◌, List, [], ◌∷◌, arith, str_eq,
  if◌then◌else◌,
}
use aizen_gate.Base.Int.{ℤ}
use aizen_gate.RateLimit.Limiter.{Limiter, Answer, allowed, error}

-- What lets a request pass the limiter: a positive verdict, or an error.
abbrev pub passes : Answer → Bool
passes (allowed verdict) = verdict
passes error = true

-- A call of `Allow`, and the time since the one before it.
pub record Call : Type 0 where
  pub client : String
  pub limit : ℤ
  pub window : ℤ
  pub delay : ℕ

abbrev pub elapsed : List Call → ℕ
elapsed [] = 0
elapsed (k ∷ ks) = k.delay + elapsed ks

abbrev pub last_time : List Call → ℕ → ℕ
last_time [] now = now
last_time (k ∷ ks) now = last_time ks (now + k.delay)

pub last_time-elapsed : (ks : List Call) (now : ℕ) → last_time ks now ≡ now + elapsed ks
last_time-elapsed [] now = omega arith
last_time-elapsed (k ∷ ks) now = omega (arith, last_time-elapsed ks (now + k.delay))

-- The same calls, the first of them later.
abbrev pub postpone : ℕ → List Call → List Call
postpone d [] = []
postpone d (k ∷ ks) = record k { delay = d + k.delay } ∷ ks

pub elapsed-postpone : (d : ℕ) (ks : List Call) → elapsed (postpone d ks) ≤ d + elapsed ks
elapsed-postpone d [] = omega arith
elapsed-postpone d (k ∷ ks) = omega arith

-- Each call of a list is of the kind `Meets`.
abbrev pub AllMeet : (Call → Type 0) → List Call → Type 0
AllMeet Meets [] = Unit
AllMeet Meets (k ∷ ks) = Meets k × AllMeet Meets ks

module _ {L : Type 0} (limiter_of : ℕ → Limiter L) where
  -- The limiter's state behind a run of calls.
  unfoldable pub after_calls : List Call → ℕ → L → L
  after_calls [] now l = l
  after_calls (k ∷ ks) now l =
      after_calls ks (now + k.delay)
        ((limiter_of (now + k.delay)).allow k.client k.limit k.window l).0

  -- What each call of a run finds: the time, the state of the limiter, and its own client.
  abbrev pub AllFind : (ℕ → L → String → Type 0) → List Call → ℕ → L → Type 0
  AllFind Finds [] now l = Unit
  AllFind Finds (k ∷ ks) now l =
      Finds (now + k.delay) l k.client
      × AllFind Finds ks (now + k.delay)
          ((limiter_of (now + k.delay)).allow k.client k.limit k.window l).0

  -- How many of the calls for `c` let their request pass.
  unfoldable pub let_in : String → List Call → ℕ → L → ℕ
  let_in c [] now l = 0
  let_in c (k ∷ ks) now l =
      let o = (limiter_of (now + k.delay)).allow k.client k.limit k.window l in
      (if str_eq k.client c && passes o.1 then 1 else 0) + let_in c ks (now + k.delay) o.0

  pub after_calls-postpone :
      (d : ℕ) (ks : List Call) (now : ℕ) (l : L)
      → after_calls (postpone d ks) now l ≡ after_calls ks (now + d) l
  unfolding after_calls
  after_calls-postpone d [] now l = refl
  after_calls-postpone d (k ∷ ks) now l =
      let t : now + (d + k.delay) ≡ now + d + k.delay = omega arith in
      ap (λ n. after_calls ks n ((limiter_of n).allow k.client k.limit k.window l).0) t

  pub AllFind-postpone :
      (Finds : ℕ → L → String → Type 0) (d : ℕ) (ks : List Call) (now : ℕ) (l : L)
      → AllFind Finds ks (now + d) l
      → AllFind Finds (postpone d ks) now l
  AllFind-postpone Finds d [] now l h = tt
  AllFind-postpone Finds d (k ∷ ks) now l h =
      let t : now + d + k.delay ≡ now + (d + k.delay) = omega arith in
      subst
        (λ n.
          Finds n l k.client
          × AllFind Finds ks n ((limiter_of n).allow k.client k.limit k.window l).0)
        t h

  pub let_in-postpone :
      (c : String) (d : ℕ) (ks : List Call) (now : ℕ) (l : L)
      → let_in c (postpone d ks) now l ≡ let_in c ks (now + d) l
  unfolding let_in
  let_in-postpone c d [] now l = refl
  let_in-postpone c d (k ∷ ks) now l =
      let t : now + (d + k.delay) ≡ now + d + k.delay = omega arith in
      ap
        (λ n.
          let o = (limiter_of n).allow k.client k.limit k.window l in
          (if str_eq k.client c && passes o.1 then 1 else 0) + let_in c ks n o.0)
        t
