-- ===== src/RateLimit/FixedWindow/Burst.antt =====
-- How many requests the script of pkg/ratelimiter/limiter.go lets through in one window's length.
use aizen_gate.Base.{
  ℕ, ◌+◌, ◌-◌, ◌*◌, ◌≤◌, ◌<◌, ◌≡◌, String, Option, none, some, List, [], ◌∷◌, arith, ltb, ◌==◌,
  if◌then◌else◌, Bool-cases, inl, inr, Option-cases, ◌⊎◌, ◌&&◌,
}
use aizen_gate.Base.Int.{pos}
use aizen_gate.RateLimit.FixedWindow.{Counters, rate_limit_script}

-- What Redis documents of INCR and PEXPIRE, in terms of the number under a key and the time from
-- which it is gone: a missing or expired number counts as 0, INCR keeps the time of a number that
-- is there, and PEXPIRE sets it.
pub record CounterLaws {R : Type 0} (counters : Counters R) : Type 0 where
  pub value : String → R → ℕ
  pub deadline : String → R → Option ℕ
  pub incr-reply :
      (now : ℕ) (key : String) (r : R)
      → (counters.incr now key r).1
        ≡ (elim (deadline key r) [
          | none ↦ value key r
          | some d ↦ if ltb now d then value key r else 0
        ])
          + 1
  pub value-incr :
      (now : ℕ) (key : String) (r : R)
      → value key (counters.incr now key r).0 ≡ (counters.incr now key r).1
  pub deadline-incr :
      (now : ℕ) (key : String) (r : R)
      → deadline key (counters.incr now key r).0
        ≡ (if (counters.incr now key r).1 == 1 then none else deadline key r)
  pub value-pexpire :
      (now : ℕ) (key : String) (window : ℕ) (r : R)
      → 0 < window
      → value key (counters.pexpire now key (pos window) r) ≡ value key r
  pub deadline-pexpire :
      (now : ℕ) (key : String) (window : ℕ) (r : R)
      → 0 < window
      → deadline key (counters.pexpire now key (pos window) r) ≡ some (now + window)

-- The calls come in order, from `first` on and before `last`.
abbrev pub Between : ℕ → ℕ → List ℕ → Type 0
Between first last [] = Unit
Between first last (t ∷ ts) = (first ≤ t) × (t < last) × Between t last ts

module _ {R : Type 0} (counters : Counters R) (key : String) (window limit : ℕ) where
  abbrev call : ℕ → R → R × ℕ
  call t r = rate_limit_script counters key (pos window) (pos limit) t r

  -- How many calls at these times are let through.
  unfoldable pub admitted : List ℕ → R → ℕ
  admitted [] r = 0
  admitted (t ∷ ts) r = (call t r).1 + admitted ts (call t r).0

  module _ (laws : CounterLaws counters) (positive : 0 < window) where
    abbrev IsCounting : ℕ → R → Type 0
    IsCounting d r = (laws.deadline key r ≡ some d) × (0 < laws.value key r)

    -- A call while the window lasts.
    call_inside :
        (t d : ℕ) (r : R)
        → IsCounting d r
        → t < d
        → IsCounting d (call t r).0
          × (laws.value key (call t r).0 ≡ laws.value key r + 1)
          × ((call t r).1 + (limit - (laws.value key r + 1)) ≤ limit - laws.value key r)
    unfolding rate_limit_script
    call_inside t d r (at, some_calls) inside =
        let law = laws.incr-reply t key r in
        let reply : (counters.incr t key r).1 ≡ laws.value key r + 1 = ground arith in
        (
          (ground (arith, laws.deadline-incr t key r), ground (arith, laws.value-incr t key r)),
          ground (arith, laws.value-incr t key r),
          ground arith,
        )

    -- A call that opens a window.
    call_opens :
        (t : ℕ) (r : R)
        → (counters.incr t key r).1 ≡ 1
        → IsCounting (t + window) (call t r).0
          × (laws.value key (call t r).0 ≡ 1)
          × ((call t r).1 + (limit - 1) ≤ limit)
    unfolding rate_limit_script
    call_opens t r first = (
      (
        ground (arith, laws.deadline-pexpire t key window (counters.incr t key r).0 positive),
        ground (
          arith,
          laws.value-incr t key r,
          laws.value-pexpire t key window (counters.incr t key r).0 positive,
        ),
      ),
      ground (
        arith,
        laws.value-incr t key r,
        laws.value-pexpire t key window (counters.incr t key r).0 positive,
      ),
      ground arith,
    )

    -- Within a window, what is left of the limit is let through.
    admitted_inside :
        (ts : List ℕ) (first last d : ℕ) (r : R)
        → IsCounting d r
        → last ≤ d
        → Between first last ts
        → admitted ts r ≤ limit - laws.value key r
    unfolding admitted
    admitted_inside [] first last d r counting h b = omega arith
    admitted_inside (t ∷ ts) first last d r counting h (_, lt, b) =
        let (counting', grown, room) = call_inside t d r counting (omega arith) in
        let rest = admitted_inside ts t last d (call t r).0 counting' h b in
        let rest' : admitted ts (call t r).0 ≤ limit - (laws.value key r + 1) = rw (← grown) rest in
        omega arith

    -- A number without a deadline is one that is not there: the script sets both.
    abbrev pub IsExpiring : R → Type 0
    IsExpiring r = laws.deadline key r ≡ none → laws.value key r ≡ 0

    running_or_opens :
        (t : ℕ) (r : R)
        → IsExpiring r
        → ((counters.incr t key r).1 ≡ 1) ⊎ ((d : ℕ) × IsCounting d r × (t < d))
    running_or_opens t r expiring = elim (Option-cases (laws.deadline key r)) [
      | inl missing ↦ inl (ground (arith, laws.incr-reply t key r, expiring missing))
      | inr (d, at) ↦ elim (Bool-cases (ltb t d && ltb 0 (laws.value key r))) [
        | inl running ↦ inr (d, (at, ground arith), ground arith)
        | inr over ↦ inl (ground (arith, laws.incr-reply t key r))
      ]
    ]

    admitted_across :
        (ts : List ℕ) (first last : ℕ) (r : R)
        → IsExpiring r
        → last ≤ first + window
        → Between first last ts
        → admitted ts r ≤ limit - 1 - (laws.value key r - 1) + limit
    unfolding admitted
    admitted_across [] first last r expiring h b = omega arith
    admitted_across (t ∷ ts) first last r expiring h (ge, lt, b) =
        elim (running_or_opens t r expiring) [
          | inl opens ↦
              let (counting, one, room) = call_opens t r opens in
              let rest =
                admitted_inside ts t last (t + window) (call t r).0 counting (omega arith) b in
              let rest' : admitted ts (call t r).0 ≤ limit - 1 = rw (← one) rest in omega arith
          | inr (d, counting, before) ↦
              let (counting', grown, room) = call_inside t d r counting before in
              let rest = admitted_across ts t last (call t r).0 (λ missing. cc) (omega arith) b in
              let rest' : admitted ts (call t r).0
                  ≤ limit - 1 - (laws.value key r + 1 - 1) + limit =
                rw (← grown) rest in
              omega arith
        ]

    -- Over calls in a stretch of time that is no longer than the window, at most twice the limit
    -- less one is let through.
    pub admitted-le-burst :
        (ts : List ℕ) (first last : ℕ) (r : R)
        → IsExpiring r
        → last ≤ first + window
        → Between first last ts
        → admitted ts r ≤ 2 * limit - 1
    admitted-le-burst ts first last r expiring h b =
        omega (arith, admitted_across ts first last r expiring h b)
