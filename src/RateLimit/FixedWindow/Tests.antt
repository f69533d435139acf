-- ===== src/RateLimit/FixedWindow/Tests.antt =====
-- Runs of the script of pkg/ratelimiter/limiter.go on a store with one number.
use aizen_gate.Base.{
  ℕ, ◌+◌, ◌-◌, ◌*◌, ◌≤◌, ◌≡◌, refl, Option, none, some, [], ◌∷◌, arith, ltb, ◌==◌, if◌then◌else◌,
}
use aizen_gate.Base.Int.{pos, negsuc}
use aizen_gate.RateLimit.FixedWindow.{Counters, rate_limit_script}
use aizen_gate.RateLimit.FixedWindow.Burst.{CounterLaws, admitted, admitted-le-burst}

abbrev Store : Type 0
Store = ℕ × Option ℕ

abbrev live : ℕ → Store → ℕ
live now (n, none) = n
live now (n, some d) = if ltb now d then n else 0

abbrev one_number : Counters Store
one_number = record {
  incr = λ now key s. let n = live now s + 1 in ((n, if n == 1 then none else s.1), n);
  pexpire =
      λ now key window s. elim window [ pos w ↦ (s.0, some (now + w)) | negsuc w ↦ (0, none) ];
}

incr_reply :
    (now : ℕ) (s : Store)
    → live now s + 1 ≡ (elim s.1 [ none ↦ s.0 | some d ↦ if ltb now d then s.0 else 0 ]) + 1
incr_reply now (n, none) = refl
incr_reply now (n, some d) = refl

abbrev one_number_laws : CounterLaws one_number
one_number_laws = record {
  value = λ key s. s.0;
  deadline = λ key s. s.1;
  incr-reply = λ now key s. incr_reply now s;
  value-incr = λ now key s. refl;
  deadline-incr = λ now key s. refl;
  value-pexpire = λ now key w s h. refl;
  deadline-pexpire = λ now key w s h. refl;
}

-- A window that opens at 0 with a limit of 2: three calls within its last and its next moments.
abbrev opened : Store
opened = (1, some 10)

three_within_window : admitted one_number "k" 10 2 (9 ∷ 10 ∷ 11 ∷ 12 ∷ []) opened ≡ 3
unfolding admitted rate_limit_script
three_within_window = refl

admitted-le-burst_example : admitted one_number "k" 10 2 (9 ∷ 10 ∷ 11 ∷ 12 ∷ []) opened ≤ 2 * 2 - 1
admitted-le-burst_example =
    admitted-le-burst one_number "k" 10 2 one_number_laws (omega arith) (9 ∷ 10 ∷ 11 ∷ 12 ∷ []) 9 13
      opened (λ e. cc) (omega arith) (omega arith)
