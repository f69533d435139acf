-- ===== src/Ai/Healer/Rate.antt =====
-- From the requests that internal/metrics/handler.go records to the decision of
-- internal/ai/healer.go.
use aizen_gate.Base.{
  ℕ, ◌+◌, ◌^◌, ◌≤◌, ◌<◌, ◌≡◌, ◌↔◌, refl, String, Bool, true, false, ◌||◌, List, [], ◌∷◌, length,
  arith, ◌==◌, str_eq, eq_iff, eq_refl, get_or, if◌then◌else◌, Bool-cases, inl, inr,
}
use aizen_gate.Base.Dict.{Dict, lookup, insert, lookup-insert}
use aizen_gate.Metrics.{Metrics, add_int64, bump, normalize_path, record_request}
use aizen_gate.Metrics.Counting.{total, lookup-le-total}
use aizen_gate.Metrics.Shared.{Job, request_key, record_all}
use aizen_gate.Ai.Analyzer.Ticks.{total-record_all}
use aizen_gate.Ai.Healer.{is_failure, count, SelfHealer, since, Rates, failure_rate, tick}
use aizen_gate.Ai.Healer.Threshold.{is_failure-counter_key, tick_iff}

count-total : (m : Dict ℕ) → (count m).total ≡ total m
unfolding count total
count-total [] = refl
count-total ((k, n) ∷ m) = omega (arith, count-total m)

failed-insert :
    (k : String) (v : ℕ) (m : Dict ℕ)
    → (count (insert k v m)).failed + (if is_failure k then get_or (lookup k m) 0 else 0)
      ≡ (count m).failed + (if is_failure k then v else 0)
unfolding count insert lookup
failed-insert k v [] = ground arith
failed-insert k v ((j, w) ∷ m) = elim (Bool-cases (str_eq j k)) [
  | inl same ↦ let e : j ≡ k = (eq_iff j k).0 same in rw (e, eq_refl k) (ground arith)
  | inr other ↦ ground (arith, failed-insert k v m)
]

failed-bump :
    (k : String) (m : Dict ℕ)
    → total m + 1 < 2 ^ 63
    → (count (bump k 1 m)).failed ≡ (count m).failed + (if is_failure k then 1 else 0)
unfolding bump
failed-bump k m h = ground (
  arith,
  failed-insert k (add_int64 0 1) (insert k 0 m),
  failed-insert k 0 m,
  failed-insert k (add_int64 (get_or (lookup k m) 0) 1) m,
  lookup-insert k k 0 m,
  eq_refl k,
  lookup-le-total k m,
)

-- The statuses that count as a failure.
abbrev pub fails : Job → Bool
fails j = j.status == 502 || j.status == 504 || j.status == 500

unfoldable pub failing : List Job → ℕ
failing [] = 0
failing (j ∷ js) = (if fails j then 1 else 0) + failing js

failed-record_request :
    (j : Job) (h : Metrics)
    → total h.requests_total + 1 < 2 ^ 63
    → (count (record_request j.method j.path j.status j.duration h).requests_total).failed
      ≡ (count h.requests_total).failed + (if fails j then 1 else 0)
unfolding record_request
failed-record_request j h bound = ground (
  arith,
  failed-bump (request_key j) h.requests_total bound,
  is_failure-counter_key j.method (normalize_path j.path) j.status,
)

failed-record_all :
    (js : List Job) (h : Metrics)
    → total h.requests_total + length js < 2 ^ 63
    → (count (record_all js h).requests_total).failed ≡ (count h.requests_total).failed + failing js
unfolding record_all failing
failed-record_all [] h bound = omega arith
failed-record_all (j ∷ js) h bound =
    let grown = total-record_all js h (omega arith) in
    let rest = failed-record_all js h (omega arith) in
    omega (arith, failed-record_request j (record_all js h) (omega (arith, grown)), rest)

-- While fewer than 2^63 requests were recorded in all, a tick of the healer starts a query exactly
-- if none is in flight, at least 10 requests were recorded since its last tick, and the failure
-- rate in percent, which float64 computes from the number of those with the status 500, 502 or 504
-- and the number of all, is at least the limit.
pub tick-record_all :
    {F : Type 0} (rates : Rates F) (limit : F) (js : List Job) (h : Metrics) (s : SelfHealer)
    → total h.requests_total + length js < 2 ^ 63
    → s.last ≡ count h.requests_total
    → ((tick rates limit (record_all js h).requests_total s).1 ≡ true) ↔ (
        (s.is_failing_over ≡ false)
        × (10 ≤ length js)
        × (rates.at_least
              (failure_rate rates (record { total = length js; failed = failing js }))
              limit
            ≡ true))
tick-record_all rates limit js h s bound last =
    let now = count (record_all js h).requests_total in
    let all : now.total ≡ (count h.requests_total).total + length js = omega (
      arith,
      count-total (record_all js h).requests_total,
      count-total h.requests_total,
      total-record_all js h bound,
    ) in
    let bad = failed-record_all js h bound in
    let seen : (since s.last now).total ≡ length js = rw last (omega (arith, all)) in
    let broken : (since s.last now).failed ≡ failing js = rw last (omega (arith, bad)) in
    rw (seen, broken) at (tick_iff rates limit (record_all js h).requests_total s)
