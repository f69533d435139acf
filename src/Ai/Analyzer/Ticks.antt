-- ===== src/Ai/Analyzer/Ticks.antt =====
-- `runLoop` of internal/ai/analyzer.go: from the request counters to the throughput of an interval.
use aizen_gate.Base.{ℕ, ◌+◌, ◌-◌, ◌%◌, ◌^◌, ◌<◌, ◌≡◌, refl, Option, List, [], ◌∷◌, length, arith}
use aizen_gate.Base.Dict.{Dict}
use aizen_gate.Metrics.{Metrics, Snapshot, snapshot}
use aizen_gate.Metrics.Counting.{total, total-record_request}
use aizen_gate.Metrics.Shared.{Job, record_all}
use aizen_gate.Ai.Analyzer.{Floats, analyze_tps}

-- `currentTotal` of the loop over the counters, an int64
unfoldable pub current_total : Dict ℕ → ℕ
current_total [] = 0
current_total ((_, count) ∷ counters) = (count + current_total counters) % 2 ^ 64

-- `of_int64` is the conversion of an int64 to float64, `seconds` the length of the interval.
module _ {F : Type 0} (floats : Floats F) (of_int64 : ℕ → F) (seconds : F) where
  -- What a tick hands to `analyzeTPS`, and the count that it keeps for the next one.
  unfoldable pub throughput : Snapshot → ℕ → F × ℕ
  unfolding current_total
  throughput s last_request_count =
      let current = current_total s.requests_total in
      (floats.div (of_int64 ((current + 2 ^ 64 - last_request_count) % 2 ^ 64)) seconds, current)

  unfoldable pub run_tick : Snapshot → ℕ → List F → ℕ × List F × Option (F × F)
  unfolding throughput
  run_tick s last_request_count history =
      let (tps, current) = throughput s last_request_count in
      let (history', query) = analyze_tps floats tps history in (current, history', query)

current_total_lem : (m : Dict ℕ) → current_total m ≡ total m % 2 ^ 64
unfolding current_total total
current_total_lem [] = refl
current_total_lem ((k, n) ∷ m) = omega (arith, current_total_lem m)

pub total-record_all :
    (js : List Job) (h : Metrics)
    → total h.requests_total + length js < 2 ^ 63
    → total (record_all js h).requests_total ≡ total h.requests_total + length js
unfolding record_all
total-record_all [] h bound = omega arith
total-record_all (j ∷ js) h bound =
    let rest = total-record_all js h (omega arith) in
    omega (
      arith,
      total-record_request j.method j.path j.status j.duration (record_all js h)
          (omega (arith, rest)),
      rest,
    )

module _ {F : Type 0} (floats : Floats F) (of_int64 : ℕ → F) (seconds : F) where
  -- A tick counts exactly the requests that were recorded since the tick before it, while fewer
  -- than 2^63 were recorded in all, and keeps their number for the next tick.
  pub throughput-record_all :
      (now : ℕ) (js : List Job) (h : Metrics)
      → total h.requests_total + length js < 2 ^ 63
      → throughput floats of_int64 seconds
          (snapshot now (record_all js h))
          (current_total h.requests_total)
        ≡ (floats.div (of_int64 (length js)) seconds, current_total h.requests_total + length js)
  unfolding throughput snapshot
  throughput-record_all now js h bound =
      let before = current_total_lem h.requests_total in
      let after = current_total_lem (record_all js h).requests_total in
      let grown = total-record_all js h bound in
      let diff : (current_total (record_all js h).requests_total
              + 2 ^ 64
              - current_total h.requests_total)
            % 2 ^ 64
          ≡ length js =
        omega (arith, before, after, grown) in
      let kept : current_total (record_all js h).requests_total
          ≡ current_total h.requests_total + length js =
        omega (arith, before, after, grown) in
      rw (diff, kept) refl
