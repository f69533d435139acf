-- ===== src/Ai/Healer.antt =====
-- internal/ai/healer.go: the counts of an interval, the threshold, and the failover. float64 is
-- a parameter with its operations; the clock and the goroutines are explicit steps.
pub mod Failover
pub mod Threshold
pub mod Rate
use aizen_gate.Base.{
  ℕ, ◌+◌, ◌-◌, ◌*◌, String, Bool, true, false, not, ◌&&◌, ◌||◌, Option, none, some, List, [], ◌∷◌,
  leb, ltb, str_eq, if◌then◌else◌,
}
use aizen_gate.Base.Dict.{Dict}
use aizen_gate.Base.Text.{has_suffix}
use aizen_gate.ControlPlane.{Etcd, Plane, update_upstream}
use aizen_gate.Ai.{clean_json}

-- The requests of the interval, and those that failed, since the last tick.
pub record Counts : Type 0 where
  pub total : ℕ
  pub failed : ℕ

abbrev pub is_failure : String → Bool
is_failure key = has_suffix key ":502" || has_suffix key ":504" || has_suffix key ":500"

-- The loop over the counters.
unfoldable pub count : Dict ℕ → Counts
count [] = record { total = 0; failed = 0 }
count ((key, n) ∷ counters) =
    let rest = count counters in
    record {
      total = n + rest.total;
      failed = if is_failure key then n + rest.failed else rest.failed;
    }

-- `lastTotalRequests` and `lastFailedRequests` of the loop, and the flag.
pub record SelfHealer : Type 0 where
  pub last : Counts
  pub is_failing_over : Bool

abbrev pub new_self_healer : SelfHealer
new_self_healer = record { last = record { total = 0; failed = 0 }; is_failing_over = false }

-- What an interval adds to the counts, which only grow.
abbrev pub since : Counts → Counts → Counts
since last now = record { total = now.total - last.total; failed = now.failed - last.failed }

-- The numbers and operations of float64 that the agent uses; `at_least x y` is `x >= y`.
pub record Rates (F : Type 0) : Type 0 where
  pub of_count : ℕ → F
  pub div : F → F → F
  pub mul : F → F → F
  pub hundred : F
  pub at_least : F → F → Bool

module _ {F : Type 0} (rates : Rates F) where
  -- `failureRate`, in percent
  abbrev pub failure_rate : Counts → F
  failure_rate c =
      rates.mul (rates.div (rates.of_count c.failed) (rates.of_count c.total)) rates.hundred

  -- `failureRate >= failureLimit`
  abbrev pub is_breached : F → Counts → Bool
  is_breached limit c = rates.at_least (failure_rate c) limit

  -- `evaluateHealth`: the new flag, and whether a query is started.
  unfoldable pub evaluate_health : F → Counts → Bool → Bool × Bool
  evaluate_health limit c is_failing_over =
      if is_failing_over
      then (true, false)
      else if is_breached limit c
      then (true, true)
      else (false, false)

  -- A tick of `runLoop`, on the counters of the snapshot: true if a query is started.
  unfoldable pub tick : F → Dict ℕ → SelfHealer → SelfHealer × Bool
  tick limit counters h =
      let now = count counters in
      let interval = since h.last now in
      let (flag, started) =
        if ltb interval.total 10
        then (h.is_failing_over, false)
        else evaluate_health limit interval h.is_failing_over in
      (record { last = now; is_failing_over = flag }, started)

-- The deferred function of `queryAIAndRecover`
abbrev pub finish : SelfHealer → SelfHealer
finish h = record h { is_failing_over = false }

-- The answer of the model.
pub record HealerResult : Type 0 where
  pub unhealthy : Bool
  pub failover : Bool
  pub new_target : String

-- The target that an answer leads to.
abbrev pub target_of : Option HealerResult → Option String
target_of none = none
target_of (some r) =
    if r.unhealthy && r.failover && not (str_eq r.new_target "") then some r.new_target else none

abbrev pub upstream_key : String
upstream_key = "/zengate/upstream"

module _ {E : Type 0} (etcd : Etcd E) where
  -- `executeFailover`: the new state, and the target that the callback is called with.
  unfoldable pub execute_failover : String → Plane E → Plane E × Option String
  execute_failover target s =
      if s.client.connected
      then (record s { etcd = (etcd.put upstream_key target s.etcd).0 }, none)
      else (s, update_upstream target s.client)

  -- `queryAIAndRecover`, for what the model answers.
  unfoldable pub query_ai_and_recover :
      (String → Option HealerResult) → Option String → Plane E → Plane E × Option String
  query_ai_and_recover read_result answer s = elim answer [
    | none ↦ (s, none)
    | some text ↦ elim (target_of (read_result (clean_json text))) [
      | none ↦ (s, none)
      | some target ↦ execute_failover target s
    ]
  ]
