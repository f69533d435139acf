-- ===== src/Ai/Analyzer.antt =====
-- internal/ai/analyzer.go: the history of the throughput, the test for a spike, and the scaling of
-- the limits. float64 is a parameter with its operations.
pub mod History
pub mod Scaling
pub mod Ticks
mod Tests
use aizen_gate.Base.{
  ℕ, ◌+◌, ◌-◌, ◌≤◌, String, Bool, ◌&&◌, Option, none, some, List, [], ◌∷◌, ◌++◌, length, drop, ltb,
  leb, str_eq, if◌then◌else◌,
}
use aizen_gate.Base.Int.{ℤ}
use aizen_gate.Policy.{Policy}
use aizen_gate.ControlPlane.{
  Etcd, PolicyJson, Plane, Client, prefix, get_all_policies, add_policy_to_cache,
}
use aizen_gate.Ai.{clean_json}

-- The numbers and operations of float64 that the agent uses; `scale` is `int(float64(n) * x)`.
pub record Floats (F : Type 0) : Type 0 where
  pub zero_point : F
  pub one_point : F
  pub three : F
  pub five : F
  pub of_nat : ℕ → F
  pub add : F → F → F
  pub sub : F → F → F
  pub mul : F → F → F
  pub div : F → F → F
  pub square : F → F
  pub root : F → F
  pub less : F → F → Bool
  pub scale : ℤ → F → ℤ

-- The answer of the model.
pub record AnalyzerResult (F : Type 0) : Type 0 where
  pub anomalous : Bool
  pub suggestion : String
  pub factor : F

abbrev pub max_history : ℕ
max_history = 60

module _ {F : Type 0} (floats : Floats F) where
  unfoldable pub sum_from : F → List F → F
  sum_from total [] = total
  sum_from total (x ∷ xs) = sum_from (floats.add total x) xs

  unfoldable pub variance_from : F → F → List F → F
  variance_from mean total [] = total
  variance_from mean total (x ∷ xs) =
      variance_from mean (floats.add total (floats.square (floats.sub x mean))) xs

  unfoldable pub mean_of : List F → F
  mean_of xs = floats.div (sum_from floats.zero_point xs) (floats.of_nat (length xs))

  -- Mean and three standard deviations.
  unfoldable pub threshold_of : List F → F
  threshold_of xs =
      let mean = mean_of xs in
      let variance =
        floats.div (variance_from mean floats.zero_point xs) (floats.of_nat (length xs)) in
      floats.add mean (floats.mul floats.three (floats.root variance))

  unfoldable pub is_anomalous : List F → F → Bool
  is_anomalous xs tps = floats.less (threshold_of xs) tps && floats.less floats.five tps

  -- The rotation of the buffer.
  unfoldable pub push : F → List F → List F
  push tps xs = if leb max_history (length xs) then drop 1 xs ++ tps ∷ [] else xs ++ tps ∷ []

  -- `analyzeTPS`: the new history, and the mean and the throughput of the query that is started.
  unfoldable pub analyze_tps : F → List F → List F × Option (F × F)
  analyze_tps tps xs =
      if ltb (length xs) 5
      then (xs ++ tps ∷ [], none)
      else (push tps xs, if is_anomalous xs tps then some (mean_of xs, tps) else none)

  unfoldable pub scaled : F → Policy → Policy
  scaled factor p = record p { limit = floats.scale p.limit factor }

  -- The loop over the cached policies.
  unfoldable pub scale_cached : F → List Policy → Client → Client
  scale_cached factor [] c = c
  scale_cached factor (p ∷ ps) c = scale_cached factor ps (add_policy_to_cache (scaled factor p) c)

  -- The loop over the stored ones; a failed write is logged only.
  unfoldable pub scale_stored :
      {E : Type 0} → Etcd E → PolicyJson → F → List (String × String) → E → E
  scale_stored etcd json factor [] e = e
  scale_stored etcd json factor ((key, value) ∷ kvs) e = elim (json.unmarshal value) [
    | none ↦ scale_stored etcd json factor kvs e
    | some p ↦ elim (json.marshal (scaled factor p)) [
      | none ↦ scale_stored etcd json factor kvs e
      | some payload ↦ scale_stored etcd json factor kvs (etcd.put key payload e).0
    ]
  ]

  unfoldable pub execute_rate_limit_scaling :
      {E : Type 0} → Etcd E → PolicyJson → F → Plane E → Plane E
  execute_rate_limit_scaling etcd json factor s =
      if s.client.connected
      then elim (etcd.get_prefix prefix s.etcd) [
        | none ↦ s
        | some kvs ↦ record s { etcd = scale_stored etcd json factor kvs s.etcd }
      ]
      else record s { client = scale_cached factor (get_all_policies s.client) s.client }

  abbrev pub factor_of : Option (AnalyzerResult F) → Option F
  factor_of none = none
  factor_of (some r) =
      if r.anomalous
        && str_eq r.suggestion "increase-limit"
        && floats.less floats.one_point r.factor
      then some r.factor
      else none

  -- `queryAIAndScale`, for what the model answers.
  unfoldable pub query_ai_and_scale :
      {E : Type 0}
      → Etcd E
      → PolicyJson
      → (String → Option (AnalyzerResult F))
      → Option String
      → Plane E
      → Plane E
  query_ai_and_scale etcd json read_result answer s = elim answer [
    | none ↦ s
    | some text ↦ elim (factor_of (read_result (clean_json text))) [
      | none ↦ s
      | some factor ↦ execute_rate_limit_scaling etcd json factor s
    ]
  ]
