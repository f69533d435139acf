-- ===== src/Ai/Analyzer/Tests.antt =====
-- The theorems on internal/ai/analyzer.go at concrete inputs, with numbers in place of float64.
use aizen_gate.Base.{
  ℕ, String, ◌+◌, ◌-◌, ◌*◌, ◌/◌, ◌≡◌, refl, some, List, [], ◌∷◌, length, ltb, is_some, true, arith,
}
use aizen_gate.Base.Int.{pos, pos_part}
use aizen_gate.Base.Dict.{Dict, lookup, insert}
use aizen_gate.ControlPlane.{Plane, get_policy}
use aizen_gate.ControlPlane.Handler.{lacks_fields, with_defaults}
use aizen_gate.ControlPlane.Handler.Saving.{lacks_fields_iff}
use aizen_gate.ControlPlane.Handler.Cached.{IsValid, with_defaults-IsUsable, insert-IsValid}
use aizen_gate.Ai.Analyzer.{
  Floats, analyze_tps, is_anomalous, threshold_of, mean_of, sum_from, variance_from,
  execute_rate_limit_scaling,
}
use aizen_gate.Metrics.{snapshot, new_handler}
use aizen_gate.Metrics.Counting.{total}
use aizen_gate.Metrics.Shared.{Job, record_all}
use aizen_gate.Ai.Analyzer.Ticks.{current_total, throughput, throughput-record_all}
use aizen_gate.Ai.Analyzer.Scaling.{scaling_scales_every_policy}
use aizen_gate.Fixtures.{steady, offline, sample, sample_json}

abbrev whole : Floats ℕ
whole = record {
  zero_point = 0;
  one_point = 1;
  three = 3;
  five = 5;
  of_nat = λ n. n;
  add = λ x y. x + y;
  sub = λ x y. x - y;
  mul = λ x y. x * y;
  div = λ x y. x / y;
  square = λ x. x * x;
  root = λ x. x;
  less = ltb;
  scale = λ n x. pos (pos_part n * x);
}

abbrev calm : List ℕ
calm = 9 ∷ 9 ∷ 9 ∷ 9 ∷ 9 ∷ []

spike : is_some (analyze_tps whole 40 calm).1 ≡ true
unfolding analyze_tps is_anomalous threshold_of mean_of sum_from variance_from
spike = refl

abbrev plane : Plane (Dict String)
plane = record { client = record offline { policies = ("a", sample) ∷ [] }; etcd = [] }

none-IsValid : IsValid []
unfolding lookup
none-IsValid = record { unique = tt; usable = λ k p e. absurd (cc) }

sample-IsValid : IsValid (("a", sample) ∷ [])
unfolding insert with_defaults lacks_fields
sample-IsValid =
    insert-IsValid "a" sample [] (with_defaults-IsUsable sample ((lacks_fields_iff sample).0 refl))
      none-IsValid

scaling_scales_every_policy_example :
    get_policy "a" (execute_rate_limit_scaling whole steady sample_json 2 plane).client
    ≡ some (record sample { limit = pos 200 })
unfolding get_policy lookup
scaling_scales_every_policy_example =
    scaling_scales_every_policy whole 2 steady sample_json plane "a" refl sample-IsValid

abbrev hello : Job
hello = record { method = "GET"; path = "/x"; status = 200; duration = 3000000 }

throughput-record_all_example :
    throughput whole
      (λ n. n)
      1
      (snapshot 0 (record_all (hello ∷ hello ∷ []) (new_handler 0)))
      (current_total (new_handler 0).requests_total)
    ≡ (
      whole.div (length (hello ∷ hello ∷ [])) 1,
      current_total (new_handler 0).requests_total + length (hello ∷ hello ∷ []),
    )
unfolding new_handler total
throughput-record_all_example =
    throughput-record_all whole (λ n. n) 1 0 (hello ∷ hello ∷ []) (new_handler 0) (omega arith)
