-- ===== src/Ai/Mock/Agents.antt =====
-- What the self-healer and the traffic analyser of internal/ai do with the answers of
-- `mockCompletion`.
use aizen_gate.Base.{◌≡◌, refl, ap, String, true, false, Option, some, arith}
use aizen_gate.Base.Text.{contains}
use aizen_gate.Base.Text.Find.{IsDecimal}
use aizen_gate.ControlPlane.{Etcd, PolicyJson, Plane}
use aizen_gate.Ai.{mock_anomaly, mock_failover, clean_json}
use aizen_gate.Ai.Queries.{QueryLibrary, BrainConfig, Sends}
use aizen_gate.Ai.Healer.{HealerResult, execute_failover}
use aizen_gate.Ai.Healer.Failover.{with_target}
use aizen_gate.Ai.Analyzer.{
  Floats, AnalyzerResult, factor_of, query_ai_and_scale, execute_rate_limit_scaling,
}
use aizen_gate.Ai.Agents.{
  healer_system_prompt, analyzer_system_prompt, healer_prompt, analyzer_prompt, recover_by_query,
  scale_by_query,
}
use aizen_gate.Ai.Mock.{
  mock_target, mock_result, mock_completion-healer_prompt, mock_completion-analyzer_prompt,
  clean-failover, clean-anomaly, run_completion-mock,
}

query-scales :
    {F E : Type 0} (floats : Floats F) (etcd : Etcd E) (json : PolicyJson)
    (read_result : String → Option (AnalyzerResult F)) (text : String) (factor : F) (s : Plane E)
    → factor_of floats (read_result (clean_json text)) ≡ some factor
    → query_ai_and_scale floats etcd json read_result (some text) s
      ≡ execute_rate_limit_scaling floats etcd json factor s
unfolding query_ai_and_scale
query-scales floats etcd json read_result text factor s found = ground (arith, found)

module _ (lib : QueryLibrary) (cfg : BrainConfig) {W : Type 0} (sends : Sends W) {E : Type 0}
    (etcd : Etcd E) (no_deepseek : cfg.keys.deepseek ≡ "") (no_gemini : cfg.keys.gemini ≡ "") where
  -- Without a key of a model, every query of the self-healer, whatever the failure rate, sends
  -- nothing and fails over to http://backup-server:9090, which is neither of the two targets that
  -- its system prompt names.
  pub recover_by_query-mock :
      (read_result : String → Option HealerResult) (rate : String) (w : W) (s : Plane E)
      → IsDecimal rate
      → read_result mock_failover ≡ some mock_result
      → (recover_by_query lib cfg sends etcd read_result rate w s
          ≡ (w, (execute_failover etcd mock_target s).0, (execute_failover etcd mock_target s).1))
        × (contains healer_system_prompt mock_target ≡ false)
  unfolding recover_by_query contains
  recover_by_query-mock read_result rate w s number decodes = (
    rw
        (
          run_completion-mock lib cfg sends no_deepseek no_gemini healer_system_prompt
              (healer_prompt rate) w,
          mock_completion-healer_prompt rate number,
          with_target etcd read_result mock_failover mock_target s
              (rw (clean-failover, decodes) refl),
        )
        refl,
    refl,
  )

  -- Without a key of a model, every query of the traffic analyser, whatever the mean and the
  -- throughput, sends nothing and scales the limits by the factor 2.
  pub scale_by_query-mock :
      {F : Type 0} (floats : Floats F) (json : PolicyJson)
      (read_result : String → Option (AnalyzerResult F)) (two : F) (mean tps : String) (w : W)
      (s : Plane E)
      → IsDecimal mean
      → IsDecimal tps
      → read_result mock_anomaly
        ≡ some (record { anomalous = true; suggestion = "increase-limit"; factor = two })
      → floats.less floats.one_point two ≡ true
      → scale_by_query lib cfg sends etcd floats json read_result mean tps w s
        ≡ (w, execute_rate_limit_scaling floats etcd json two s)
  unfolding scale_by_query query_ai_and_scale
  scale_by_query-mock floats json read_result two mean tps w s m n decodes more =
      rw
        (
          run_completion-mock lib cfg sends no_deepseek no_gemini analyzer_system_prompt
              (analyzer_prompt mean tps) w,
          mock_completion-analyzer_prompt mean tps m n,
        )
        (ap (λ p. (w, p))
          (query-scales floats etcd json read_result mock_anomaly two s
            (rw (clean-anomaly, decodes) (ground (arith, more)))))
