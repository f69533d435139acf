-- ===== src/Ai/Mock.antt =====
-- What `mockCompletion` of internal/ai/brain.go answers when no key of a model is set.
pub mod Agents
pub mod Translation
use aizen_gate.Base.{
  ◌≡◌, ◌≢◌, refl, ap, ◌∙◌, String, Bool, true, false, Option, some, none, arith, Char, str_eq,
  eq_iff, ◌||◌, if◌then◌else◌,
}
use aizen_gate.Base.Text.{◌<>◌, contains, trim_space, strip_prefix, strip_suffix}
use aizen_gate.Base.Text.Find.{
  IsDecimal, is_decimal, number_lacks, clears, contains-clears, contains-append, contains-decimal,
}
use aizen_gate.Base.Int.{pos}
use aizen_gate.Policy.{Policy}
use aizen_gate.ControlPlane.{Etcd, PolicyJson, Plane, add_policy_to_cache}
use aizen_gate.Ai.{mock_completion, mock_policy, mock_anomaly, mock_failover, clean_json}
use aizen_gate.Ai.Queries.{QueryBody, QueryLibrary, BrainConfig, Sends, run_completion}
use aizen_gate.Ai.Healer.{HealerResult, query_ai_and_recover, execute_failover}
use aizen_gate.Ai.Healer.Failover.{with_target}
use aizen_gate.Ai.Analyzer.{
  Floats, AnalyzerResult, factor_of, query_ai_and_scale, execute_rate_limit_scaling,
}
use aizen_gate.Ai.Agents.{
  healer_system_prompt, analyzer_system_prompt, translator_system_prompt, healer_prompt,
  analyzer_prompt, recover_by_query, scale_by_query, serve_translation,
}
use aizen_gate.Ai.Translator.{
  Messages, serve_http, translate, accept_answer, keep_policy, prompt_of,
}
use aizen_gate.Http.{Request, Writer, respond, saved, set_header, Outcome, done}
use aizen_gate.ControlPlane.Handler.{lacks_fields, with_defaults}

-- A word that the mock looks for is not in the healer's prompt.
not_in_healer_prompt :
    (rate : String) (d : Char) (t : String)
    → IsDecimal rate
    → is_decimal d ≡ false
    → clears "Failure rate is " (String.◌∷◌ d t) ≡ true
    → contains "%" (String.◌∷◌ d t) ≡ false
    → contains (healer_prompt rate) (String.◌∷◌ d t) ≡ false
not_in_healer_prompt rate d t number word clear missing =
    contains-clears "Failure rate is " (rate <> "%") (String.◌∷◌ d t) clear
    ∙ contains-decimal rate "%" d t number word
    ∙ missing

pub mock_completion-healer_prompt :
    (rate : String) → IsDecimal rate → mock_completion (healer_prompt rate) ≡ mock_failover
unfolding mock_completion contains clears
mock_completion-healer_prompt rate number = ground (
  arith,
  not_in_healer_prompt rate "r" "ate limit" number refl refl refl,
  not_in_healer_prompt rate "l" "imit" number refl refl refl,
  not_in_healer_prompt rate "t" "ranslate" number refl refl refl,
  not_in_healer_prompt rate "a" "nomalous" number refl refl refl,
  not_in_healer_prompt rate "a" "nomaly" number refl refl refl,
  not_in_healer_prompt rate "B" "aseline mean" number refl refl refl,
  not_in_healer_prompt rate "s" "pike" number refl refl refl,
  contains-append "Failure rate is " (rate <> "%") "Failure rate" refl,
)

not_in_analyzer_prompt :
    (mean tps : String) (d : Char) (t : String)
    → IsDecimal mean
    → IsDecimal tps
    → is_decimal d ≡ false
    → clears "Baseline mean: " (String.◌∷◌ d t) ≡ true
    → clears ", Current spike: " (String.◌∷◌ d t) ≡ true
    → contains (analyzer_prompt mean tps) (String.◌∷◌ d t) ≡ false
not_in_analyzer_prompt mean tps d t m n word clear clear' =
    contains-clears "Baseline mean: " (mean <> ", Current spike: " <> tps) (String.◌∷◌ d t) clear
    ∙ contains-decimal mean (", Current spike: " <> tps) d t m word
    ∙ contains-clears ", Current spike: " tps (String.◌∷◌ d t) clear'
    ∙ number_lacks tps d t n word

pub mock_completion-analyzer_prompt :
    (mean tps : String)
    → IsDecimal mean
    → IsDecimal tps
    → mock_completion (analyzer_prompt mean tps) ≡ mock_anomaly
unfolding mock_completion contains clears
mock_completion-analyzer_prompt mean tps m n = ground (
  arith,
  not_in_analyzer_prompt mean tps "r" "ate limit" m n refl refl refl,
  not_in_analyzer_prompt mean tps "l" "imit" m n refl refl refl,
  not_in_analyzer_prompt mean tps "t" "ranslate" m n refl refl refl,
  contains-append "Baseline mean: " (mean <> ", Current spike: " <> tps) "Baseline mean" refl,
)

abbrev pub mock_target : String
mock_target = "http://backup-server:9090"

-- What the three answers of the mock decode to.
abbrev pub mock_result : HealerResult
mock_result = record { unhealthy = true; failover = true; new_target = mock_target }

abbrev pub mock_saved : Policy
mock_saved = record {
  id = "mock-policy-1";
  path = "/anything";
  method = "*";
  limit = pos 100;
  window_sec = pos 60;
  tier = "basic";
}

pub clean-failover : clean_json mock_failover ≡ mock_failover
unfolding clean_json trim_space strip_prefix strip_suffix
clean-failover = refl

pub clean-anomaly : clean_json mock_anomaly ≡ mock_anomaly
unfolding clean_json trim_space strip_prefix strip_suffix
clean-anomaly = refl

pub clean-policy : clean_json mock_policy ≡ mock_policy
unfolding clean_json trim_space strip_prefix strip_suffix
clean-policy = refl

module _ (lib : QueryLibrary) (cfg : BrainConfig) {W : Type 0} (sends : Sends W)
    (no_deepseek : cfg.keys.deepseek ≡ "") (no_gemini : cfg.keys.gemini ≡ "") where
  pub run_completion-mock :
      (system prompt : String) (w : W)
      → run_completion lib cfg sends system prompt w ≡ (w, some (mock_completion prompt))
  unfolding run_completion
  run_completion-mock system prompt w =
      ground (arith, eq_iff cfg.keys.deepseek "", eq_iff cfg.keys.gemini "")
