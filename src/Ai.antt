-- ===== src/Ai.antt =====
-- internal/ai/brain.go, and the clean-up of its answers that the agents share. HTTP and
-- encoding/json are parameters.
pub mod Translator
pub mod Healer
pub mod Analyzer
pub mod Brain
pub mod Queries
pub mod Agents
pub mod Mock
mod Tests
mod MockTests
use aizen_gate.Base.{
  ℕ, String, Bool, true, false, ◌&&◌, ◌||◌, Option, none, some, List, [], ◌∷◌, ◌==◌, str_eq,
  if◌then◌else◌,
}
use aizen_gate.Base.Text.{◌<>◌, contains, trim_space, trim_prefix, trim_suffix}

-- The keys of the configuration.
pub record Keys : Type 0 where
  pub deepseek : String
  pub gemini : String

-- A response: its status, and what its body decodes to in the two places that decode one, none if
-- it does not: the contents of the choices of DeepSeek, and the candidates of Gemini, each with the
-- texts of its parts.
pub record Reply : Type 0 where
  pub status : ℕ
  pub choices : Option (List String)
  pub candidates : Option (List (List String))

abbrev first_of {ℓ} : {A : Type ℓ} → List A → Option A
first_of [] = none
first_of (a ∷ _) = some a

-- What follows the call of `Do` in `queryDeepSeek`; it gives no reply on an error.
abbrev pub read_choices : Option Reply → Option String
read_choices none = none
read_choices (some r) =
    if r.status == 200 then elim r.choices [ none ↦ none | some cs ↦ first_of cs ] else none

-- The same in `queryGemini`: the first part of the first candidate counts.
abbrev pub read_candidates : Option Reply → Option String
read_candidates none = none
read_candidates (some r) =
    if r.status == 200
    then elim r.candidates [
      | none ↦ none
      | some cs ↦ elim (first_of cs) [ none ↦ none | some parts ↦ first_of parts ]
    ]
    else none

-- The three answers of `mockCompletion` in JSON, as `json.Marshal` sorts their keys.
abbrev pub mock_policy : String
mock_policy =
    "{\"id\":\"mock-policy-1\",\"limit\":100,\"method\":\"*\",\"path\":\"/anything\",\"tier\":\"basic\",\"window_sec\":60}"

abbrev pub mock_anomaly : String
mock_anomaly =
    "{\"anomalous\":true,\"factor\":2,\"reason\":\"detected traffic spike exceeding 3 standard deviations\",\"suggestion\":\"increase-limit\"}"

abbrev pub mock_failover : String
mock_failover =
    "{\"explanation\":\"upstream returned excessive 502 Bad Gateway responses\",\"failover\":true,\"new_target\":\"http://backup-server:9090\",\"unhealthy\":true}"

unfoldable pub mock_completion : String → String
mock_completion prompt =
    let has = contains prompt in
    if has "rate limit" || has "limit" || has "translate"
    then mock_policy
    else if has "anomalous" || has "anomaly" || has "Baseline mean" || has "spike"
    then mock_anomaly
    else if has "upstream" || has "failover" || has "Failure rate"
    then mock_failover
    else "Mock AI completed task successfully"

module _ (deepseek gemini : String → String → Option Reply) where
  -- `GenerateCompletion`; the two parameters send the prompts.
  unfoldable pub generate_completion : Keys → String → String → Option String
  generate_completion keys system prompt =
      if str_eq keys.deepseek "" && str_eq keys.gemini ""
      then some (mock_completion prompt)
      else elim (if str_eq keys.deepseek "" then none else read_choices (deepseek system prompt)) [
        | some text ↦ some text
        | none ↦ if str_eq keys.gemini "" then none else read_candidates (gemini system prompt)
      ]

-- The clean-up of an answer, as every agent writes it.
unfoldable pub clean_json : String → String
clean_json answer =
    trim_space (trim_suffix (trim_prefix (trim_prefix (trim_space answer) "```json") "```") "```")
