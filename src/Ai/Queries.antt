-- ===== src/Ai/Queries.antt =====
-- The requests to the two models of internal/ai/brain.go, and the whole of `GenerateCompletion`
-- over them.
pub mod Sent
use aizen_gate.Base.{
  ℕ, ◌≡◌, ◌≢◌, ◌⊎◌, refl, String, Bool, true, false, not, ◌&&◌, Option, none, some, List, [], ◌∷◌,
  ◌++◌, arith, ◌==◌, str_eq, if◌then◌else◌, eq_iff, inl, inr, Bool-cases, Option-cases, All,
}
use aizen_gate.Base.Dict.{Dict, lookup}
use aizen_gate.Base.Text.{◌<>◌}
use aizen_gate.Ai.{Reply, Keys, read_choices, read_candidates, mock_completion, generate_completion}

-- The bodies of the two requests; both ask for the temperature 0.2.
pub data QueryBody : Type 0 where
  chat : (model : String) (messages : List (String × String)) → QueryBody
  contents : (parts : List String) → QueryBody

pub record HttpQuery : Type 0 where
  pub url : String
  pub headers : Dict String
  pub body : String

-- The part of the configuration that is read here.
pub record BrainConfig : Type 0 where
  pub keys : Keys
  pub deepseek_base_url : String

-- What the HTTP client does with a request: its new state, and the response, `none` on an error.
abbrev pub Sends : Type 0 → Type 0
Sends W = HttpQuery → W → W × Option Reply

-- What the libraries do with a request before it is sent: the JSON of its body, none on an error,
-- and whether `http.NewRequestWithContext` takes its URL.
pub record QueryLibrary : Type 0 where
  pub marshal : QueryBody → Option String
  pub accepts_url : String → Bool

-- `http.NewRequestWithContext`, which fails on a URL that does not parse.
abbrev pub new_request : QueryLibrary → HttpQuery → Option HttpQuery
new_request lib q = if lib.accepts_url q.url then some q else none

-- How a reply to a request is read.
abbrev pub Reads : Type 0
Reads = Option Reply → Option String

-- A request that could not be built is not sent.
unfoldable pub send_query :
    {W : Type 0} → Reads → Sends W → Option HttpQuery → W → W × Option String
send_query read sends none w = (w, none)
send_query read sends (some q) w = let (w', reply) = sends q w in (w', read reply)

module _ (lib : QueryLibrary) (cfg : BrainConfig) where
  -- The request of `queryDeepSeek`
  unfoldable pub deepseek_query : String → String → Option HttpQuery
  deepseek_query system prompt =
      elim (lib.marshal
        (chat "deepseek-v4-flash-free" (("system", system) ∷ ("user", prompt) ∷ []))) [
          | none ↦ none
          | some body ↦ new_request lib (record {
            url = cfg.deepseek_base_url <> "/chat/completions";
            headers =
                ("Content-Type", "application/json")
                ∷ ("Authorization", "Bearer " <> cfg.keys.deepseek)
                ∷ [];
            body = body;
          })
        ]

  -- The request of `queryGemini`
  unfoldable pub gemini_query : String → String → Option HttpQuery
  gemini_query system prompt =
      elim (lib.marshal (contents ((system <> "\n\nUser Input:\n" <> prompt) ∷ []))) [
        | none ↦ none
        | some body ↦ new_request lib (record {
          url =
              "https://generativelanguage.googleapis.com/v1beta/models/gemini-2.5-flash:generateContent?key="
              <> cfg.keys.gemini;
          headers = ("Content-Type", "application/json") ∷ [];
          body = body;
        })
      ]

  module _ {W : Type 0} (sends : Sends W) where
    -- The second half of `GenerateCompletion`
    unfoldable pub try_gemini : String → String → W → W × Option String
    unfolding send_query gemini_query
    try_gemini system prompt w =
        if str_eq cfg.keys.gemini ""
        then (w, none)
        else send_query read_candidates sends (gemini_query system prompt) w

    unfoldable pub run_completion : String → String → W → W × Option String
    unfolding send_query deepseek_query try_gemini
    run_completion system prompt w =
        if str_eq cfg.keys.deepseek "" && str_eq cfg.keys.gemini ""
        then (w, some (mock_completion prompt))
        else if str_eq cfg.keys.deepseek ""
        then try_gemini system prompt w
        else (let (w', answer) = send_query read_choices sends (deepseek_query system prompt) w in
            elim answer [ some text ↦ (w', some text) | none ↦ try_gemini system prompt w' ])
