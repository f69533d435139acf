-- ===== src/Ai/Tests.antt =====
-- Runs of internal/ai at concrete inputs, and the theorems at such inputs.
use aizen_gate.Base.{
  leb, ◌+◌, ◌*◌, ◌≤◌, ◌≡◌, ◌↔◌, ℕ, refl, String, true, false, Option, none, some, [], ◌∷◌, ◌++◌,
  if◌then◌else◌, is_some,
}
use aizen_gate.Base.Dict.{Dict, lookup}
use aizen_gate.Base.Text.{contains, trim_space, trim_left, trim_right, strip_prefix, strip_suffix}
use aizen_gate.Http.{state_of}
use aizen_gate.ControlPlane.{Plane}
use aizen_gate.ControlPlane.Handler.Cached.{IsValid}
use aizen_gate.Ai.{Keys, Reply, mock_completion, mock_failover, clean_json}
use aizen_gate.Metrics.{new_handler}
use aizen_gate.Metrics.Counting.{total}
use aizen_gate.Metrics.Shared.{Job, record_all}
use aizen_gate.Ai.Healer.Rate.{failing, tick-record_all}
use aizen_gate.Base.{length, List, arith}
use aizen_gate.Ai.Queries.{
  BrainConfig, HttpQuery, Sends, QueryLibrary, deepseek_query, gemini_query, run_completion,
}
use aizen_gate.Ai.Queries.Sent.{traced, asked, first_answer, run_completion-sent}
use aizen_gate.Ai.Translator.{Messages, serve_http}
use aizen_gate.Ai.Translator.Valid.{translate-IsValid}
use aizen_gate.Ai.Healer.{Rates, failure_rate, new_self_healer, count, tick, HealerResult}
use aizen_gate.Ai.Healer.Threshold.{begin, ticked, one_query_at_a_time}
use aizen_gate.Fixtures.{steady, offline, sample_json, ask, fresh}

cleaned : clean_json " ```json {1} ``` " ≡ "{1}"
unfolding clean_json trim_space trim_left trim_right strip_prefix strip_suffix
cleaned = refl

mocked : mock_completion "Failure rate is 12.00%" ≡ mock_failover
unfolding mock_completion contains strip_prefix
mocked = refl

abbrev keys : Keys
keys = record { deepseek = "k"; gemini = "" }

abbrev broken : String → String → Option Reply
broken system prompt = some (record { status = 500; choices = none; candidates = none })

abbrev plane : Plane (Dict String)
plane = record { client = offline; etcd = [] }

abbrev messages : Messages
messages = record { completion = "c"; decoding = "d" }

abbrev answer_a : String → Option String
answer_a prompt = some "A"

abbrev translated : Plane (Dict String)
translated = state_of (
    serve_http steady sample_json (λ body. some body) answer_a messages
      (record (ask "POST" "/api/v1/policies/translate") { body = "limit" }) fresh plane)

no_policies-IsValid : IsValid []
unfolding lookup
no_policies-IsValid = record { unique = tt; usable = λ k p e. absurd (cc) }

translate-IsValid_example : IsValid translated.client.policies
translate-IsValid_example =
    translate-IsValid steady sample_json (λ body. some body) answer_a messages
      (record (ask "POST" "/api/v1/policies/translate") { body = "limit" }) fresh plane
      no_policies-IsValid

-- Fractions in place of float64.
abbrev fractions : Rates (ℕ × ℕ)
fractions = record {
  of_count = λ n. (n, 1);
  div = λ x y. (x.0 * y.1, x.1 * y.0);
  mul = λ x y. (x.0 * y.0, x.1 * y.1);
  hundred = (100, 1);
  at_least = λ x y. leb (y.0 * x.1) (x.0 * y.1);
}

abbrev counters : Dict ℕ
counters = ("GET:/x:200", 30) ∷ ("GET:/x:502", 5) ∷ ("GET:/x:503", 9) ∷ []

one_query_at_a_time_example :
    ((0 + (if (tick fractions (5, 1) counters new_self_healer).1 then 1 else 0)
      ≡ (if (tick fractions (5, 1) counters new_self_healer).0.is_failing_over then 1 else 0)))
    × (0 + (if (tick fractions (5, 1) counters new_self_healer).1 then 1 else 0) ≤ 1)
one_query_at_a_time_example = one_query_at_a_time fractions (5, 1) _ _ (ticked counters begin)

abbrev move : HealerResult
move = record { unhealthy = true; failover = true; new_target = "http://b" }

abbrev read_move : String → Option HealerResult
read_move text = some move

abbrev brain_config : BrainConfig
brain_config = record {
  keys = record { deepseek = "k"; gemini = "g" };
  deepseek_base_url = "https://api.deepseek.com";
}

-- DeepSeek is down, and Gemini answers.
abbrev sends : Sends ℕ
sends q n = (
  n + 1,
  if contains q.url "deepseek"
      then none
      else some (record { status = 200; choices = none; candidates = some (("ok" ∷ []) ∷ []) }),
)

abbrev lib : QueryLibrary
lib = record { marshal = λ body. some "{}"; accepts_url = λ url. true }

run_completion-sent_example :
    (run_completion lib brain_config (traced sends) "s" "p" (0, [])).0.1
    ≡ asked "k" (deepseek_query lib brain_config "s" "p")
      ++ (if is_some (first_answer lib brain_config sends "s" "p" 0)
          then []
          else asked "g" (gemini_query lib brain_config "s" "p"))
run_completion-sent_example = run_completion-sent lib brain_config sends "s" "p" 0

abbrev broken_client : HttpQuery → Option Reply
broken_client q = none

abbrev bad_gateway : Job
bad_gateway = record { method = "GET"; path = "/x"; status = 502; duration = 1000000 }

abbrev ten_failures : List Job
ten_failures =
    bad_gateway ∷ bad_gateway ∷ bad_gateway ∷ bad_gateway ∷ bad_gateway ∷ bad_gateway ∷ bad_gateway
    ∷ bad_gateway ∷ bad_gateway ∷ bad_gateway ∷ []

tick-record_all_example :
    ((tick fractions
        (5, 1)
        (record_all ten_failures (new_handler 0)).requests_total
        new_self_healer).1
      ≡ true)
    ↔ ((new_self_healer.is_failing_over ≡ false)
        × (10 ≤ length ten_failures)
        × (fractions.at_least
              (failure_rate fractions
                (record { total = length ten_failures; failed = failing ten_failures }))
              (5, 1)
            ≡ true))
unfolding new_handler total count
tick-record_all_example =
    tick-record_all fractions (5, 1) ten_failures (new_handler 0) new_self_healer (omega arith) refl
