-- ===== src/Ai/MockTests.antt =====
-- The agents of internal/ai without a key of a model, at concrete prompts.
use aizen_gate.Base.{
  true, ℕ, ◌+◌, ◌≡◌, refl, String, false, Option, none, some, [], str_eq, if◌then◌else◌,
}
use aizen_gate.Base.Dict.{Dict}
use aizen_gate.Base.Text.{contains}
use aizen_gate.ControlPlane.{Plane}
use aizen_gate.Ai.{mock_failover}
use aizen_gate.Ai.Queries.{QueryLibrary, BrainConfig, Sends}
use aizen_gate.Ai.Healer.{HealerResult, execute_failover}
use aizen_gate.Ai.Agents.{healer_system_prompt, recover_by_query}
use aizen_gate.Ai.Mock.{mock_target, mock_result}
use aizen_gate.Ai.Mock.Agents.{recover_by_query-mock}
use aizen_gate.Fixtures.{steady, offline}

abbrev keyless : BrainConfig
keyless = record { keys = record { deepseek = ""; gemini = "" }; deepseek_base_url = "http://m" }

abbrev sends : Sends ℕ
sends q n = (n + 1, none)

abbrev lib : QueryLibrary
lib = record { marshal = λ body. some "{}"; accepts_url = λ url. true }

abbrev plane : Plane (Dict String)
plane = record { client = offline; etcd = [] }

abbrev read_failover : String → Option HealerResult
read_failover text = if str_eq text mock_failover then some mock_result else none

recover_by_query-mock_example :
    (recover_by_query lib keyless sends steady read_failover "12.50" 0 plane ≡ (
      0,
      (execute_failover steady mock_target plane).0,
      (execute_failover steady mock_target plane).1,
    ))
    × (contains healer_system_prompt mock_target ≡ false)
recover_by_query-mock_example =
    recover_by_query-mock lib keyless sends steady refl refl read_failover "12.50" 0 plane
      (refl, (refl, (refl, (refl, (refl, tt))))) refl
