-- ===== src/Ai/Agents.antt =====
-- The prompts of the agents in internal/ai, and the whole of their queries, from the prompt to what
-- is done with the answer. The numbers in a prompt are texts, as `%.2f` prints them.
use aizen_gate.Base.{String, Option}
use aizen_gate.Base.Text.{◌<>◌}
use aizen_gate.ControlPlane.{Etcd, PolicyJson, Plane}
use aizen_gate.Http.{Handler}
use aizen_gate.Ai.Queries.{QueryLibrary, BrainConfig, Sends, run_completion}
use aizen_gate.Ai.Healer.{HealerResult, query_ai_and_recover}
use aizen_gate.Ai.Analyzer.{Floats, AnalyzerResult, query_ai_and_scale}
use aizen_gate.Ai.Translator.{Messages, serve_http}

abbrev pub translator_system_prompt : String
translator_system_prompt =
    "You are the ZenGate AI Config Translator agent.\n"
    <> "Your task is to translate natural language configuration statements into a single structured JSON policy matching this schema:\n"
    <> "{\n" <> "  \"id\": \"policy-id-string\",\n"
    <> "  \"path\": \"/url/path\",     // exact path or \"*\" for any\n"
    <> "  \"method\": \"GET\",         // GET, POST, PUT, DELETE, PATCH, OPTIONS, or \"*\" for any\n"
    <> "  \"limit\": 100,            // maximum number of requests allowed (positive integer)\n"
    <> "  \"window_sec\": 60,        // rate limit window duration in seconds (positive integer)\n"
    <> "  \"tier\": \"basic\"          // client tier: premium, basic, anonymous, or \"*\" for any\n"
    <> "}\n" <> "\n" <> "Rules:\n"
    <> "1. Return ONLY the raw JSON object. Do NOT wrap it in markdown code block markers (like formatting with `json ... `).\n"
    <> "2. Generate a clean, concise ID from the tier and path (e.g., \"premium-anything-limit\").\n"
    <> "3. Make sure the output is strictly valid JSON."

abbrev pub analyzer_system_prompt : String
analyzer_system_prompt =
    "You are the ZenGate AI Traffic Analyzer agent.\n"
    <> "You are analyzing a sudden request throughput anomaly (TPS spike).\n"
    <> "Based on the metrics:\n" <> "- Baseline Average TPS: %.2f\n"
    <> "- Current Spike TPS: %.2f\n" <> "\n"
    <> "Decide if the gateway limits should be scaled up (e.g., to handle organic burst load) or left alone.\n"
    <> "Return a JSON object conforming to this schema:\n" <> "{\n" <> "  \"anomalous\": true,\n"
    <> "  \"suggestion\": \"increase-limit\", // \"increase-limit\" or \"none\"\n"
    <> "  \"factor\": 2.0,                  // numeric scaling factor (e.g. 1.5, 2.0)\n"
    <> "  \"reason\": \"explanation of traffic analysis\"\n" <> "}\n" <> "\n"
    <> "Return ONLY raw JSON."

abbrev pub healer_system_prompt : String
healer_system_prompt =
    "You are the ZenGate AI Self-Healing agent.\n"
    <> "You have detected a high failure rate in request forwarding to the primary upstream server.\n"
    <> "Upstream failure rate: %.2f%% (based on 5xx responses).\n" <> "\n"
    <> "Your task is to select a backup target from the list of available healthy failover upstreams:\n"
    <> "- Backup 1: http://httpbin.org\n" <> "- Backup 2: http://echo:9090 (local mock)\n" <> "\n"
    <> "Decide if failover routing is required.\n"
    <> "Return a JSON object conforming to this schema:\n" <> "{\n" <> "  \"unhealthy\": true,\n"
    <> "  \"failover\": true,\n"
    <> "  \"new_target\": \"http://httpbin.org\", // select one backup target\n"
    <> "  \"explanation\": \"explanation of failover routing\"\n" <> "}\n" <> "\n"
    <> "Return ONLY raw JSON."

abbrev pub analyzer_prompt : String → String → String
analyzer_prompt mean tps = "Baseline mean: " <> mean <> ", Current spike: " <> tps

abbrev pub healer_prompt : String → String
healer_prompt rate = "Failure rate is " <> rate <> "%"

module _ (lib : QueryLibrary) (cfg : BrainConfig) {W : Type 0} (sends : Sends W) {E : Type 0}
    (etcd : Etcd E) where
  -- `queryAIAndRecover` for a failure rate, with the target that a callback gets
  unfoldable pub recover_by_query :
      (String → Option HealerResult) → String → W → Plane E → W × Plane E × Option String
  recover_by_query read_result rate w s =
      let (w', answer) = run_completion lib cfg sends healer_system_prompt (healer_prompt rate) w in
      let (s', called) = query_ai_and_recover etcd read_result answer s in (w', s', called)

  -- `queryAIAndScale` for a mean and a throughput
  unfoldable pub scale_by_query :
      {F : Type 0}
      → Floats F
      → PolicyJson
      → (String → Option (AnalyzerResult F))
      → String
      → String
      → W
      → Plane E
      → W × Plane E
  scale_by_query floats json read_result mean tps w s =
      let (w', answer) =
        run_completion lib cfg sends analyzer_system_prompt (analyzer_prompt mean tps) w in
      (w', query_ai_and_scale floats etcd json read_result answer s)

  -- `ServeHTTP` of the translator, with the answer of the brain in the place of `complete`
  unfoldable pub serve_translation :
      PolicyJson → (String → Option String) → Messages → W → Handler (Plane E)
  serve_translation json read_prompt messages w =
      serve_http etcd json read_prompt
        (λ prompt. (run_completion lib cfg sends translator_system_prompt prompt w).1) messages
