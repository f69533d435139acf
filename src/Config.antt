-- ===== src/Config.antt =====
-- internal/config/config.go: the configuration from the environment. The environment and the
-- parsers of numbers, Booleans and durations are parameters.
pub mod Loading
mod Tests
use aizen_gate.Base.{
  ℕ, ◌*◌, String, Bool, true, false, Option, none, some, List, [], ◌∷◌, str_eq, if◌then◌else◌,
}
use aizen_gate.Base.Int.{ℤ, pos}
use aizen_gate.Base.Text.{split}

-- Durations are nanoseconds.
pub record Config : Type 0 where
  pub version : String
  pub port : ℤ
  pub env : String
  pub upstream_url : String
  pub read_timeout : ℤ
  pub write_timeout : ℤ
  pub idle_timeout : ℤ
  pub shutdown_timeout : ℤ
  pub proxy_timeout : ℤ
  pub cors_allowed_origins : List String
  pub cors_allowed_methods : List String
  pub cors_allowed_headers : List String
  pub rate_limit_enabled : Bool
  pub redis_url : String
  pub etcd_endpoints : List String
  pub jwt_secret : String
  pub ai_enabled : Bool
  pub deepseek_api_key : String
  pub deepseek_base_url : String
  pub gemini_api_key : String

-- `strconv.Atoi`, `strconv.ParseBool` and `time.ParseDuration`
pub record Parsers : Type 0 where
  pub atoi : String → Option ℤ
  pub parse_bool : String → Option Bool
  pub parse_duration : String → Option ℤ

-- The environment is what `os.Getenv` gives, "" for an unset variable.
abbrev pub Environment : Type 0
Environment = String → String

unfoldable pub get_env_or_default : Environment → String → String → String
get_env_or_default env key fallback =
    let value = env key in if str_eq value "" then fallback else value

-- `getEnvOrDefaultInt`, `getEnvOrDefaultBool` and `getEnvOrDefaultDuration`, by their parser
unfoldable pub get_env_or_default_parsed :
    {A : Type 0} → (String → Option A) → Environment → String → A → A
get_env_or_default_parsed parse env key fallback =
    let value = env key in
    if str_eq value "" then fallback else elim (parse value) [ none ↦ fallback | some a ↦ a ]

unfoldable pub get_env_or_default_slice : Environment → String → List String → List String
get_env_or_default_slice env key fallback =
    let value = env key in if str_eq value "" then fallback else split value b','

abbrev second : ℕ
second = 1000000000

-- The configuration before it is validated.
unfoldable pub read_config : Parsers → Environment → Config
read_config parsers env =
    let text = get_env_or_default env in
    let slice = get_env_or_default_slice env in
    let bool = get_env_or_default_parsed parsers.parse_bool env in
    let duration = get_env_or_default_parsed parsers.parse_duration env in
    record {
      version = text "ZENGATE_VERSION" "0.1.0";
      port = get_env_or_default_parsed parsers.atoi env "ZENGATE_PORT" (pos 8080);
      env = text "ZENGATE_ENV" "development";
      upstream_url = text "ZENGATE_UPSTREAM_URL" "http://localhost:9090";
      read_timeout = duration "ZENGATE_READ_TIMEOUT" (pos (15 * second));
      write_timeout = duration "ZENGATE_WRITE_TIMEOUT" (pos (15 * second));
      idle_timeout = duration "ZENGATE_IDLE_TIMEOUT" (pos (60 * second));
      shutdown_timeout = duration "ZENGATE_SHUTDOWN_TIMEOUT" (pos (30 * second));
      proxy_timeout = duration "ZENGATE_PROXY_TIMEOUT" (pos (10 * second));
      cors_allowed_origins = slice "ZENGATE_CORS_ORIGINS" ("*" ∷ []);
      cors_allowed_methods =
          slice "ZENGATE_CORS_METHODS"
            ("GET" ∷ "POST" ∷ "PUT" ∷ "PATCH" ∷ "DELETE" ∷ "OPTIONS" ∷ []);
      cors_allowed_headers =
          slice "ZENGATE_CORS_HEADERS"
            ("Content-Type" ∷ "Authorization" ∷ "X-API-Key" ∷ "X-Request-Id" ∷ []);
      rate_limit_enabled = bool "ZENGATE_RATELIMIT_ENABLED" false;
      redis_url = text "ZENGATE_REDIS_URL" "redis://localhost:6379";
      etcd_endpoints = slice "ZENGATE_ETCD_ENDPOINTS" ("localhost:2379" ∷ []);
      jwt_secret = text "ZENGATE_JWT_SECRET" "zengate-default-jwt-secret-key-change-in-production";
      ai_enabled = bool "ZENGATE_AI_ENABLED" false;
      deepseek_api_key = text "DEEPSEEK_API_KEY" "";
      deepseek_base_url = text "DEEPSEEK_BASE_URL" "https://api.deepseek.com";
      gemini_api_key = text "GEMINI_API_KEY" "";
    }

-- `Load`
unfoldable pub load : Parsers → Environment → Option Config
load parsers env =
    let cfg = read_config parsers env in if str_eq cfg.upstream_url "" then none else some cfg
