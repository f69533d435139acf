-- ===== src/Config/Tests.antt =====
-- internal/config/config.go at a concrete environment.
use aizen_gate.Base.{true, none, some, str_eq, if◌then◌else◌, ◌≡◌, refl, ◌∷◌, [], is_some}
use aizen_gate.Base.Int.{pos}
use aizen_gate.Base.Text.{split}
use aizen_gate.Config.{
  Parsers, Environment, load, read_config, get_env_or_default_slice, get_env_or_default_parsed,
  get_env_or_default,
}

abbrev parsers : Parsers
parsers = record {
  atoi = λ t. some (pos 7);
  parse_bool = λ t. some true;
  parse_duration = λ t. none;
}

abbrev shell : Environment
shell key = if str_eq key "ZENGATE_CORS_ORIGINS" then "https://a,https://b" else ""

origins : (read_config parsers shell).cors_allowed_origins ≡ "https://a" ∷ "https://b" ∷ []
unfolding read_config get_env_or_default_slice split
origins = refl

-- An unset variable gives the default.
port : (read_config parsers shell).port ≡ pos 8080
unfolding read_config get_env_or_default_parsed
port = refl

starts : is_some (load parsers shell) ≡ true
unfolding load read_config get_env_or_default
starts = refl
