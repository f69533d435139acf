-- ===== src/Config/Loading.antt =====
-- That internal/config/config.go always gives a configuration.
use aizen_gate.Base.{
  ◌≡◌, ◌≢◌, String, false, some, List, [], arith, str_eq, str_eq-ne, eq_iff, code, Char, All,
}
use aizen_gate.Base.Text.{join}
use aizen_gate.Base.Text.Laws.{split-join, Free}
use aizen_gate.Config.{
  Parsers, Environment, get_env_or_default, get_env_or_default_slice, read_config, load,
}

abbrev comma : Char
comma = ","

default-ne :
    (env : Environment) (key fallback : String)
    → fallback ≢ ""
    → get_env_or_default env key fallback ≢ ""
unfolding get_env_or_default
default-ne env key fallback given = ground (arith, eq_iff (env key) "", given)

upstream_is_set :
    (parsers : Parsers) (env : Environment)
    → str_eq (read_config parsers env).upstream_url "" ≡ false
unfolding read_config
upstream_is_set parsers env = str_eq-ne _ _ (
    default-ne env "ZENGATE_UPSTREAM_URL" "http://localhost:9090"
      (ground (arith, eq_iff "http://localhost:9090" "")))

-- Loading never fails, whatever the environment: the upstream has a default, so the check that it
-- is set cannot refuse.
pub load-some :
    (parsers : Parsers) (env : Environment) → load parsers env ≡ some (read_config parsers env)
unfolding load
load-some parsers env = ground (arith, upstream_is_set parsers env)

-- A list that is written with commas between its items is read back, where it is no empty text and
-- no item has a comma.
pub slice-join :
    (env : Environment) (key : String) (items fallback : List String)
    → env key ≡ join items ","
    → join items "," ≢ ""
    → items ≢ []
    → All (Free (code comma)) items
    → get_env_or_default_slice env key fallback ≡ items
unfolding get_env_or_default_slice
slice-join env key items fallback written given some_items free =
    rw (written, str_eq-ne _ _ given) (split-join items comma some_items free)
