-- ===== src/Gateway/Boot.antt =====
-- How cmd/gateway/main.go starts, up to the server: what stops it, and what it starts with.
use aizen_gate.Base.{
  ◌≡◌, ◌↔◌, ◌⊎◌, refl, String, List, Bool, true, false, Option, none, some, arith, is_some, get_or,
  inl, inr, ◌&&◌, Bool-cases, sym, [],
}
use aizen_gate.ControlPlane.{Etcd, PolicyJson, Client, new_client, start}
use aizen_gate.Config.{Parsers, Environment, Config, read_config, load}
use aizen_gate.Config.Loading.{load-some}
use aizen_gate.RateLimit.SlidingWindow.{Scripts, new_redis_sliding_window_limiter}
use aizen_gate.Proxy.Forwarding.{Target, Director, ProxyHandler, new_handler}
use aizen_gate.Gateway.Startup.{Choice, local, distributed, exits, choose_limiter}

-- What the program finds outside: for which endpoints an etcd client can be made, etcd itself,
-- Redis, and the parsers of the two URLs.
pub record Outside (E R : Type 0) : Type 0 where
  pub connects : List String → Bool
  pub etcd : Etcd E
  pub json : PolicyJson
  pub store : E
  pub scripts : Scripts R
  pub ping : R → Bool
  pub redis_of : String → Option R
  pub parse_url : String → Option Target
  pub original : Target → Director

-- What the server starts with; `agents` says whether the background agents run.
pub record Running (R : Type 0) : Type 0 where
  pub client : Client
  pub limiter : Choice R
  pub proxy : ProxyHandler
  pub agents : Bool

module _ {E R : Type 0} (x : Outside E R) where
  -- From the proxy's handler on.
  unfoldable pub boot_proxy : Config → Client → Choice R → Option (Running R)
  boot_proxy cfg client limiter =
      elim (new_handler x.parse_url x.original cfg.upstream_url cfg.version) [
        | none ↦ none
        | some h ↦
            some (record { client = client; limiter = limiter; proxy = h; agents = cfg.ai_enabled })
      ]

  unfoldable pub boot_choice : Config → Client → Choice R → Option (Running R)
  unfolding boot_proxy
  boot_choice cfg client exits = none
  boot_choice cfg client (local l) = boot_proxy cfg client (local l)
  boot_choice cfg client (distributed l) = boot_proxy cfg client (distributed l)

  -- From the choice of the limiter on.
  unfoldable pub boot_limiter : Config → Client → Option (Running R)
  unfolding boot_choice
  boot_limiter cfg client =
      boot_choice cfg client
        (choose_limiter x.scripts x.ping cfg.rate_limit_enabled (x.redis_of cfg.redis_url))

  -- A failed `Start` of the client is only logged.
  unfoldable pub boot : Option Config → Option (Running R)
  unfolding boot_limiter
  boot none = none
  boot (some cfg) = elim (new_client x.connects cfg.etcd_endpoints) [
    | none ↦ none
    | some client ↦ boot_limiter cfg (get_or (start x.json x.etcd x.store client) client)
  ]

  abbrev made : Choice R → Bool
  made exits = false
  made _ = true

  is_some-boot_choice :
      (cfg : Config) (client : Client) (choice : Choice R)
      → is_some (boot_choice cfg client choice)
        ≡ (made choice && is_some (x.parse_url cfg.upstream_url))
  unfolding boot_choice boot_proxy new_handler
  is_some-boot_choice cfg client exits = refl
  is_some-boot_choice cfg client (local l) = ground arith
  is_some-boot_choice cfg client (distributed l) = ground arith

  -- Limiting on Redis is turned off; or the URL of Redis parses, and Redis does not answer or loads
  -- the script.
  abbrev pub HasLimiter : Bool → Option R → Type 0
  HasLimiter enabled client =
      (enabled ≡ false)
      ⊎ ((r : R) × (client ≡ some r)
          × ((x.ping r ≡ false) ⊎ (is_some (new_redis_sliding_window_limiter x.scripts r) ≡ true)))

  choose_limiter_iff :
      (enabled : Bool) (client : Option R)
      → (made (choose_limiter x.scripts x.ping enabled client) ≡ true) ↔ HasLimiter enabled client
  unfolding choose_limiter
  choose_limiter_iff false client = (λ e. inl refl, λ h. refl)
  choose_limiter_iff true none = (λ e. absurd (ground arith), λ h. none_has h)
    where
      none_has : HasLimiter true none → false ≡ true
      none_has (inl e) = sym e
      none_has (inr (r, e, h)) = absurd (ground arith)
  choose_limiter_iff true (some r) = (λ e. has e, λ h. makes h)
    where
      has : made (choose_limiter x.scripts x.ping true (some r)) ≡ true → HasLimiter true (some r)
      has e = elim (Bool-cases (x.ping r)) [
        | inl up ↦ inr (r, refl, inr (ground arith))
        | inr down ↦ inr (r, refl, inl down)
      ]

      makes : HasLimiter true (some r) → made (choose_limiter x.scripts x.ping true (some r)) ≡ true
      makes (inl e) = absurd (ground arith)
      makes (inr (r', e, inl down)) = ground arith
      makes (inr (r', e, inr loads)) = ground arith

  boot_limiter_iff :
      (cfg : Config) (client : Client)
      → (is_some (boot_limiter cfg client) ≡ true) ↔ (
          HasLimiter cfg.rate_limit_enabled (x.redis_of cfg.redis_url)
          × (is_some (x.parse_url cfg.upstream_url) ≡ true))
  unfolding boot_limiter
  boot_limiter_iff cfg client =
      let choice =
        choose_limiter x.scripts x.ping cfg.rate_limit_enabled (x.redis_of cfg.redis_url) in
      let made_iff = choose_limiter_iff cfg.rate_limit_enabled (x.redis_of cfg.redis_url) in
      let same = is_some-boot_choice cfg client choice in
      (
        λ e. (made_iff.0 (ground (arith, same, e)), ground (arith, same, e)),
        λ (h, p). let m = made_iff.1 h in ground (arith, same, m, p),
      )

  boot-some_iff :
      (cfg : Config)
      → (is_some (boot (some cfg)) ≡ true) ↔ (
          (x.connects cfg.etcd_endpoints ≡ true)
          × HasLimiter cfg.rate_limit_enabled (x.redis_of cfg.redis_url)
          × (is_some (x.parse_url cfg.upstream_url) ≡ true))
  unfolding boot new_client
  boot-some_iff cfg =
      let made : Client = record {
        connected = true;
        policies = [];
        has_callback = false;
        watching = false;
      } in
      let inner = boot_limiter_iff cfg (get_or (start x.json x.etcd x.store made) made) in
      (
        λ e. elim (Bool-cases (x.connects cfg.etcd_endpoints)) [
          | inl up ↦ let (l, u) = inner.0 (ground (arith, up, e)) in (up, l, u)
          | inr down ↦ absurd (ground (arith, down, e))
        ],
        λ (up, l, u). let m = inner.1 (l, u) in ground (arith, up, m),
      )

-- The gateway gets as far as its server just when an etcd client can be made for the endpoints of
-- the configuration, the URL of the upstream parses, and there is a limiter: limiting on Redis is
-- turned off, or the URL of Redis parses and Redis does not answer or loads the script. So neither
-- an etcd that does not give the policies nor a Redis that does not answer stops the start, and no
-- value of the environment does except through the endpoints, the two URLs and the switch of the
-- limiter.
pub boot_iff :
    {E R : Type 0} (x : Outside E R) (parsers : Parsers) (env : Environment)
    → let cfg = read_config parsers env in
      (is_some (boot x (load parsers env)) ≡ true) ↔ (
        (x.connects cfg.etcd_endpoints ≡ true)
        × HasLimiter x cfg.rate_limit_enabled (x.redis_of cfg.redis_url)
        × (is_some (x.parse_url cfg.upstream_url) ≡ true))
boot_iff x parsers env = rw (load-some parsers env) (boot-some_iff x (read_config parsers env))
