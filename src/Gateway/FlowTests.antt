-- ===== src/Gateway/FlowTests.antt =====
-- A saved policy and a failover of the gateway, from end to end, at concrete inputs.
use aizen_gate.Base.{
  ◌≡◌, refl, String, Bool, some, true, false, List, [], ◌∷◌, ◌++◌, arith, eq_iff, Option,
}
use aizen_gate.Base.Int.{pos}
use aizen_gate.Base.Dict.{Dict}
use aizen_gate.Policy.{Policy, Matches}
use aizen_gate.Http.{Request, respond, state_of, writer_of}
use aizen_gate.ControlPlane.{Etcd, Plane, Event, watch_events}
use aizen_gate.ControlPlane.Handler.{with_defaults, saved_reply, save_policy}
use aizen_gate.RateLimit.Middleware.{or_anonymous, seconds, ask_limiter}
use aizen_gate.RateLimit.TokenBucket.{limiter_at}
use aizen_gate.Ai.Healer.{HealerResult, query_ai_and_recover}
use aizen_gate.Proxy.Forwarding.{Target, ProxyHandler}
use aizen_gate.Gateway.Reports.{Reports}
use aizen_gate.Gateway.HotReload.{IsAlone, saved_policy_is_enforced}
use aizen_gate.Gateway.SelfHealing.{SendsTo, follow_upstream, failover_redirects}
use aizen_gate.RateLimit.SlidingWindow.{Scripts, Reply}
use aizen_gate.RateLimit.TokenBucket.{token, new_token_bucket_limiter}
use aizen_gate.RateLimit.Calls.{Call, elapsed}
use aizen_gate.RateLimit.TokenBucket.Bound.{admitted}
use aizen_gate.Gateway.Startup.{local, choose_limiter, local_bound}
use aizen_gate.Gateway.Router.{Routes, mux, forwards_outside_only}
use aizen_gate.Http.{Handler, done, text}
use aizen_gate.Base.Dict.{insert}
use aizen_gate.Config.{Parsers, Environment, load, read_config}
use aizen_gate.Gateway.Boot.{Outside, boot, HasLimiter, boot_iff}
use aizen_gate.Base.{◌↔◌, inl, inr, is_some}
use aizen_gate.Base.{◌+◌, ◌*◌, ◌≤◌, ℕ, none}
use aizen_gate.Proxy.Forwarding.{Director, is_internal_path}
use aizen_gate.Fixtures.{
  Gateway, sample, sample_json, limits_part, control_part, metrics_part, ask, fresh, gateway,
}

-- An etcd that keeps its writes as the events of a watch.
abbrev logged : Etcd (List Event)
logged = record {
  get_prefix = λ key s. some [];
  put = λ key v s. (s ++ Event.put key v ∷ [], true);
  delete = λ key s. (s ++ Event.delete key "" ∷ [], some 1);
}

logged-Reports : (watches : String → Bool) → Reports logged watches (λ s. s)
logged-Reports watches = record { put_reported = λ key value s h fine. refl }

abbrev online : Plane (List Event)
online = record {
  client = record { connected = true; policies = []; has_callback = false; watching = true };
  etcd = [];
}

abbrev save_sample : Request
save_sample = record (ask "POST" "/api/v1/policies") { body = "A" }

saved_policy_is_enforced_example :
    let o = save_policy logged sample_json save_sample fresh online in
    (writer_of o ≡ respond 200 (saved_reply "saved" (with_defaults sample).id) fresh)
    × (m' : Dict Policy) × (watch_events sample_json (state_of o).etcd [] ≡ some m')
    × ((q : Request) (g : Gateway)
        → g.control.policies ≡ m'
        → Matches q.path q.method (or_anonymous q.context.client_tier) (with_defaults sample)
        → IsAlone (with_defaults sample) q (or_anonymous q.context.client_tier) []
        → ask_limiter (limiter_at 5) limits_part control_part metrics_part q g
          ≡ (limiter_at 5).allow
              (or_anonymous q.context.client_id)
              (pos 100)
              (seconds (pos 60))
              g.limits)
unfolding watch_events with_defaults
saved_policy_is_enforced_example =
    saved_policy_is_enforced logged sample_json (λ s. s) (limiter_at 5) limits_part control_part
      metrics_part save_sample fresh online sample "A" [] [] (logged-Reports _) refl
      (record {
        has_id = ground (arith, eq_iff "a" "");
        has_path = ground (arith, eq_iff "/anything" "");
        has_limit = omega arith;
        has_window = omega arith;
      })
      refl refl refl refl tt refl

abbrev backup : Target
backup = record {
  scheme = "http";
  host = "backup-server:9090";
  printed = "http://backup-server:9090";
}

abbrev first : Target
first = record { scheme = "http"; host = "localhost:9090"; printed = "http://localhost:9090" }

abbrev failing_over : String → Option HealerResult
failing_over s =
    some (record { unhealthy = true; failover = true; new_target = "http://backup-server:9090" })

failover_redirects_example :
    let h : ProxyHandler = record { target = first; director = λ o. o } in
    let (s', called) = query_ai_and_recover logged failing_over (some "{}") online in
    SendsTo backup (follow_upstream (λ s. some backup) true s'.etcd called h)
failover_redirects_example =
    failover_redirects logged failing_over (λ s. some backup) (λ s. s) "{}"
      "http://backup-server:9090" backup online (record { target = first; director = λ o. o })
      (logged-Reports _) refl refl (λ e. refl) (λ e. cc)

abbrev no_route : Handler Gateway
no_route r w s = done w s

abbrev routes : Routes Gateway
routes = record {
  health = no_route;
  metrics = no_route;
  policies = no_route;
  translator = no_route;
}

abbrev upstream : Director → Handler Gateway
upstream d r w s = done (respond 200 (text "hello") w) s

abbrev localhost : ProxyHandler
localhost = record { target = first; director = λ o. o }

forwards_outside_only_example :
    (is_internal_path "/x" ≡ false
      → ◌≡◌ {A = String} "/x" "/x"
      → mux (λ p. p) no_route routes upstream "t" localhost (ask "GET" "/x") fresh (gateway 1)
        ≡ upstream localhost.director
            (record (ask "GET" "/x") { headers = insert "X-Zengate-Proxy-Start" "t" [] })
            fresh
            (gateway 1))
    × (is_internal_path "/x" ≡ true
        → (other : Director → Handler Gateway)
        → mux (λ p. p) no_route routes upstream "t" localhost (ask "GET" "/x") fresh (gateway 1)
          ≡ mux (λ p. p) no_route routes other "t" localhost (ask "GET" "/x") fresh (gateway 1))
forwards_outside_only_example =
    forwards_outside_only (λ p. p) no_route routes "t" localhost upstream (ask "GET" "/x") fresh
      (gateway 1)

abbrev no_scripts : Scripts ℕ
no_scripts = record {
  script_load = λ r. (r, none);
  eval_sha = λ sha key now limit window r. (r, Reply.failure);
}

abbrev knock : Call
knock = record { client = "a"; limit = pos 9; window = pos 9; delay = 1000 }

redis_down :
    choose_limiter no_scripts (λ r. false) true (some 0) ≡ local (new_token_bucket_limiter 10 20)
unfolding choose_limiter
redis_down = refl

local_bound_example :
    admitted "a" (knock ∷ []) 7 (new_token_bucket_limiter 10 20) * token
    ≤ 20 * token + elapsed (knock ∷ []) * 10
local_bound_example =
    local_bound no_scripts (λ r. false) true (some 0) (new_token_bucket_limiter 10 20) "a"
      (knock ∷ []) 7 redis_down

abbrev outside : Outside (List Event) ℕ
outside = record {
  connects = λ endpoints. true;
  etcd = record logged { get_prefix = λ key s. none };
  json = sample_json;
  store = [];
  scripts = no_scripts;
  ping = λ r. false;
  redis_of = λ url. some 0;
  parse_url = λ url. some first;
  original = λ t o. o;
}

abbrev any_text : Parsers
any_text = record {
  atoi = λ t. some (pos 7);
  parse_bool = λ t. some true;
  parse_duration = λ t. none;
}

abbrev unset : Environment
unset key = ""

-- Neither etcd nor Redis answers, and the gateway starts.
boot_iff_example : (is_some (boot outside (load any_text unset)) ≡ true) ↔ (
    (true ≡ true)
    × HasLimiter outside (read_config any_text unset).rate_limit_enabled (some 0)
    × (true ≡ true))
boot_iff_example = boot_iff outside any_text unset

boots : is_some (boot outside (load any_text unset)) ≡ true
boots = boot_iff_example.1 (refl, inr (0, refl, inl refl), refl)
