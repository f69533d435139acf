-- ===== src/Gateway/Traffic/RedisTests.antt =====
-- Requests of one client through the chain of cmd/gateway/main.go, with one policy for all of them
-- and a limiter on Redis.
use aizen_gate.Base.{
  keep, ℕ, ◌+◌, ◌≤◌, ◌≡◌, refl, false, some, List, [], ◌∷◌, arith, str_eq, if◌then◌else◌,
}
use aizen_gate.Base.Int.{pos, pos_part}
use aizen_gate.Http.{Request, Handler, respond, text, done, set_header}
use aizen_gate.Policy.{Policy, matches}
use aizen_gate.ControlPlane.{Client, get_matching_policy, first_match}
use aizen_gate.Metrics.{Metrics, new_handler}
use aizen_gate.Proxy.{
  LogEntry, chain, recovery_middleware, request_id_middleware, id_of, logging_middleware,
  cors_middleware, metrics_middleware, is_allowed, new_response_writer,
}
use aizen_gate.RateLimit.Middleware.{
  policy_for, get_default_policy, ask_limiter, too_many, rate_limit_middleware,
}
use aizen_gate.RateLimit.SlidingWindow.{RedisSlidingWindowLimiter, limiter_at}
use aizen_gate.Gateway.{Wiring, handler}
use aizen_gate.Base.Dict.{lookup, insert}
use aizen_gate.Base.Text.{split, push_head}
use aizen_gate.Base.Decimal.{show}
use aizen_gate.Auth.{auth_middleware, extract_bearer_token, is_lower_of}
use aizen_gate.RateLimit.SlidingWindow.{allow, sliding_window}
use aizen_gate.Gateway.Traffic.{client_of, Apart, CountsVisits}
use aizen_gate.Gateway.Traffic.Runs.{Arrival, AllFound, serve_all}
use aizen_gate.Gateway.Traffic.Redis.{
  AllLimited, HasNoPolicies, window_bound, everyone_shares_twenty,
}
use aizen_gate.Fixtures.{ask, fresh}
use aizen_gate.RateLimit.SlidingWindow.Store.{Store, keyed-laws, caching, caching-laws, separate}

record Counted : Type 0 where
  visits : ℕ
  log : List LogEntry
  limits : RedisSlidingWindowLimiter Store
  control : Client
  metrics : Metrics
  ids : ℕ

abbrev wiring : Wiring Counted (RedisSlidingWindowLimiter Store)
wiring = record {
  limiter = limiter_at caching 5;
  validator = λ token s. some (record { user_id = "u"; roles = []; tenant_id = "" });
  cors = record { allowed_origins = []; allowed_methods = []; allowed_headers = [] };
  ids = record { get = λ s. s.ids; put = λ x s. record s { ids = x }; get-put = λ x s. refl };
  log = record { get = λ s. s.log; put = λ x s. record s { log = x }; get-put = λ x s. refl };
  limits = record {
    get = λ s. s.limits;
    put = λ x s. record s { limits = x };
    get-put = λ x s. refl;
  };
  control = record {
    get = λ s. s.control;
    put = λ x s. record s { control = x };
    get-put = λ x s. refl;
  };
  metrics = record {
    get = λ s. s.metrics;
    put = λ x s. record s { metrics = x };
    get-put = λ x s. refl;
  };
  now = 9;
  started = 9;
  took_inside = 1;
  took = 2;
}

abbrev counting : Handler Counted
counting r w s =
    done (respond 200 (text "hello") w)
      (record s { visits = s.visits + (if str_eq (client_of r) "anonymous" then 1 else 0) })

-- Two requests in a second, of everyone to everything.
abbrev two_a_second : Policy
two_a_second = record {
  id = "all";
  path = "*";
  method = "*";
  limit = pos 2;
  window_sec = pos 1;
  tier = "*";
}

abbrev initial : Counted
initial = record {
  visits = 0;
  log = [];
  limits = record { script_sha = "S"; redis = record { at = λ k. []; cached = false } };
  control = record {
    connected = false;
    policies = ("all", two_a_second) ∷ [];
    has_callback = false;
    watching = false;
  };
  metrics = new_handler 0;
  ids = 0;
}

-- The cache holds that policy and no other.
abbrev HoldsIt : Client → Type 0
HoldsIt ctl = ctl.policies ≡ ("all", two_a_second) ∷ []

limited_all : (qs : List Arrival) → AllLimited "anonymous" (pos 2) 1000 HoldsIt qs
unfolding policy_for get_matching_policy first_match matches
limited_all [] = tt
limited_all (a ∷ qs) = ((λ ctl h own. rw h (refl, refl)), limited_all qs)

counting-CountsVisits :
    (Holds : Client → Type 0) → CountsVisits wiring (λ s. s.visits) "anonymous" Holds counting
counting-CountsVisits Holds r w s = ((λ h. h), refl, omega arith)

wiring-Apart :
    Apart (λ s. s.visits) wiring.limits wiring.control wiring.ids wiring.log wiring.metrics
wiring-Apart = record {
  limits_ids = λ n s. refl;
  limits_log = λ ls s. refl;
  limits_metrics = λ m s. refl;
  control_ids = λ n s. refl;
  control_log = λ ls s. refl;
  control_metrics = λ m s. refl;
  control_limits = λ l s. refl;
  visits_ids = λ n s. refl;
  visits_log = λ ls s. refl;
  visits_metrics = λ m s. refl;
  visits_limits = λ l s. refl;
}

abbrev with_token : Request
with_token = record (ask "GET" "/x") { headers = ("Authorization", "Bearer t") ∷ [] }

abbrev arrives : ℕ → Arrival
arrives delay = record {
  request = with_token;
  writer = fresh;
  delay = delay;
  now = 1;
  started = 1;
  took_inside = 1;
  took = 1;
}

abbrev earlier : List Arrival
earlier = arrives 5 ∷ []

abbrev stretch : List Arrival
stretch = arrives 400 ∷ arrives 100 ∷ arrives 400 ∷ []

window_bound_example :
    (serve_all
      (limiter_at caching)
      wiring
      counting
      stretch
      12
      (serve_all (limiter_at caching) wiring counting earlier 7 initial)).visits
    ≤ (serve_all (limiter_at caching) wiring counting earlier 7 initial).visits + pos_part (pos 2)
unfolding serve_all AllFound handler chain recovery_middleware request_id_middleware id_of lookup
    insert logging_middleware cors_middleware auth_middleware extract_bearer_token is_lower_of split
    push_head rate_limit_middleware ask_limiter policy_for get_default_policy get_matching_policy
    first_match matches limiter_at allow sliding_window keep show metrics_middleware is_allowed
    new_response_writer set_header too_many
window_bound_example =
    window_bound keyed-laws caching-laws separate wiring counting (λ s. s.visits) "anonymous"
      (pos 2) 1000 HoldsIt wiring-Apart (counting-CountsVisits HoldsIt) earlier stretch 7 initial
      (omega arith) (omega arith) refl ((λ own. refl), tt)
      ((λ own. refl), ((λ own. refl), ((λ own. refl), tt))) refl (limited_all earlier)
      (limited_all stretch) refl

-- Without the policy.
abbrev unlimited : Counted
unlimited = record initial { control = record initial.control { policies = [] } }

everyone_shares_twenty_example :
    (serve_all
      (limiter_at caching)
      wiring
      counting
      stretch
      12
      (serve_all (limiter_at caching) wiring counting earlier 7 unlimited)).visits
    ≤ (serve_all (limiter_at caching) wiring counting earlier 7 unlimited).visits + 20
unfolding serve_all AllFound handler chain recovery_middleware request_id_middleware id_of lookup
    insert logging_middleware cors_middleware auth_middleware extract_bearer_token is_lower_of split
    push_head rate_limit_middleware ask_limiter policy_for get_default_policy get_matching_policy
    first_match matches limiter_at allow sliding_window keep show metrics_middleware is_allowed
    new_response_writer set_header too_many
everyone_shares_twenty_example =
    everyone_shares_twenty keyed-laws caching-laws separate wiring counting (λ s. s.visits)
      wiring-Apart (counting-CountsVisits HasNoPolicies) earlier stretch 7 unlimited (omega arith)
      ((refl, refl), tt) ((refl, refl), ((refl, refl), ((refl, refl), tt))) refl ((λ own. refl), tt)
      ((λ own. refl), ((λ own. refl), ((λ own. refl), tt))) refl refl
