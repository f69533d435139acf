-- ===== src/Gateway/Traffic/Tests.antt =====
-- Requests of one client through the chain of cmd/gateway/main.go, with a bucket of one token.
use aizen_gate.Base.{ℕ, ◌+◌, ◌*◌, ◌≤◌, refl, some, List, [], ◌∷◌, arith, str_eq, if◌then◌else◌}
use aizen_gate.Http.{Request, Handler, respond, text, done}
use aizen_gate.Proxy.{LogEntry}
use aizen_gate.RateLimit.TokenBucket.{
  token, TokenBucketLimiter, limiter_at, new_token_bucket_limiter,
}
use aizen_gate.Gateway.{Wiring}
use aizen_gate.Gateway.Startup.{new-IsPast}
use aizen_gate.Gateway.Traffic.{client_of, Apart, CountsVisits}
use aizen_gate.Gateway.Traffic.Runs.{Arrival, span, serve_all, visits_bound}
use aizen_gate.Fixtures.{Gateway, gateway, ask, fresh}

record Counted : Type 0 where
  visits : ℕ
  log : List LogEntry
  gateway : Gateway

abbrev wiring : Wiring Counted TokenBucketLimiter
wiring = record {
  limiter = limiter_at 5;
  validator = λ token s. some (record { user_id = "u"; roles = []; tenant_id = "" });
  cors = record { allowed_origins = []; allowed_methods = []; allowed_headers = [] };
  ids = record {
    get = λ s. s.gateway.request_ids;
    put = λ x s. record s { gateway = record s.gateway { request_ids = x } };
    get-put = λ x s. refl;
  };
  log = record { get = λ s. s.log; put = λ x s. record s { log = x }; get-put = λ x s. refl };
  limits = record {
    get = λ s. s.gateway.limits;
    put = λ x s. record s { gateway = record s.gateway { limits = x } };
    get-put = λ x s. refl;
  };
  control = record {
    get = λ s. s.gateway.control;
    put = λ x s. record s { gateway = record s.gateway { control = x } };
    get-put = λ x s. refl;
  };
  metrics = record {
    get = λ s. s.gateway.metrics;
    put = λ x s. record s { gateway = record s.gateway { metrics = x } };
    get-put = λ x s. refl;
  };
  now = 9;
  started = 9;
  took_inside = 1;
  took = 2;
}

-- A router that counts what it gets.
abbrev counting : Handler Counted
counting r w s =
    done (respond 200 (text "hello") w)
      (record s { visits = s.visits + (if str_eq (client_of r) "anonymous" then 1 else 0) })

counting-CountsVisits : CountsVisits wiring (λ s. s.visits) "anonymous" (λ ctl. Unit) counting
counting-CountsVisits r w s = ((λ h. h), refl, omega arith)

wiring-Apart :
    Apart (λ s. s.visits) wiring.limits wiring.control wiring.ids wiring.log wiring.metrics
wiring-Apart = record {
  limits_ids = λ n s. refl;
  limits_log = λ ls s. refl;
  limits_metrics = λ m s. refl;
  control_ids = λ n s. refl;
  control_log = λ ls s. refl;
  control_metrics = λ m s. refl;
  control_limits = λ l s. refl;
  visits_ids = λ n s. refl;
  visits_log = λ ls s. refl;
  visits_metrics = λ m s. refl;
  visits_limits = λ l s. refl;
}

abbrev with_token : Request
with_token = record (ask "GET" "/x") { headers = ("Authorization", "Bearer t") ∷ [] }

abbrev arrives : ℕ → Arrival
arrives delay = record {
  request = with_token;
  writer = fresh;
  delay = delay;
  now = 1;
  started = 1;
  took_inside = 1;
  took = 1;
}

abbrev two_arrivals : List Arrival
two_arrivals = arrives 3 ∷ arrives 4 ∷ []

abbrev initial : Counted
initial = record { visits = 0; log = []; gateway = gateway 1 }

visits_bound_example :
    (serve_all limiter_at wiring counting two_arrivals 7 initial).visits * token
    ≤ (0 + 1) * token + span two_arrivals * 1
unfolding new_token_bucket_limiter
visits_bound_example =
    visits_bound wiring counting (λ s. s.visits) "anonymous" wiring-Apart counting-CountsVisits
      two_arrivals 7 initial (new-IsPast 7 1 1)
