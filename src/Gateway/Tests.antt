-- ===== src/Gateway/Tests.antt =====
-- The chain of cmd/gateway/main.go at a concrete request.
use aizen_gate.Base.{String, ◌≡◌, ◌≢◌, refl, some, false, true, none, List, [], ◌∷◌, arith, eq_iff}
use aizen_gate.Base.Dict.{lookup}
use aizen_gate.Http.{Request, UserIdentity, Handler, set_header, done, respond, text}
use aizen_gate.RateLimit.TokenBucket.{
  TokenBucketLimiter, limiter_at, allow, bucket_of, refill, new_token_bucket_limiter,
}
use aizen_gate.Proxy.{LogEntry, id_of}
use aizen_gate.Gateway.{Wiring, handler}
use aizen_gate.Base.Text.{split}
use aizen_gate.Auth.{extract_bearer_token, is_lower_of, auth_middleware, enrich}
use aizen_gate.Auth.Access.{limited_as_anonymous}
use aizen_gate.RateLimit.Middleware.{ask_limiter, policy_for, seconds, rate_limit_middleware}
use aizen_gate.RateLimit.Limiter.{allowed}
use aizen_gate.Gateway.Answered.{
  inner_writer, answer_line, logged, behind_limiter, recorded, limited, verdict, too_many_reply,
  with_headers, answered_request, refused_request,
}
use aizen_gate.Fixtures.{Gateway, gateway, ask, fresh}

abbrev Logged : Type 0
Logged = List LogEntry × Gateway

abbrev wiring : Wiring Logged TokenBucketLimiter
wiring = record {
  limiter = limiter_at 5;
  validator = λ token s. none;
  cors = record { allowed_origins = "*" ∷ []; allowed_methods = []; allowed_headers = [] };
  ids = record {
    get = λ s. s.1.request_ids;
    put = λ x s. (s.0, record s.1 { request_ids = x });
    get-put = λ x s. refl;
  };
  log = record { get = λ s. s.0; put = λ x s. (x, s.1); get-put = λ x s. refl };
  limits = record {
    get = λ s. s.1.limits;
    put = λ x s. (s.0, record s.1 { limits = x });
    get-put = λ x s. refl;
  };
  control = record {
    get = λ s. s.1.control;
    put = λ x s. (s.0, record s.1 { control = x });
    get-put = λ x s. refl;
  };
  metrics = record {
    get = λ s. s.1.metrics;
    put = λ x s. (s.0, record s.1 { metrics = x });
    get-put = λ x s. refl;
  };
  now = 9;
  started = 9;
  took_inside = 1;
  took = 2;
}

abbrev greet : Handler Logged
greet r w s = done (respond 200 (text "hello") w) s

-- A gateway that knows one token, and a client that sends it.
abbrev user : UserIdentity
user = record { user_id = "u"; roles = []; tenant_id = "t" }

abbrev open_wiring : Wiring Logged TokenBucketLimiter
open_wiring = record wiring { validator = λ token s. some user }

abbrev ask_known : Request
ask_known = record (ask "GET" "/x") { headers = ("Authorization", "Bearer k") ∷ [] }

bearer : extract_bearer_token ask_known ≡ some "k"
unfolding extract_bearer_token lookup split is_lower_of
bearer = refl

admitted_verdict : (verdict open_wiring greet user ask_known ([], gateway 1)).1 ≡ allowed true
unfolding ask_limiter limiter_at allow bucket_of refill new_token_bucket_limiter lookup id_of
admitted_verdict = refl

spare : (verdict open_wiring greet user ask_known ([], gateway 1)).1 ≢ allowed false
spare e = let yes_verdict = admitted_verdict in cc

empty_bucket : (verdict open_wiring greet user ask_known ([], gateway 0)).1 ≡ allowed false
unfolding ask_limiter limiter_at allow bucket_of refill new_token_bucket_limiter lookup id_of
empty_bucket = refl

refused_request_example :
    let s : Logged = ([], gateway 0) in
    handler open_wiring greet ask_known fresh s ≡ (
      let id = (id_of wiring.ids 9 ask_known s).1 in
      let v =
        set_header "Content-Type" "application/json"
          (inner_writer open_wiring greet id ask_known fresh) in
      done (respond 429 (too_many_reply open_wiring greet) v) (
        logged open_wiring greet
          (answer_line open_wiring greet id ask_known 429
            (v.size (too_many_reply open_wiring greet)))
          (limited open_wiring greet (behind_limiter open_wiring greet user ask_known s))))
refused_request_example =
    refused_request open_wiring greet ask_known fresh ([], gateway 0) "k" user
      (ground (arith, eq_iff "GET" "OPTIONS")) bearer refl empty_bucket

abbrev powered_headers : List (String × String)
powered_headers = ("Content-Type", "text/plain") ∷ ("X-Powered-By", "ZenGate") ∷ []

-- A router that sets two headers, as the proxy does, and answers.
abbrev powered : Handler Logged
powered r w s =
    done
      (respond 200 (text "hello")
        (set_header "X-Powered-By" "ZenGate" (set_header "Content-Type" "text/plain" w)))
      s

answered_request_example :
    let s : Logged = ([], gateway 1) in
    handler open_wiring powered ask_known fresh s ≡ (
      let id = (id_of wiring.ids 9 ask_known s).1 in
      let v = with_headers powered_headers (inner_writer open_wiring powered id ask_known fresh) in
      done (respond 200 (text "hello") v) (
        logged open_wiring powered
          (answer_line open_wiring powered id ask_known 200 (v.size (text "hello")))
          (recorded open_wiring powered ask_known 200
            (behind_limiter open_wiring powered user ask_known s))))
answered_request_example =
    answered_request open_wiring powered ask_known fresh ([], gateway 1) "k" user
      (ground (arith, eq_iff "GET" "OPTIONS")) bearer refl powered_headers 200 (text "hello") _
      spare (λ v. refl)

limited_as_anonymous_example :
    (auth_middleware wiring.log open_wiring.validator
        (rate_limit_middleware wiring.limiter wiring.limits wiring.control wiring.metrics greet)
        ask_known
        fresh
        ([], gateway 1)
      ≡ rate_limit_middleware wiring.limiter wiring.limits wiring.control wiring.metrics greet
          (enrich user ask_known)
          fresh
          ([], gateway 1))
    × (ask_limiter wiring.limiter wiring.limits wiring.control wiring.metrics
          (enrich user ask_known)
          ([], gateway 1)
        ≡ (limiter_at 5).allow "anonymous"
            (policy_for ask_known (gateway 1).control).limit
            (seconds (policy_for ask_known (gateway 1).control).window_sec)
            (gateway 1).limits)
limited_as_anonymous_example =
    limited_as_anonymous wiring.limiter wiring.limits wiring.control wiring.metrics wiring.log
      open_wiring.validator greet ask_known fresh ([], gateway 1) "k" user refl refl bearer refl
