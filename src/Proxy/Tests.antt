-- ===== src/Proxy/Tests.antt =====
-- The theorems on internal/proxy at concrete inputs.
use aizen_gate.Base.{
  ℕ, ◌≡◌, refl, String, Option, none, some, List, [], ◌∷◌, ◌++◌, str_eq, if◌then◌else◌,
}
use aizen_gate.Http.{
  Request, text, respond, done, panicked, Handler, Part, status_of, state_of, writer_of,
}
use aizen_gate.ControlPlane.{Event}
use aizen_gate.Metrics.{Metrics}
use aizen_gate.Proxy.{
  chain, request_id_middleware, new_response_writer, panic_recovered, LogEntry, logging_middleware,
  metrics_middleware, recovery_middleware, CorsConfig,
}
use aizen_gate.Http.{Middleware}
use aizen_gate.Proxy.Recovery.{panic_is_not_counted}
use aizen_gate.Proxy.Forwarding.{Target, Outgoing, Director, ProxyHandler, watch_upstream}
use aizen_gate.Fixtures.{Gateway, gateway, ids_part, ask, fresh}

abbrev get : Request
get = ask "GET" "/x"

abbrev greet : Handler Gateway
greet r w s = done (respond 200 (text "hello") w) s

abbrev fall_over : Handler Gateway
fall_over r w s = panicked w s

-- A log as a part of a pair.
abbrev log_part : Part (List LogEntry × ℕ) (List LogEntry)
log_part = record { get = λ s. s.0; put = λ x s. (x, s.1); get-put = λ x s. refl }

abbrev greet_logged : Handler (List LogEntry × ℕ)
greet_logged r w s = done (respond 404 (text "no") w) s

panics :
    request_id_middleware ids_part 9 fall_over get fresh (gateway 1)
    ≡ panicked
        (writer_of (request_id_middleware ids_part 9 fall_over get fresh (gateway 1)))
        (state_of (request_id_middleware ids_part 9 fall_over get fresh (gateway 1)))
unfolding request_id_middleware
panics = refl

abbrev log_in_gateway : Part (List LogEntry × Gateway) (List LogEntry)
log_in_gateway = record { get = λ s. s.0; put = λ x s. (x, s.1); get-put = λ x s. refl }

abbrev metrics_in_gateway : Part (List LogEntry × Gateway) Metrics
metrics_in_gateway = record {
  get = λ s. s.1.metrics;
  put = λ x s. (s.0, record s.1 { metrics = x });
  get-put = λ x s. refl;
}

abbrev fall_over_logged : Handler (List LogEntry × Gateway)
fall_over_logged r w s = panicked w s

panic_is_not_counted_example :
    let o =
      chain fall_over_logged
        (recovery_middleware log_in_gateway
          ∷ logging_middleware log_in_gateway 3 5
          ∷ metrics_middleware metrics_in_gateway 4
          ∷ [])
        get
        fresh
        ([], gateway 1) in
    (status_of o ≡ some 500) × (state_of o ≡ (panic_recovered "" "GET" "/x" ∷ [], gateway 1))
unfolding new_response_writer
panic_is_not_counted_example =
    panic_is_not_counted log_in_gateway metrics_in_gateway 3 4 5 fall_over_logged get fresh _
      ([], gateway 1) ([], gateway 1) refl refl

abbrev cors : CorsConfig
cors = record {
  allowed_origins = "https://a" ∷ [];
  allowed_methods = "GET" ∷ "PUT" ∷ [];
  allowed_headers = [];
}

abbrev from_a : Request
from_a = record get { headers = ("Origin", "https://a") ∷ [] }

abbrev backup : Target
backup = record { scheme = "http"; host = "b:9"; printed = "http://b:9" }

abbrev parse_url : String → Option Target
parse_url t = if str_eq t "http://b:9" then some backup else none

abbrev first : ProxyHandler
first = record {
  target = record { scheme = "http"; host = "a"; printed = "http://a" };
  director = λ o. o;
}

abbrev mirror : Director → Handler Gateway
mirror d r w s = done (respond 200 (text "upstream") w) s

abbrev outgoing : Outgoing
outgoing = record {
  scheme = "";
  url_host = "";
  host = "gw";
  path = "/x";
  headers = [];
  remote_addr = "1.2.3.4:5";
}

abbrev watched : ProxyHandler
watched =
    watch_upstream parse_url
      ((Event.put "k" "no url" ∷ []) ++ Event.put "k" "http://b:9" ∷ Event.delete "k" "" ∷ []) first

abbrev to_y : Middleware Gateway
to_y next r w s = next (record r { path = "/y" }) w s

abbrev refuse : Middleware Gateway
refuse next r w s = if str_eq r.path "/y" then done (respond 403 (text "no") w) s else next r w s
