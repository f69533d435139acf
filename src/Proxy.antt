-- ===== src/Proxy.antt =====
-- internal/proxy/middleware.go: the middlewares of the gateway, and their chain. Clocks are
-- arguments.
pub mod Forwarding
pub mod Chain
pub mod Loop
pub mod Recovery
pub mod RequestIds
pub mod Cors
mod Tests
use aizen_gate.Base.{
  ℕ, ◌+◌, ◌-◌, ◌/◌, ◌%◌, ◌^◌, ◌≡◌, String, Bool, true, false, not, ◌||◌, ◌&&◌, Option, none, some,
  List, [], ◌∷◌, ltb, leb, str_eq, get_or, if◌then◌else◌,
}
use aizen_gate.Base.Dict.{insert}
use aizen_gate.Base.Text.{◌<>◌, join}
use aizen_gate.Base.Decimal.{show}
use aizen_gate.Http.{
  Context, Request, Writer, Capture, get_header, set_header, write_header, respond, text, Outcome,
  done, panicked, Handler, Middleware, Part,
}
use aizen_gate.Metrics.{Metrics, record_request}

-- `Chain`: the first middleware is outermost.
unfoldable pub chain : {S : Type 0} → Handler S → List (Middleware S) → Handler S
chain handler [] = handler
chain handler (m ∷ ms) = m (chain handler ms)

-- The request id of a request that has none, for a clock in milliseconds.
abbrev pub new_request_id : ℕ → ℕ → String
new_request_id now n = "zg-" <> show now <> "-" <> show n

-- The request and the writer with their id.
abbrev pub with_request_id : String → Request → Request
with_request_id id r = record r {
  headers = insert "X-Request-Id" id r.headers;
  context = record r.context { request_id = some id };
}

module _ {S : Type 0} (counter : Part S ℕ) (now : ℕ) where
  -- The id of a request, and the state with the counter, a uint64.
  unfoldable pub id_of : Request → S → S × String
  id_of r s =
      let given = get_header "X-Request-Id" r.headers in
      let n = (counter.get s + 1) % 2 ^ 64 in
      if str_eq given "" then (counter.put n s, new_request_id now n) else (s, given)

  unfoldable pub request_id_middleware : Middleware S
  request_id_middleware next r w s =
      let (s', id) = id_of r s in next (with_request_id id r) (set_header "X-Request-Id" id w) s'

abbrev pub get_request_id : Context → String
get_request_id c = get_or c.request_id ""

-- `newResponseWriter` around a writer, and the writer inside it.
unfoldable pub new_response_writer : Writer → Writer
new_response_writer w = record w {
  captures = record { status_code = 200; written = 0 } ∷ w.captures;
}

-- What the innermost `responseWriter` has seen, and the writer that it wraps.
unfoldable pub unwrap : Writer → Writer × Capture
unwrap w = elim w.captures [
  | [] ↦ (w, record { status_code = 200; written = 0 })
  | c ∷ cs ↦ (record w { captures = cs }, c)
]

-- The levels that a completed request is logged at.
pub data Level : Type 0 where
  info : Level
  warn : Level
  error : Level

unfoldable pub level_of : ℕ → Level
level_of status = if leb 500 status then error else if leb 400 status then warn else info

-- The line of a completed request.
pub record Line : Type 0 where
  pub level : Level
  pub request_id : String
  pub method : String
  pub path : String
  pub status : ℕ
  pub duration_ms : ℕ
  pub bytes : ℕ
  pub remote_addr : String
  pub user_agent : String

unfoldable pub line_of : Request → Capture → ℕ → Line
line_of r c duration = record {
  level = level_of c.status_code;
  request_id = get_request_id r.context;
  method = r.method;
  path = r.path;
  status = c.status_code;
  duration_ms = duration / 1000000;
  bytes = c.written;
  remote_addr = r.remote_addr;
  user_agent = get_header "User-Agent" r.headers;
}

-- What the middlewares log with the logger they are given, less the printed error or panic value:
-- a completed request; a recovered panic with the request's id, method and path; and a request
-- without a token, or with one that is not valid.
pub data LogEntry : Type 0 where
  completed : Line → LogEntry
  panic_recovered : String → String → String → LogEntry
  missing_token : LogEntry
  invalid_token : LogEntry

-- What a middleware does behind the call of `next`; it is skipped when that panics.
abbrev pub after : {S : Type 0} → (Writer → Capture → S → Outcome S) → Outcome S → Outcome S
after f (done w s) = let (inner, c) = unwrap w in f inner c s
after f (panicked w s) = panicked (unwrap w).0 s

module _ {S : Type 0} (log : Part S (List LogEntry)) (start duration : ℕ) where
  -- `LoggingMiddleware`
  unfoldable pub logging_middleware : Middleware S
  logging_middleware next r w s =
      let r' = record r { context = record r.context { start_time = some start } } in
      after (λ w' c s'. done w' (log.put (completed (line_of r c duration) ∷ log.get s') s'))
        (next r' (new_response_writer w) s)

module _ {S : Type 0} (metrics : Part S Metrics) (duration : ℕ) where
  -- `MetricsMiddleware`
  unfoldable pub metrics_middleware : Middleware S
  metrics_middleware next r w s =
      after
        (λ w' c s'.
          done w' (
            metrics.put (record_request r.method r.path c.status_code duration (metrics.get s'))
              s'))
        (next r (new_response_writer w) s)

abbrev pub internal_server_error : String → String
internal_server_error id =
    "{\"error\":\"internal_server_error\",\"message\":\"an unexpected error occurred\",\"request_id\":\""
    <> id <> "\"}"

-- The deferred function of `RecoveryMiddleware`.
abbrev pub recover : {S : Type 0} → Part S (List LogEntry) → Request → Outcome S → Outcome S
recover log r (done w s) = done w s
recover log r (panicked w s) =
    done
      (respond 500 (text (internal_server_error (get_request_id r.context)))
        (set_header "Content-Type" "application/json" w))
      (log.put (panic_recovered (get_request_id r.context) r.method r.path ∷ log.get s) s)

-- `RecoveryMiddleware`
unfoldable pub recovery_middleware : {S : Type 0} → Part S (List LogEntry) → Middleware S
recovery_middleware log next r w s = recover log r (next r w s)

-- The part of the configuration that is read here.
pub record CorsConfig : Type 0 where
  pub allowed_origins : List String
  pub allowed_methods : List String
  pub allowed_headers : List String

unfoldable pub is_allowed : String → List String → Bool
is_allowed origin [] = false
is_allowed origin (o ∷ os) = str_eq o "*" || str_eq o origin || is_allowed origin os

unfoldable pub cors_headers : CorsConfig → String → Writer → Writer
cors_headers cfg origin w = set_header "Access-Control-Max-Age" "86400" (
    set_header "Access-Control-Allow-Headers" (join cfg.allowed_headers ", ") (
      set_header "Access-Control-Allow-Methods" (join cfg.allowed_methods ", ")
        (set_header "Access-Control-Allow-Origin" origin w)))

-- `CORSMiddleware`
unfoldable pub cors_middleware : {S : Type 0} → CorsConfig → Middleware S
cors_middleware cfg next r w s =
    let origin = get_header "Origin" r.headers in
    let w' = if is_allowed origin cfg.allowed_origins then cors_headers cfg origin w else w in
    if str_eq r.method "OPTIONS" then done (write_header 204 w') s else next r w' s
