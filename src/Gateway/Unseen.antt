-- ===== src/Gateway/Unseen.antt =====
-- What is seen of a request that the chain of cmd/gateway/main.go stops at the authentication.
use aizen_gate.Base.{ℕ, ◌≡◌, ◌≢◌, refl, String, some, List, ◌∷◌, str_eq-ne, if◌then◌else◌}
use aizen_gate.Http.{Request, Writer, done, Handler, Part, get_header}
use aizen_gate.Auth.{write_error_response, auth_middleware}
use aizen_gate.RateLimit.Middleware.{rate_limit_middleware}
use aizen_gate.Proxy.{
  metrics_middleware, recovery_middleware, new_response_writer, unwrap, LogEntry, completed,
  missing_token, line_of, logging_middleware, CorsConfig, is_allowed, cors_headers, cors_middleware,
}
use aizen_gate.Gateway.{Wiring}

-- The writer behind the CORS middleware.
abbrev pub cors_writer : CorsConfig → Request → Writer → Writer
cors_writer cfg r w =
    let origin = get_header "Origin" r.headers in
    if is_allowed origin cfg.allowed_origins then cors_headers cfg origin w else w

module _ {S : Type 0} (next : Handler S) where
  pub recovery_of_done :
      (log : Part S (List LogEntry)) (r : Request) (w w' : Writer) (s s' : S)
      → next r w s ≡ done w' s'
      → recovery_middleware log next r w s ≡ done w' s'
  unfolding recovery_middleware
  recovery_of_done log r w w' s s' h = rw h refl

  pub logging_of_done :
      (log : Part S (List LogEntry)) (start took : ℕ) (r : Request) (w w' : Writer) (s s' : S)
      → next
          (record r { context = record r.context { start_time = some start } })
          (new_response_writer w)
          s
        ≡ done w' s'
      → logging_middleware log start took next r w s
        ≡ done (unwrap w').0 (log.put (completed (line_of r (unwrap w').1 took) ∷ log.get s') s')
  unfolding logging_middleware
  logging_of_done log start took r w w' s s' h = rw h refl

  pub cors_of_other :
      (cfg : CorsConfig) (r : Request) (w : Writer) (s : S)
      → r.method ≢ "OPTIONS"
      → cors_middleware cfg next r w s ≡ next r (cors_writer cfg r w) s
  unfolding cors_middleware
  cors_of_other cfg r w s other = rw (str_eq-ne r.method "OPTIONS" other) refl

abbrev no_token : String
no_token = "Authentication token is missing"

-- The writer with which the authentication ends.
abbrev refused_writer : CorsConfig → Request → Writer → Writer
refused_writer cfg r w = write_error_response 401 no_token (cors_writer cfg r w)

module _ {S L : Type 0} (x : Wiring S L) (mux : Handler S) where
  abbrev pub guarded : Handler S
  guarded = auth_middleware x.log x.validator (
      rate_limit_middleware x.limiter x.limits x.control x.metrics
        (metrics_middleware x.metrics x.took_inside mux))

  -- The state with the missing token in the log.
  abbrev pub without : S → S
  without s = x.log.put (missing_token ∷ x.log.get s) s
