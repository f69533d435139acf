-- ===== src/Gateway.antt =====
-- The chain that cmd/gateway/main.go puts around its router, over the middlewares of package proxy,
-- of package auth and of package ratelimit. The middleware that main.go asks of package auth is not
-- declared there; `auth_middleware` stands in its place.
pub mod Startup
pub mod Boot
pub mod Shutdown
pub mod Router
pub mod Unseen
pub mod Answered
pub mod Reports
pub mod HotReload
pub mod SelfHealing
pub mod Traffic
mod Tests
mod FlowTests
use aizen_gate.Base.{ℕ, String, Option, List, [], ◌∷◌}
use aizen_gate.Http.{UserIdentity, Handler, Part}
use aizen_gate.ControlPlane.{Client}
use aizen_gate.Metrics.{Metrics}
use aizen_gate.RateLimit.Limiter.{Limiter}
use aizen_gate.RateLimit.Middleware.{rate_limit_middleware}
use aizen_gate.Auth.{auth_middleware}
use aizen_gate.Proxy.{
  chain, recovery_middleware, request_id_middleware, LogEntry, logging_middleware, CorsConfig,
  cors_middleware, metrics_middleware,
}

-- What the chain of one request is built from: the parts of the state, and what the clock shows.
pub record Wiring (S L : Type 0) : Type 0 where
  pub limiter : Limiter L
  pub validator : String → S → Option UserIdentity
  pub cors : CorsConfig
  pub ids : Part S ℕ
  pub log : Part S (List LogEntry)
  pub limits : Part S L
  pub control : Part S Client
  pub metrics : Part S Metrics
  pub now : ℕ
  pub started : ℕ
  pub took_inside : ℕ
  pub took : ℕ

-- `handler` of main
unfoldable pub handler : {S L : Type 0} → Wiring S L → Handler S → Handler S
handler x mux = chain mux (
    recovery_middleware x.log
    ∷ request_id_middleware x.ids x.now
    ∷ logging_middleware x.log x.started x.took
    ∷ cors_middleware x.cors
    ∷ auth_middleware x.log x.validator
    ∷ rate_limit_middleware x.limiter x.limits x.control x.metrics
    ∷ metrics_middleware x.metrics x.took_inside
    ∷ [])
