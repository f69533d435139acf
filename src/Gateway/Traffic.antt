-- ===== src/Gateway/Traffic.antt =====
-- Requests that pass the chain of cmd/gateway/main.go one after another, and what the limiter is
-- asked about them.
pub mod Passing
pub mod Runs
pub mod Redis
mod Tests
mod RedisTests
use aizen_gate.Base.{
  ℕ, ◌+◌, ◌%◌, ◌^◌, ◌≤◌, ◌≢◌, ◌≡◌, ◌⊎◌, inl, inr, refl, sym, ap, ◌∙◌, String, Bool, true, false,
  ◌&&◌, List, [], ◌∷◌, arith, str_eq, if◌then◌else◌, Bool-cases, Option-cases, some, none,
}
use aizen_gate.Base.Int.{ℤ}
use aizen_gate.ControlPlane.{Client}
use aizen_gate.Http.{
  Request, Writer, Outcome, Capture, get_header, done, panicked, Handler, Part, state_of,
}
use aizen_gate.Metrics.{Metrics, record_rate_limited, record_request}
use aizen_gate.Auth.{auth_middleware, extract_bearer_token}
use aizen_gate.RateLimit.Limiter.{Limiter, Answer, allowed, error}
use aizen_gate.RateLimit.Calls.{passes}
use aizen_gate.RateLimit.Middleware.{
  or_anonymous, seconds, policy_for, ask_limiter, too_many, rate_limit_middleware,
}
use aizen_gate.RateLimit.Middleware.Verdicts.{rate_limit-passes, rate_limited}
use aizen_gate.Proxy.{
  chain, recover, recovery_middleware, id_of, request_id_middleware, LogEntry, line_of, after,
  unwrap, new_response_writer, logging_middleware, is_allowed, cors_middleware, metrics_middleware,
}
use aizen_gate.Gateway.{Wiring, handler}

abbrev pub client_of : Request → String
client_of r = or_anonymous r.context.client_id

-- The parts of the state are apart from each other and from what `visits` counts.
pub record Apart {S L : Type 0} (visits : S → ℕ) (limits : Part S L) (control : Part S Client)
    (ids : Part S ℕ) (log : Part S (List LogEntry)) (metrics : Part S Metrics) : Type 0 where
  pub limits_ids : (n : ℕ) (s : S) → limits.get (ids.put n s) ≡ limits.get s
  pub limits_log : (ls : List LogEntry) (s : S) → limits.get (log.put ls s) ≡ limits.get s
  pub limits_metrics : (m : Metrics) (s : S) → limits.get (metrics.put m s) ≡ limits.get s
  pub control_ids : (n : ℕ) (s : S) → control.get (ids.put n s) ≡ control.get s
  pub control_log : (ls : List LogEntry) (s : S) → control.get (log.put ls s) ≡ control.get s
  pub control_metrics : (m : Metrics) (s : S) → control.get (metrics.put m s) ≡ control.get s
  pub control_limits : (l : L) (s : S) → control.get (limits.put l s) ≡ control.get s
  pub visits_ids : (n : ℕ) (s : S) → visits (ids.put n s) ≡ visits s
  pub visits_log : (ls : List LogEntry) (s : S) → visits (log.put ls s) ≡ visits s
  pub visits_metrics : (m : Metrics) (s : S) → visits (metrics.put m s) ≡ visits s
  pub visits_limits : (l : L) (s : S) → visits (limits.put l s) ≡ visits s

-- What is asked of a limiter about a request, under the policies of a mirror.
abbrev pub question : {L : Type 0} → Limiter L → Request → Client → L → L × Answer
question limiter r ctl l =
    let policy = policy_for r ctl in
    limiter.allow (client_of r) policy.limit (seconds policy.window_sec) l

module _ {S L : Type 0} (x : Wiring S L) (visits : S → ℕ) (c : String)
    (Holds : Client → Type 0) where
  -- The mirror still satisfies `Holds`.
  abbrev pub Keeps : S → S → Type 0
  Keeps s s' = Holds (x.control.get s) → Holds (x.control.get s')

  -- A handler that leaves the limiter and `Holds` alone, and counts a request at most once, and
  -- only one of `c`.
  abbrev pub CountsVisits : Handler S → Type 0
  CountsVisits h =
      (r : Request) (w : Writer) (s : S)
      → Keeps s (state_of (h r w s))
        × (x.limits.get (state_of (h r w s)) ≡ x.limits.get s)
        × (visits (state_of (h r w s)) ≤ visits s + (if str_eq (client_of r) c then 1 else 0))

  -- A request that is not put to the limiter and not counted, or is put to it once and counted only
  -- if it passes.
  abbrev pub Asked : Request → S → S → Type 0
  Asked r s s' =
      ((x.limits.get s' ≡ x.limits.get s) × (visits s' ≤ visits s))
      ⊎ ((x.limits.get s' ≡ (question x.limiter r (x.control.get s) (x.limits.get s)).0)
          × (visits s'
              ≤ visits s
                + (if str_eq (client_of r) c
                      && passes (question x.limiter r (x.control.get s) (x.limits.get s)).1
                    then 1
                    else 0)))

  abbrev pub Served : Request → S → S → Type 0
  Served r s s' = Keeps s s' × Asked r s s'

  abbrev pub Serves : Handler S → Type 0
  Serves h = (r : Request) (w : Writer) (s : S) → Served r s (state_of (h r w s))
