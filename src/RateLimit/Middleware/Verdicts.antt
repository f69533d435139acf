-- ===== src/RateLimit/Middleware/Verdicts.antt =====
-- What the verdicts of the limiter lead to in internal/ratelimit/middleware.go.
use aizen_gate.Base.{◌≡◌, ◌≢◌, refl, ap, sym, ◌∙◌, str_eq-ne, false, none, some, arith}
use aizen_gate.Base.Int.{pos}
use aizen_gate.Http.{
  Request, Writer, set_header, write_header, write, respond, Handler, Part, state_of, status_of,
}
use aizen_gate.ControlPlane.{Client, get_matching_policy}
use aizen_gate.Metrics.{Metrics, record_rate_limited}
use aizen_gate.RateLimit.Limiter.{Limiter, allowed}
use aizen_gate.RateLimit.Middleware.{
  or_anonymous, get_default_policy, policy_for, ask_limiter, too_many, rate_limit_middleware,
}

module _ {S L : Type 0} (limiter : Limiter L) (limits : Part S L) (control : Part S Client)
    (metrics : Part S Metrics) where
  -- A request that the limiter admits, and one on which it fails, goes to the next handler with the
  -- limiter's new state.
  pub rate_limit-passes :
      (next : Handler S) (r : Request) (w : Writer) (s : S)
      → (ask_limiter limiter limits control metrics r s).1 ≢ allowed false
      → rate_limit_middleware limiter limits control metrics next r w s
        ≡ next r w (limits.put (ask_limiter limiter limits control metrics r s).0 s)
  unfolding rate_limit_middleware
  rate_limit-passes next r w s open_gate = ground arith

  too_many_lem :
      (w : Writer) (s : S)
      → w.status ≡ none
      → let o = too_many limiter limits control metrics w s in
        (status_of o ≡ some 429) × (metrics.get (state_of o) ≡ record_rate_limited (metrics.get s))
  unfolding too_many set_header respond write_header write
  too_many_lem w s fresh = (rw fresh refl, metrics.get-put _ _)

  pub rate_limited :
      (next : Handler S) (r : Request) (w : Writer) (s : S)
      → (ask_limiter limiter limits control metrics r s).1 ≡ allowed false
      → rate_limit_middleware limiter limits control metrics next r w s
        ≡ too_many limiter limits control metrics w
            (limits.put (ask_limiter limiter limits control metrics r s).0 s)
  unfolding rate_limit_middleware too_many
  rate_limited next r w s refused = rw (refused, rate_limit_middleware) refl

  -- A request that the limiter refuses never reaches the next handler: it is answered by 429 where
  -- no status was sent, and counted once as rate limited.
  pub rate_limit-refuses :
      (next : Handler S) (r : Request) (w : Writer) (s : S)
      → w.status ≡ none
      → (ask_limiter limiter limits control metrics r s).1 ≡ allowed false
      → let o = rate_limit_middleware limiter limits control metrics next r w s in
        let s' = limits.put (ask_limiter limiter limits control metrics r s).0 s in
        (status_of o ≡ some 429)
        × (metrics.get (state_of o) ≡ record_rate_limited (metrics.get s'))
        × ((other : Handler S)
            → rate_limit_middleware limiter limits control metrics other r w s ≡ o)
  rate_limit-refuses next r w s fresh refused =
      let s' = limits.put (ask_limiter limiter limits control metrics r s).0 s in
      let (status, counted) = too_many_lem w s' fresh in
      let now = rate_limited next r w s refused in
      (
        ap status_of now ∙ status,
        ap (λ o. metrics.get (state_of o)) now ∙ counted,
        λ other. rate_limited other r w s refused ∙ sym now,
      )

  -- Without a policy in the mirror for its path, method and tier, a client of any tier but
  -- "premium" and "basic" is limited to 20 requests in 60 seconds; the question carries its own id,
  -- or "anonymous".
  pub ask_limiter_default :
      (r : Request) (s : S)
      → get_matching_policy r.path r.method (or_anonymous r.context.client_tier) (control.get s)
        ≡ none
      → or_anonymous r.context.client_tier ≢ "premium"
      → or_anonymous r.context.client_tier ≢ "basic"
      → ask_limiter limiter limits control metrics r s
        ≡ limiter.allow (or_anonymous r.context.client_id) (pos 20) (pos 60000000000) (limits.get s)
  unfolding ask_limiter policy_for
  ask_limiter_default r s missing no_premium no_basic =
      rw
        (
          missing,
          str_eq-ne _ _ no_premium,
          str_eq-ne _ _ no_basic,
          ask_limiter,
          policy_for,
          get_default_policy,
        )
        refl
