-- ===== src/Gateway/Traffic/Passing.antt =====
-- What the chain of cmd/gateway/main.go does with one request: each middleware keeps what is said
-- of the limiter, the mirror and the count.
use aizen_gate.Base.{
  List, ℕ, ◌+◌, ◌%◌, ◌^◌, ◌≢◌, ◌≡◌, ◌⊎◌, inl, inr, refl, ◌∙◌, String, true, false, ◌∷◌, arith,
  str_eq, Bool-cases, Option-cases, some,
}
use aizen_gate.ControlPlane.{Client}
use aizen_gate.Http.{
  Request, Writer, Outcome, Capture, get_header, done, panicked, Handler, state_of,
}
use aizen_gate.Metrics.{record_rate_limited, record_request}
use aizen_gate.Auth.{auth_middleware, extract_bearer_token}
use aizen_gate.RateLimit.Limiter.{Answer, allowed, error}
use aizen_gate.RateLimit.Calls.{passes}
use aizen_gate.RateLimit.Middleware.{policy_for, ask_limiter, too_many, rate_limit_middleware}
use aizen_gate.RateLimit.Middleware.Verdicts.{rate_limit-passes, rate_limited}
use aizen_gate.Proxy.{
  chain, recover, recovery_middleware, id_of, request_id_middleware, LogEntry, completed, line_of,
  after, unwrap, new_response_writer, logging_middleware, cors_middleware, metrics_middleware,
}
use aizen_gate.Gateway.{Wiring, handler}
use aizen_gate.Gateway.Traffic.{Apart, CountsVisits, Served, Serves}

answer_cases : (a : Answer) → (a ≡ allowed false) ⊎ ((passes a ≡ true) × (a ≢ allowed false))
answer_cases (allowed false) = inl refl
answer_cases (allowed true) = inr (refl, λ e. ground (arith, e))
answer_cases error = inr (refl, λ e. ground (arith, e))

module _ {S L : Type 0} (x : Wiring S L) (visits : S → ℕ) (c : String) (Holds : Client → Type 0)
    (apart : Apart visits x.limits x.control x.ids x.log x.metrics) where
  -- Nothing of the limiter, the mirror and the count has changed.
  abbrev Quiet : S → S → Type 0
  Quiet s s' =
      (x.limits.get s' ≡ x.limits.get s)
      × (x.control.get s' ≡ x.control.get s)
      × (visits s' ≡ visits s)

  Quiet-Served :
      (r : Request) (s s1 s2 : S)
      → Quiet s s1
      → Served x visits c Holds r s1 s2
      → Served x visits c Holds r s s2
  Quiet-Served r s s1 s2 (l, m, v) (keeps, inl (same, no_more)) =
      ((λ h. keeps (rw m h)), inl (same ∙ l, omega (arith, v, no_more)))
  Quiet-Served r s s1 s2 (l, m, v) (keeps, inr (moved, counted)) = (
    (λ h. keeps (rw m h)),
    inr (rw (m, l) at moved, let same = rw (m, l) at counted in omega (arith, v, same)),
  )

  Served-Quiet :
      (r : Request) (s s1 s2 : S)
      → Served x visits c Holds r s s1
      → Quiet s1 s2
      → Served x visits c Holds r s s2
  Served-Quiet r s s1 s2 (keeps, inl (same, no_more)) (l, m, v) =
      ((λ h. rw m (keeps h)), inl (l ∙ same, omega (arith, v, no_more)))
  Served-Quiet r s s1 s2 (keeps, inr (moved, counted)) (l, m, v) =
      ((λ h. rw m (keeps h)), inr (l ∙ moved, omega (arith, v, counted)))

  abbrev asked : Request → S → L × Answer
  asked r s = ask_limiter x.limiter x.limits x.control x.metrics r s

  let_through :
      (next : Handler S) (r : Request) (w : Writer) (s : S)
      → CountsVisits x visits c Holds next
      → passes (asked r s).1 ≡ true
      → Served x visits c Holds r s (state_of (next r w (x.limits.put (asked r s).0 s)))
  unfolding ask_limiter
  let_through next r w s counts ok =
      let s' = x.limits.put (asked r s).0 s in
      let (keeps, same, counted) = counts r w s' in
      (
        (λ h. keeps (rw (apart.control_limits (asked r s).0 s) h)),
        inr (
          same ∙ x.limits.get-put _ s,
          rw ok (ground (arith, counted, apart.visits_limits (asked r s).0 s)),
        ),
      )

  turned_away :
      (w : Writer) (r : Request) (s : S)
      → Served x visits c Holds r s (
          state_of
            (too_many x.limiter x.limits x.control x.metrics w (x.limits.put (asked r s).0 s)))
  unfolding ask_limiter too_many
  turned_away w r s =
      let s' = x.limits.put (asked r s).0 s in
      (
        (λ h. rw (apart.control_metrics _ s', apart.control_limits (asked r s).0 s) h),
        inr (
          apart.limits_metrics _ s' ∙ x.limits.get-put _ s,
          omega (
            arith,
            apart.visits_metrics (record_rate_limited (x.metrics.get s')) s',
            apart.visits_limits (asked r s).0 s,
          ),
        ),
      )

  rate_limit-Serves :
      (next : Handler S)
      → CountsVisits x visits c Holds next
      → Serves x visits c Holds (rate_limit_middleware x.limiter x.limits x.control x.metrics next)
  rate_limit-Serves next counts r w s = elim (answer_cases (asked r s).1) [
    | inl refused ↦
        rw (rate_limited x.limiter x.limits x.control x.metrics next r w s refused)
          (turned_away w r s)
    | inr (ok, other) ↦
        rw (rate_limit-passes x.limiter x.limits x.control x.metrics next r w s other)
          (let_through next r w s counts ok)
  ]

  -- What a middleware does to the state when the next handler has returned.
  after-Quiet :
      (g : Capture → S → S) (o : Outcome S)
      → ((k : Capture) (s : S) → Quiet s (g k s))
      → Quiet (state_of o) (state_of (after (λ w k s. done w (g k s)) o))
  after-Quiet g (done w s) acts = acts (unwrap w).1 s
  after-Quiet g (panicked w s) acts = (refl, refl, refl)

  metrics-CountsVisits :
      (next : Handler S)
      → CountsVisits x visits c Holds next
      → CountsVisits x visits c Holds (metrics_middleware x.metrics x.took_inside next)
  unfolding metrics_middleware
  metrics-CountsVisits next counts r w s =
      let recorded : Capture → S → S = λ k s'.
        x.metrics.put
          (record_request r.method r.path k.status_code x.took_inside (x.metrics.get s')) s' in
      let counted = counts r (new_response_writer w) s in
      let quiet = after-Quiet recorded (next r (new_response_writer w) s) (λ k s'.
        (apart.limits_metrics _ s', apart.control_metrics _ s', apart.visits_metrics _ s')) in
      ((λ h. rw quiet.1 (counted.0 h)), quiet.0 ∙ counted.1, omega (arith, quiet.2, counted.2))

  log-Quiet : (es : List LogEntry) (s : S) → Quiet s (x.log.put es s)
  log-Quiet es s = (apart.limits_log es s, apart.control_log es s, apart.visits_log es s)

  recover-Quiet : (r : Request) (o : Outcome S) → Quiet (state_of o) (state_of (recover x.log r o))
  recover-Quiet r (done w s) = (refl, refl, refl)
  recover-Quiet r (panicked w s) = log-Quiet _ s

  Served-logged :
      (r : Request) (es : List LogEntry) (s : S) → Served x visits c Holds r s (x.log.put es s)
  Served-logged r es s = Served-Quiet r s s _ ((λ h. h), inl (refl, omega arith)) (log-Quiet es s)

  recovery-Serves :
      (next : Handler S)
      → Serves x visits c Holds next
      → Serves x visits c Holds (recovery_middleware x.log next)
  unfolding recovery_middleware
  recovery-Serves next serves r w s =
      Served-Quiet r s (state_of (next r w s)) _ (serves r w s) (recover-Quiet r (next r w s))

  id_of-Quiet : (now : ℕ) (r : Request) (s : S) → Quiet s (id_of x.ids now r s).0
  unfolding id_of
  id_of-Quiet now r s =
      let n = (x.ids.get s + 1) % 2 ^ 64 in
      elim (Bool-cases (str_eq (get_header "X-Request-Id" r.headers) "")) [
        | inl missing ↦
            rw (missing, id_of) (apart.limits_ids n s, apart.control_ids n s, apart.visits_ids n s)
        | inr given ↦ rw (given, id_of) (refl, refl, refl)
      ]

  request_id-Serves :
      (next : Handler S)
      → Serves x visits c Holds next
      → Serves x visits c Holds (request_id_middleware x.ids x.now next)
  unfolding request_id_middleware policy_for
  request_id-Serves next serves r w s =
      Quiet-Served r s (id_of x.ids x.now r s).0 _ (id_of-Quiet x.now r s) (serves _ _ _)

  logging-Serves :
      (next : Handler S)
      → Serves x visits c Holds next
      → Serves x visits c Holds (logging_middleware x.log x.started x.took next)
  unfolding logging_middleware policy_for
  logging-Serves next serves r w s =
      let r' : Request = record r { context = record r.context { start_time = some x.started } } in
      let logged : Capture → S → S =
        λ k s'. x.log.put (completed (line_of r k x.took) ∷ x.log.get s') s' in
      Served-Quiet r s _ _ (serves r' (new_response_writer w) s)
        (after-Quiet logged (next r' (new_response_writer w) s) (λ k s'. log-Quiet _ s'))

  cors-Serves :
      (next : Handler S)
      → Serves x visits c Holds next
      → Serves x visits c Holds (cors_middleware x.cors next)
  unfolding cors_middleware
  cors-Serves next serves r w s = elim (Bool-cases (str_eq r.method "OPTIONS")) [
    | inl preflight ↦ rw (preflight, cors_middleware) ((λ h. h), inl (refl, omega arith))
    | inr other ↦ rw (other, cors_middleware) (serves r _ s)
  ]

  auth-Serves :
      (next : Handler S)
      → Serves x visits c Holds next
      → Serves x visits c Holds (auth_middleware x.log x.validator next)
  unfolding auth_middleware policy_for
  auth-Serves next serves r w s = elim (Option-cases (extract_bearer_token r)) [
    | inl missing ↦ rw (missing, auth_middleware) (Served-logged r _ s)
    | inr (token, found) ↦ elim (Option-cases (x.validator token s)) [
      | inl bad ↦ rw (found, auth_middleware) (rw bad (Served-logged r _ s))
      | inr (identity, good) ↦ rw (found, auth_middleware) (rw good (serves _ w s))
    ]
  ]

  -- The whole chain, around a router that leaves the limiter alone.
  pub handler-Serves :
      (mux : Handler S)
      → CountsVisits x visits c Holds mux
      → Serves x visits c Holds (handler x mux)
  unfolding handler chain
  handler-Serves mux counts = recovery-Serves _ (
      request_id-Serves _ (
        logging-Serves _
          (cors-Serves _ (auth-Serves _ (rate_limit-Serves _ (metrics-CountsVisits mux counts))))))
