-- ===== src/Gateway/Answered.antt =====
-- What the chain of cmd/gateway/main.go does with a request that carries a valid token.
use aizen_gate.Base.{
  ℕ, ◌≡◌, ◌≢◌, refl, ap, ◌∙◌, String, some, false, List, [], ◌∷◌, arith, Bool-cases, inl, inr,
}
use aizen_gate.Base.Dict.{lookup-insert}
use aizen_gate.Http.{
  UserIdentity, Request, Writer, Chunk, object, Capture, done, Handler, get_header, set_header,
  respond,
}
use aizen_gate.Metrics.{record_request, record_rate_limited}
use aizen_gate.Auth.{extract_bearer_token, enrich}
use aizen_gate.Auth.Access.{auth_middleware-passes}
use aizen_gate.RateLimit.Limiter.{Answer, allowed}
use aizen_gate.RateLimit.Middleware.{ask_limiter, too_many, rate_limit_middleware}
use aizen_gate.RateLimit.Middleware.Verdicts.{rate_limit-passes, rate_limited}
use aizen_gate.Proxy.{
  chain, metrics_middleware, id_of, with_request_id, request_id_middleware, new_response_writer,
  Line, completed, line_of, logging_middleware, CorsConfig, is_allowed, cors_headers,
  cors_middleware,
}
use aizen_gate.Proxy.Chain.{unwrap-respond, metrics_middleware_lem}
use aizen_gate.Gateway.{Wiring, handler}
use aizen_gate.Gateway.Unseen.{
  cors_writer, recovery_of_done, logging_of_done, cors_of_other, guarded,
}

set_header-wrapped :
    (name v : String) (w : Writer)
    → set_header name v (new_response_writer w) ≡ new_response_writer (set_header name v w)
unfolding set_header new_response_writer
set_header-wrapped name v w = ground arith

-- The headers that a handler sets before it answers, the first one first.
abbrev pub with_headers : List (String × String) → Writer → Writer
with_headers [] w = w
with_headers ((name, v) ∷ hs) w = with_headers hs (set_header name v w)

with_headers-wrapped :
    (hs : List (String × String)) (w : Writer)
    → with_headers hs (new_response_writer w) ≡ new_response_writer (with_headers hs w)
with_headers-wrapped [] w = refl
with_headers-wrapped ((name, v) ∷ hs) w =
    ap (with_headers hs) (set_header-wrapped name v w)
    ∙ with_headers-wrapped hs (set_header name v w)

wrapped_twice :
    (hs : List (String × String)) (w : Writer)
    → with_headers hs (new_response_writer (new_response_writer w))
      ≡ new_response_writer (new_response_writer (with_headers hs w))
wrapped_twice hs w =
    with_headers-wrapped hs (new_response_writer w)
    ∙ ap new_response_writer (with_headers-wrapped hs w)

cors_headers-wrapped :
    (cfg : CorsConfig) (origin : String) (w : Writer)
    → cors_headers cfg origin (new_response_writer w)
      ≡ new_response_writer (cors_headers cfg origin w)
unfolding cors_headers
cors_headers-wrapped cfg origin w = simp set_header-wrapped refl

cors_writer-wrapped :
    (cfg : CorsConfig) (r : Request) (w : Writer)
    → cors_writer cfg r (new_response_writer w) ≡ new_response_writer (cors_writer cfg r w)
cors_writer-wrapped cfg r w =
    elim (Bool-cases (is_allowed (get_header "Origin" r.headers) cfg.allowed_origins)) [
      | inl ok ↦ rw ok (cors_headers-wrapped cfg (get_header "Origin" r.headers) w)
      | inr bad ↦ rw bad refl
    ]

module _ {S L : Type 0} (x : Wiring S L) (mux : Handler S) where
  -- The request and the writer behind the CORS middleware.
  abbrev pub inner_request : String → Request → Request
  inner_request id r =
      let r' = with_request_id id r in
      record r' { context = record r'.context { start_time = some x.started } }

  extract-inner_request :
      (id : String) (r : Request)
      → extract_bearer_token (inner_request id r) ≡ extract_bearer_token r
  unfolding extract_bearer_token
  extract-inner_request id r =
      let same : get_header "Authorization" (inner_request id r).headers
          ≡ get_header "Authorization" r.headers =
        ground (arith, lookup-insert "X-Request-Id" "Authorization" id r.headers) in
      rw same refl

  abbrev pub inner_writer : String → Request → Writer → Writer
  inner_writer id r w = cors_writer x.cors (inner_request id r) (set_header "X-Request-Id" id w)

  -- The line of a request that is answered with a chunk of `n` bytes.
  abbrev pub answer_line : String → Request → ℕ → ℕ → Line
  answer_line id r code n =
      line_of (with_request_id id r) (record { status_code = code; written = n }) x.took

  abbrev pub logged : Line → S → S
  logged line s = x.log.put (completed line ∷ x.log.get s) s

  outer_of_done :
      (r : Request) (w w' : Writer) (s s' : S) (code : ℕ) (chunk : Chunk)
      → r.method ≢ "OPTIONS"
      → guarded x mux
          (inner_request (id_of x.ids x.now r s).1 r)
          (new_response_writer (inner_writer (id_of x.ids x.now r s).1 r w))
          (id_of x.ids x.now r s).0
        ≡ done (respond code chunk (new_response_writer w')) s'
      → handler x mux r w s
        ≡ done
            (respond code chunk w')
            (logged (answer_line (id_of x.ids x.now r s).1 r code (w'.size chunk)) s')
  unfolding handler chain request_id_middleware
  outer_of_done r w w' s s' code chunk other answers =
      let (s1, id) = id_of x.ids x.now r s in
      let v = set_header "X-Request-Id" id w in
      let inside =
        logging_of_done (cors_middleware x.cors (guarded x mux)) x.log x.started x.took
          (with_request_id id r) v _ s1 s'
          (cors_of_other (guarded x mux) x.cors (inner_request id r) (new_response_writer v) s1
              other
            ∙ ap (λ u. guarded x mux (inner_request id r) u s1)
                (cors_writer-wrapped x.cors (inner_request id r) v)
            ∙ answers) in
      recovery_of_done
        (request_id_middleware x.ids x.now
          (logging_middleware x.log x.started x.took (cors_middleware x.cors (guarded x mux))))
        x.log r w _ s _ inside
      ∙ ap
          (λ (q : Writer × Capture).
            done q.0 (logged (line_of (with_request_id id r) q.1 x.took) s'))
          (unwrap-respond code chunk w')

  -- The request as the rate limit gets it, and what the limiter answers about it.
  abbrev pub known : UserIdentity → Request → S → Request
  known identity r s = enrich identity (inner_request (id_of x.ids x.now r s).1 r)

  abbrev pub verdict : UserIdentity → Request → S → L × Answer
  verdict identity r s =
      ask_limiter x.limiter x.limits x.control x.metrics (known identity r s)
        (id_of x.ids x.now r s).0

  -- The state with what the limiter and the request counter keep.
  abbrev pub behind_limiter : UserIdentity → Request → S → S
  behind_limiter identity r s = x.limits.put (verdict identity r s).0 (id_of x.ids x.now r s).0

  abbrev pub limited : S → S
  limited s = x.metrics.put (record_rate_limited (x.metrics.get s)) s

  abbrev pub recorded : Request → ℕ → S → S
  recorded r code s =
      x.metrics.put (record_request r.method r.path code x.took_inside (x.metrics.get s)) s

  abbrev pub too_many_reply : Chunk
  too_many_reply = object (
      ("error", "rate_limit_exceeded")
      ∷ ("message", "Too many requests. Please try again later.")
      ∷ [])

  module _ (r : Request) (w : Writer) (s : S) (token : String) (identity : UserIdentity)
      (other : r.method ≢ "OPTIONS") (found : extract_bearer_token r ≡ some token)
      (valid : x.validator token (id_of x.ids x.now r s).0 ≡ some identity) where
    let_in :
        (v : Writer)
        → guarded x mux (inner_request (id_of x.ids x.now r s).1 r) v (id_of x.ids x.now r s).0
          ≡ rate_limit_middleware x.limiter x.limits x.control x.metrics
              (metrics_middleware x.metrics x.took_inside mux)
              (known identity r s)
              v
              (id_of x.ids x.now r s).0
    let_in v =
        auth_middleware-passes x.log x.validator _ (inner_request (id_of x.ids x.now r s).1 r) v _
          token identity (extract-inner_request _ r ∙ found) valid

    -- A request that the limiter refuses is answered by 429, the router is not asked, one line with
    -- the status 429 is logged, and of the metrics only the counter of limited requests changes.
    pub refused_request :
        (verdict identity r s).1 ≡ allowed false
        → handler x mux r w s ≡ (
            let id = (id_of x.ids x.now r s).1 in
            let v = set_header "Content-Type" "application/json" (inner_writer id r w) in
            done (respond 429 too_many_reply v) (
              logged
                (answer_line id r 429 (v.size too_many_reply))
                (limited (behind_limiter identity r s))))
    unfolding too_many
    refused_request refused =
        let id = (id_of x.ids x.now r s).1 in
        let v = inner_writer id r w in
        outer_of_done r w (set_header "Content-Type" "application/json" v) s _ 429 too_many_reply
          other
          (let_in (new_response_writer v)
            ∙ rate_limited x.limiter x.limits x.control x.metrics _ (known identity r s)
                (new_response_writer v) _ refused
            ∙ ap (λ u. done (respond 429 too_many_reply u) (limited (behind_limiter identity r s)))
                (set_header-wrapped "Content-Type" "application/json" v))

    -- A request that the limiter does not refuse, and for which the router sets any headers and
    -- then answers, is answered by what the router sends, with these headers; the counters record
    -- it under the status of the answer, and one line is logged.
    pub answered_request :
        (hs : List (String × String)) (code : ℕ) (chunk : Chunk) (s' : S)
        → (verdict identity r s).1 ≢ allowed false
        → ((v : Writer)
            → mux (known identity r s) v (behind_limiter identity r s)
              ≡ done (respond code chunk (with_headers hs v)) s')
        → handler x mux r w s ≡ (
            let id = (id_of x.ids x.now r s).1 in
            let v = with_headers hs (inner_writer id r w) in
            done
              (respond code chunk v)
              (logged (answer_line id r code (v.size chunk)) (recorded r code s')))
    answered_request hs code chunk s' open_gate answers =
        let id = (id_of x.ids x.now r s).1 in
        let v = inner_writer id r w in
        outer_of_done r w (with_headers hs v) s _ code chunk other (
          let_in (new_response_writer v)
          ∙ rate_limit-passes x.limiter x.limits x.control x.metrics _ (known identity r s)
              (new_response_writer v) _ open_gate
          ∙ metrics_middleware_lem x.metrics x.took_inside mux code chunk (known identity r s)
              (new_response_writer v) (new_response_writer (with_headers hs v)) _ s'
              (answers _ ∙ ap (λ u. done (respond code chunk u) s') (wrapped_twice hs v)))
