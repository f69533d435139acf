-- ===== src/Proxy/Chain.antt =====
-- What the chain of internal/proxy/middleware.go does to a request, for any inner handler.
use aizen_gate.Base.{
  ℕ, get_or, Bool-cases, code, ◌≡◌, ◌⊎◌, inl, inr, refl, ap, String, none, some, List, [], ◌∷◌,
  ◌++◌, arith, str_eq, eq_iff,
}
use aizen_gate.Base.Dict.{lookup, lookup-insert_same}
use aizen_gate.Http.{
  Request, Writer, Chunk, get_header, set_header, write_header, write, respond, done, Handler,
  Middleware, Part,
}
use aizen_gate.Metrics.{Metrics, record_request}
use aizen_gate.Proxy.{
  chain, id_of, with_request_id, request_id_middleware, get_request_id, new_response_writer, unwrap,
  LogEntry, completed, line_of, logging_middleware, metrics_middleware,
}

-- Chaining two lists of middlewares is chaining the first around the chain of the second.
pub chain-append :
    {S : Type 0} (handler : Handler S) (ms ns : List (Middleware S))
    → chain handler (ms ++ ns) ≡ chain (chain handler ns) ms
unfolding chain
chain-append handler [] ns = refl
chain-append handler (m ∷ ms) ns = ap m (chain-append handler ms ns)

module _ (code : ℕ) (chunk : Chunk) (w : Writer) where
  pub unwrap-respond :
      unwrap (respond code chunk (new_response_writer w))
      ≡ (respond code chunk w, record { status_code = code; written = w.size chunk })
  unfolding unwrap respond new_response_writer write write_header
  unwrap-respond = ground arith

module _ {S : Type 0} (metrics : Part S Metrics) (duration : ℕ) where
  -- The metrics middleware passes the answer of the inner handler on unchanged, and records the
  -- request under the status that the handler sent.
  pub metrics_middleware_lem :
      (next : Handler S) (code : ℕ) (chunk : Chunk) (r : Request) (w w' : Writer) (s s' : S)
      → next r (new_response_writer w) s ≡ done (respond code chunk (new_response_writer w')) s'
      → metrics_middleware metrics duration next r w s
        ≡ done
            (respond code chunk w')
            (metrics.put (record_request r.method r.path code duration (metrics.get s')) s')
  unfolding metrics_middleware
  metrics_middleware_lem next code chunk r w w' s s' answers = rw (answers, unwrap-respond) refl

module _ {S : Type 0} (log : Part S (List LogEntry)) (start duration : ℕ) where
  -- The logging middleware passes the answer of the inner handler on unchanged, and logs one line
  -- with the status and the bytes that the handler sent, at the level of the status.
  pub logging_middleware_lem :
      (next : Handler S) (code : ℕ) (chunk : Chunk) (r : Request) (w : Writer) (s s' : S)
      → next
          (record r { context = record r.context { start_time = some start } })
          (new_response_writer w)
          s
        ≡ done (respond code chunk (new_response_writer w)) s'
      → logging_middleware log start duration next r w s
        ≡ done (respond code chunk w) (
            log.put
              (completed
                  (line_of r (record { status_code = code; written = w.size chunk }) duration)
                ∷ log.get s')
              s')
  unfolding logging_middleware
  logging_middleware_lem next code chunk r w s s' answers = rw (answers, unwrap-respond) refl

module _ {S : Type 0} (counter : Part S ℕ) (now : ℕ) where
  given_or_none :
      (r : Request) (s : S)
      → (get_header "X-Request-Id" r.headers ≡ "")
        ⊎ (get_header "X-Request-Id" r.headers ≡ (id_of counter now r s).1)
  unfolding id_of
  given_or_none r s = elim (Bool-cases (str_eq (get_header "X-Request-Id" r.headers) "")) [
    | inl empty ↦ inl ((eq_iff _ _).0 empty)
    | inr given ↦ inr (rw given refl)
  ]

  -- Behind the request id middleware, the context, the request header and, where no status was
  -- sent, the response header carry one id: that of the client, if it gave one.
  pub request_id_middleware_lem :
      (next : Handler S) (r : Request) (w : Writer) (s : S)
      → w.status ≡ none
      → (id : String) × (r' : Request) × (w' : Writer) × (s' : S) × (request_id_middleware counter
            now next r w s
          ≡ next r' w' s')
        × (get_request_id r'.context ≡ id)
        × (get_header "X-Request-Id" r'.headers ≡ id)
        × (lookup "X-Request-Id" w'.headers ≡ some id)
        × ((get_header "X-Request-Id" r.headers ≡ "") ⊎ (get_header "X-Request-Id" r.headers ≡ id))
  unfolding request_id_middleware set_header
  request_id_middleware_lem next r w s fresh =
      let o = id_of counter now r s in
      (
        o.1,
        with_request_id o.1 r,
        set_header "X-Request-Id" o.1 w,
        o.0,
        refl,
        refl,
        ap (λ v. get_or v "") (lookup-insert_same "X-Request-Id" o.1 r.headers),
        rw fresh (lookup-insert_same "X-Request-Id" o.1 w.headers),
        given_or_none r s,
      )
