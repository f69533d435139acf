-- ===== src/Proxy/Recovery.antt =====
-- What a panic behind the middlewares of internal/proxy/middleware.go leads to.
use aizen_gate.Base.{◌≡◌, refl, ap, ◌∙◌, ℕ, some, none, List, [], ◌∷◌, ◌++◌, arith}
use aizen_gate.Http.{
  Request, Writer, Chunk, text, set_header, write_header, write, respond, done, panicked, Handler,
  Part, status_of, state_of, writer_of,
}
use aizen_gate.Metrics.{Metrics}
use aizen_gate.Proxy.{
  chain, recovery_middleware, internal_server_error, request_id_middleware, get_request_id,
  logging_middleware, metrics_middleware, new_response_writer, unwrap, LogEntry, panic_recovered,
}

respond_status :
    (chunk : Chunk) (w : Writer)
    → w.status ≡ none
    → (respond 500 chunk (set_header "Content-Type" "application/json" w)).status ≡ some 500
unfolding set_header respond write write_header
respond_status chunk w fresh = rw fresh refl

respond_body :
    (chunk : Chunk) (w : Writer)
    → (respond 500 chunk (set_header "Content-Type" "application/json" w)).body
      ≡ w.body ++ chunk ∷ []
unfolding set_header respond write write_header
respond_body chunk w = ground arith

unwrap-status : (w : Writer) → (unwrap w).0.status ≡ w.status
unfolding unwrap
unwrap-status w = ground arith

module _ {S : Type 0} (log : Part S (List LogEntry)) where
  -- The state with one more recovered panic in the log.
  abbrev pub noted : Request → S → S
  noted r s = log.put (panic_recovered (get_request_id r.context) r.method r.path ∷ log.get s) s

  recovered :
      (next : Handler S) (r : Request) (w w' : Writer) (s s' : S)
      → next r w s ≡ panicked w' s'
      → recovery_middleware log next r w s
        ≡ done
            (respond 500
              (text (internal_server_error (get_request_id r.context)))
              (set_header "Content-Type" "application/json" w'))
            (noted r s')
  unfolding recovery_middleware
  recovered next r w w' s s' h = rw h refl

  -- Where a request comes without an id in its context and the handler behind the request id
  -- middleware panics, the recovery middleware around both ends the body with an error that has an
  -- empty id.
  pub recovered_without_id :
      (counter : Part S ℕ) (now : ℕ) (next : Handler S) (r : Request) (w w' : Writer) (s s' : S)
      → r.context.request_id ≡ none
      → request_id_middleware counter now next r w s ≡ panicked w' s'
      → (writer_of (
          chain next (recovery_middleware log ∷ request_id_middleware counter now ∷ []) r w s)).body
        ≡ w'.body ++ text (internal_server_error "") ∷ []
  unfolding chain
  recovered_without_id counter now next r w w' s s' no_id h =
      ap (λ o. (writer_of o).body)
        (recovered (request_id_middleware counter now next) r w w' s s' h)
      ∙ respond_body _ w'
      ∙ rw no_id refl

module _ {S : Type 0} (log : Part S (List LogEntry)) (metrics : Part S Metrics)
    (start took_inside took : ℕ) where
  -- Behind recovery, logging and metrics, a request whose handler panics before a status was sent
  -- is answered by 500. The state is what the handler left with one more entry in the log, that a
  -- panic was recovered, with the request's id, method and path: the request is not counted, and no
  -- line of a completed request is logged.
  pub panic_is_not_counted :
      (next : Handler S) (r : Request) (w w' : Writer) (s s' : S)
      → next
          (record r { context = record r.context { start_time = some start } })
          (new_response_writer (new_response_writer w))
          s
        ≡ panicked w' s'
      → w'.status ≡ none
      → let o =
          chain next
            (recovery_middleware log
              ∷ logging_middleware log start took
              ∷ metrics_middleware metrics took_inside
              ∷ [])
            r
            w
            s in
        (status_of o ≡ some 500)
        × (state_of o
            ≡ log.put (panic_recovered (get_request_id r.context) r.method r.path ∷ log.get s') s')
  unfolding chain logging_middleware metrics_middleware
  panic_is_not_counted next r w w' s s' h unsent =
      let e =
        recovered log
          (logging_middleware log start took (metrics_middleware metrics took_inside next)) r w
          (unwrap (unwrap w').0).0 s s' (rw h refl) in
      (
        ap status_of e
            ∙ respond_status _ (unwrap (unwrap w').0).0
                (unwrap-status (unwrap w').0 ∙ unwrap-status w' ∙ unsent),
        ap state_of e,
      )
