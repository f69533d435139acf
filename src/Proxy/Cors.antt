-- ===== src/Proxy/Cors.antt =====
-- The headers and the preflight answers of internal/proxy/middleware.go.
use aizen_gate.Base.{
  sym, ap, ◌∙◌, ◌≡◌, ◌≢◌, ◌↔◌, ◌⊎◌, inl, inr, refl, String, true, none, some, List, [], ◌∷◌, arith,
  str_eq-ne, eq_iff, Bool-cases, if◌then◌else◌,
}
use aizen_gate.Base.Dict.{lookup, insert, lookup-insert, lookup-insert_same}
use aizen_gate.Base.Text.{join}
use aizen_gate.Http.{
  Request, Writer, get_header, set_header, write_header, done, Handler, status_of, state_of,
}
use aizen_gate.Proxy.{CorsConfig, is_allowed, cors_headers, cors_middleware}

abbrev pub allow_origin : String
allow_origin = "Access-Control-Allow-Origin"

-- An item of a list.
abbrev pub Among : String → List String → Type 0
Among x [] = ⊥
Among x (y ∷ ys) = (y ≡ x) ⊎ Among x ys

-- An origin is allowed exactly if it or "*" is configured.
pub is_allowed_iff :
    (origin : String) (os : List String)
    → (is_allowed origin os ≡ true) ↔ (Among "*" os ⊎ Among origin os)
unfolding is_allowed
is_allowed_iff origin [] = ground arith
is_allowed_iff origin (o ∷ os) =
    ground (arith, is_allowed_iff origin os, eq_iff o "*", eq_iff o origin)

cors_headers_lem :
    (cfg : CorsConfig) (origin : String) (w : Writer)
    → w.status ≡ none
    → (lookup allow_origin (cors_headers cfg origin w).headers ≡ some origin)
      × ((cors_headers cfg origin w).status ≡ none)
unfolding cors_headers set_header
cors_headers_lem cfg origin w fresh = rw fresh (
  ground (
    arith,
    lookup-insert "Access-Control-Max-Age" allow_origin "86400" (
        insert "Access-Control-Allow-Headers" (join cfg.allowed_headers ", ") (
          insert "Access-Control-Allow-Methods" (join cfg.allowed_methods ", ")
            (insert allow_origin origin w.headers))),
    lookup-insert "Access-Control-Allow-Headers" allow_origin (join cfg.allowed_headers ", ") (
        insert "Access-Control-Allow-Methods" (join cfg.allowed_methods ", ")
          (insert allow_origin origin w.headers)),
    lookup-insert "Access-Control-Allow-Methods" allow_origin (join cfg.allowed_methods ", ")
        (insert allow_origin origin w.headers),
    lookup-insert_same allow_origin origin w.headers,
  ),
  refl,
)

module _ {S : Type 0} (cfg : CorsConfig) (next : Handler S) where
  allowed_header :
      (origin : String) (w : Writer)
      → w.status ≡ none
      → let permitted = is_allowed origin cfg.allowed_origins in
        lookup allow_origin (if permitted then cors_headers cfg origin w else w).headers
        ≡ (if permitted then some origin else lookup allow_origin w.headers)
  allowed_header origin w fresh = elim (Bool-cases (is_allowed origin cfg.allowed_origins)) [
    | inl ok ↦ rw ok (cors_headers_lem cfg origin w fresh).0
    | inr bad ↦ rw bad refl
  ]

  -- On a response that has not begun, a request that is no preflight goes to the next handler, with
  -- the header Access-Control-Allow-Origin set to the request's origin if that is allowed, and with
  -- that header as it was if not.
  pub cors_middleware-next :
      (r : Request) (w : Writer) (s : S)
      → w.status ≡ none
      → r.method ≢ "OPTIONS"
      → (w' : Writer) × (cors_middleware cfg next r w s ≡ next r w' s)
        × (lookup allow_origin w'.headers ≡ (
            if is_allowed (get_header "Origin" r.headers) cfg.allowed_origins
            then some (get_header "Origin" r.headers)
            else lookup allow_origin w.headers))
  unfolding cors_middleware
  cors_middleware-next r w s fresh other =
      let origin = get_header "Origin" r.headers in
      (
        if is_allowed origin cfg.allowed_origins then cors_headers cfg origin w else w,
        rw (str_eq-ne r.method "OPTIONS" other) refl,
        allowed_header origin w fresh,
      )

  permitted_writer :
      (origin : String) (w : Writer)
      → w.status ≡ none
      → (write_header 204
          (if is_allowed origin cfg.allowed_origins then cors_headers cfg origin w else w)).status
        ≡ some 204
  unfolding write_header
  permitted_writer origin w fresh = elim (Bool-cases (is_allowed origin cfg.allowed_origins)) [
    | inl ok ↦ rw (ok, (cors_headers_lem cfg origin w fresh).1) refl
    | inr bad ↦ rw (bad, fresh) refl
  ]

  preflight :
      (other : Handler S) (r : Request) (w : Writer) (s : S)
      → r.method ≡ "OPTIONS"
      → cors_middleware cfg other r w s
        ≡ done
            (write_header 204 (
              if is_allowed (get_header "Origin" r.headers) cfg.allowed_origins
              then cors_headers cfg (get_header "Origin" r.headers) w
              else w))
            s
  unfolding cors_middleware
  preflight other r w s options = ground (arith, eq_iff r.method "OPTIONS")

  -- A preflight is answered by 204 here, whatever the origin, and never reaches the next handler.
  pub cors_middleware-preflight :
      (r : Request) (w : Writer) (s : S)
      → w.status ≡ none
      → r.method ≡ "OPTIONS"
      → (status_of (cors_middleware cfg next r w s) ≡ some 204)
        × (state_of (cors_middleware cfg next r w s) ≡ s)
        × ((other : Handler S) → cors_middleware cfg other r w s ≡ cors_middleware cfg next r w s)
  cors_middleware-preflight r w s fresh options =
      let e = (λ (other : Handler S). preflight other r w s options) in
      (
        ap status_of (e next) ∙ permitted_writer (get_header "Origin" r.headers) w fresh,
        ap state_of (e next),
        λ other. e other ∙ sym (e next),
      )
