-- ===== src/Gateway/Router.antt =====
-- The router that cmd/gateway/main.go puts behind its chain, with the reverse proxy as its last
-- route. `clean_path` is what `http.ServeMux` makes of a path with empty or dotted parts, and
-- `moved` is its redirect to such a path.
use aizen_gate.Base.{
  ◌≡◌, refl, String, Bool, true, false, ◌&&◌, ◌||◌, arith, str_eq, eq_iff, if◌then◌else◌,
  Bool-cases, inl, inr,
}
use aizen_gate.Base.Dict.{insert}
use aizen_gate.Base.Text.{strip_prefix}
use aizen_gate.Http.{Request, Writer, Handler}
use aizen_gate.Proxy.Forwarding.{Director, ProxyHandler, is_internal_path, serve_http}

-- The handlers that main.go registers, beside the proxy.
pub record Routes (S : Type 0) : Type 0 where
  pub health : Handler S
  pub metrics : Handler S
  pub policies : Handler S
  pub translator : Handler S

-- A pattern with the method GET takes HEAD as well.
abbrev is_get : String → Bool
is_get method = str_eq method "GET" || str_eq method "HEAD"

module _ {S : Type 0} (clean_path : String → String) (moved : Handler S) (routes : Routes S)
    (reverse_proxy : Director → Handler S) (started : String) (h : ProxyHandler) where
  -- The patterns, the most specific one first; "/" takes what is left.
  unfoldable pub route : Handler S
  route r w s =
      if is_get r.method && (str_eq r.path "/health" || str_eq r.path "/healthz")
      then routes.health r w s
      else if is_get r.method && str_eq r.path "/metrics"
      then routes.metrics r w s
      else if str_eq r.path "/api/v1/policies"
      then routes.policies r w s
      else if str_eq r.path "/api/v1/policies/translate"
      then routes.translator r w s
      else serve_http reverse_proxy started h r w s

  unfoldable pub mux : Handler S
  unfolding route
  mux r w s =
      if str_eq (clean_path r.path) r.path || str_eq r.method "CONNECT"
      then route r w s
      else moved r w s

outside-ne :
    (path own : String)
    → is_internal_path own ≡ true
    → is_internal_path path ≡ false
    → str_eq path own ≡ false
outside-ne path own inside outside = elim (Bool-cases (str_eq path own)) [
  | inl same ↦
      let e : path ≡ own = (eq_iff path own).0 same in
      let both : is_internal_path path ≡ true = rw e inside in cc
  | inr other ↦ other
]

module _ {S : Type 0} (clean_path : String → String) (moved : Handler S) (routes : Routes S)
    (started : String) (h : ProxyHandler) where
  -- A path that is reserved for the gateway is never forwarded: the answer is the same whatever the
  -- upstream does.
  internal_path_stays :
      (rp rp' : Director → Handler S) (r : Request) (w : Writer) (s : S)
      → is_internal_path r.path ≡ true
      → mux clean_path moved routes rp started h r w s
        ≡ mux clean_path moved routes rp' started h r w s
  unfolding mux route serve_http
  internal_path_stays rp rp' r w s inside = ground (arith, inside)

  outside_goes_on :
      (rp : Director → Handler S) (r : Request) (w : Writer) (s : S)
      → is_internal_path r.path ≡ false
      → clean_path r.path ≡ r.path
      → mux clean_path moved routes rp started h r w s
        ≡ rp h.director
            (record r { headers = insert "X-Zengate-Proxy-Start" started r.headers })
            w
            s
  unfolding mux route serve_http is_internal_path strip_prefix
  outside_goes_on rp r w s outside clean = ground (
    arith,
    outside,
    eq_iff (clean_path r.path) r.path,
    outside-ne r.path "/health" refl outside,
    outside-ne r.path "/healthz" refl outside,
    outside-ne r.path "/metrics" refl outside,
    outside-ne r.path "/api/v1/policies" refl outside,
    outside-ne r.path "/api/v1/policies/translate" refl outside,
  )

  -- A request whose path is clean and not reserved for the gateway goes to the current target, with
  -- the time in a header; on every reserved path the answer is the same whatever the upstream does.
  pub forwards_outside_only :
      (rp : Director → Handler S) (r : Request) (w : Writer) (s : S)
      → (is_internal_path r.path ≡ false
          → clean_path r.path ≡ r.path
          → mux clean_path moved routes rp started h r w s
            ≡ rp h.director
                (record r { headers = insert "X-Zengate-Proxy-Start" started r.headers })
                w
                s)
        × (is_internal_path r.path ≡ true
            → (other : Director → Handler S)
            → mux clean_path moved routes rp started h r w s
              ≡ mux clean_path moved routes other started h r w s)
  forwards_outside_only rp r w s =
      (outside_goes_on rp r w s, λ inside other. internal_path_stays rp other r w s inside)
