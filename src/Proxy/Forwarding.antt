-- ===== src/Proxy/Forwarding.antt =====
-- internal/proxy/handler.go: the reverse proxy with its target, and the watcher in
-- cmd/gateway/main.go that changes the target. `url.Parse`, `httputil.ReverseProxy` and the
-- director that it starts with are parameters.
pub mod Routing
use aizen_gate.Base.{
  ℕ, ◌-◌, ◌/◌, String, Bool, true, false, ◌||◌, Option, none, some, List, [], ◌∷◌, str_eq,
  if◌then◌else◌,
}
use aizen_gate.Base.Dict.{Dict, insert}
use aizen_gate.Base.Text.{◌<>◌, has_prefix}
use aizen_gate.Base.Decimal.{show}
use aizen_gate.Http.{Request, Writer, get_header, set_header, respond, text, Outcome, done, Handler}
use aizen_gate.ControlPlane.{Event}

-- A parsed URL: what the code reads of it, and its text.
pub record Target : Type 0 where
  pub scheme : String
  pub host : String
  pub printed : String

-- The request that goes upstream.
pub record Outgoing : Type 0 where
  pub scheme : String
  pub url_host : String
  pub host : String
  pub path : String
  pub headers : Dict String
  pub remote_addr : String

abbrev pub Director : Type 0
Director = Outgoing → Outgoing

-- The client's address, unless a proxy has named it, and the gateway's name.
abbrev pub forwarded_for : Outgoing → Dict String
forwarded_for o =
    if str_eq (get_header "X-Forwarded-For" o.headers) ""
    then insert "X-Forwarded-For" o.remote_addr o.headers
    else o.headers

unfoldable pub identify : String → Director
identify version o = record o {
  headers = insert "X-Forwarded-By" ("ZenGate/" <> version) (forwarded_for o);
}

-- The director of `NewHandler`, behind that of `NewSingleHostReverseProxy`.
unfoldable pub first_director : (Target → Director) → String → Target → Director
unfolding identify
first_director original version target o =
    identify version (record (original target o) { host = target.host })

-- The director of `UpdateTarget`
unfoldable pub dynamic_director : Target → Director
unfolding identify
dynamic_director target o =
    identify "dynamic"
      (record o { scheme = target.scheme; url_host = target.host; host = target.host })

pub record ProxyHandler : Type 0 where
  pub target : Target
  pub director : Director

unfoldable pub new_handler :
    (String → Option Target) → (Target → Director) → String → String → Option ProxyHandler
new_handler parse original upstream version = elim (parse upstream) [
  | none ↦ none
  | some target ↦
      some (record { target = target; director = first_director original version target })
]

unfoldable pub update_target : Target → ProxyHandler → ProxyHandler
update_target target h = record { target = target; director = dynamic_director target }

-- `isInternalPath`
abbrev pub internal : List String
internal = "/health" ∷ "/healthz" ∷ "/metrics" ∷ "/api/v1/policies" ∷ []

unfoldable pub has_any_prefix : String → List String → Bool
has_any_prefix path [] = false
has_any_prefix path (p ∷ ps) = has_prefix path p || has_any_prefix path ps

unfoldable pub is_internal_path : String → Bool
unfolding has_any_prefix
is_internal_path path = has_any_prefix path internal

-- http.NotFound
unfoldable pub not_found : Writer → Writer
not_found w = respond 404 (text "404 page not found\n") (
    set_header "X-Content-Type-Options" "nosniff"
      (set_header "Content-Type" "text/plain; charset=utf-8" w))

module _ {S : Type 0} (reverse_proxy : Director → Handler S) where
  -- `ServeHTTP`; `start` is the printed time.
  unfoldable pub serve_http : String → ProxyHandler → Handler S
  serve_http start h r w s =
      if is_internal_path r.path
      then done (not_found w) s
      else reverse_proxy h.director
          (record r { headers = insert "X-Zengate-Proxy-Start" start r.headers }) w s

-- `rp.ErrorHandler`
unfoldable pub error_handler : Request → Writer → Writer
error_handler r w =
    respond 502
      (text (
        "{\"error\":\"bad_gateway\",\"message\":\"upstream service unavailable\",\"request_id\":\""
        <> get_header "X-Request-Id" r.headers
        <> "\"}"))
      (set_header "Content-Type" "application/json" w)

-- `rp.ModifyResponse` on the response's headers, given those of the request and the time;
-- `read_time` is `time.Parse`, in nanoseconds.
unfoldable pub modify_response : (String → Option ℕ) → ℕ → Dict String → Dict String → Dict String
modify_response read_time now sent headers =
    let start = get_header "X-Zengate-Proxy-Start" sent in
    let timed = if str_eq start "" then headers else elim (read_time start) [
      | none ↦ headers
      | some t ↦ insert "X-Upstream-Latency" (show ((now - t) / 1000000) <> "ms") headers
    ] in
    insert "X-Powered-By" "ZenGate AI" timed

-- The update of the target by its text: a text that is no URL is dropped.
abbrev pub update_by_text : (String → Option Target) → String → ProxyHandler → ProxyHandler
update_by_text parse value h = elim (parse value) [
  | none ↦ h
  | some target ↦ update_target target h
]

-- The events of the watch on "/zengate/upstream"; deletions are ignored.
unfoldable pub watch_upstream : (String → Option Target) → List Event → ProxyHandler → ProxyHandler
watch_upstream parse [] h = h
watch_upstream parse (Event.put key value ∷ events) h =
    watch_upstream parse events (update_by_text parse value h)
watch_upstream parse (Event.delete key type ∷ events) h = watch_upstream parse events h
