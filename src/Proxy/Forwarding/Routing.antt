-- ===== src/Proxy/Forwarding/Routing.antt =====
-- Which requests internal/proxy/handler.go forwards, and to which target.
use aizen_gate.Base.{
  ◌≡◌, ◌↔◌, ◌⊎◌, inl, inr, refl, sym, ap, ◌∙◌, String, true, false, Option, none, some, List, [],
  ◌∷◌, ◌++◌, arith, All, str_eq, Bool-cases, Option-cases, if◌then◌else◌,
}
use text.Mathlib.TextLemmas.{append_assoc}
use aizen_gate.Base.Dict.{lookup-insert, lookup-insert_same}
use aizen_gate.Base.Text.{◌<>◌, has_prefix, strip_prefix}
use aizen_gate.Base.Text.Laws.{strip_prefix-append, strip_prefix_sound}
use aizen_gate.Http.{
  Request, Writer, get_header, set_header, write_header, write, respond, done, Handler, status_of,
  state_of,
}
use aizen_gate.ControlPlane.{Event}
use aizen_gate.Proxy.Forwarding.{
  Target, Outgoing, Director, forwarded_for, identify, dynamic_director, ProxyHandler,
  update_target, is_internal_path, not_found, serve_http, update_by_text, watch_upstream,
}

-- A text that starts with another one.
abbrev pub StartsWith : String → String → Type 0
StartsWith p s = (rest : String) × (s ≡ p <> rest)

has_prefix-append : (p rest : String) → has_prefix (p <> rest) p ≡ true
has_prefix-append p rest = ground (arith, strip_prefix-append p rest)

has_prefix_iff : (s p : String) → (has_prefix s p ≡ true) ↔ StartsWith p s
has_prefix_iff s p = (
  λ h. elim (Option-cases (strip_prefix s p)) [
    | inl missing ↦ absurd (ground (arith, h, missing))
    | inr (rest, found) ↦ (rest, strip_prefix_sound s p rest found)
  ],
  λ (rest, whole). rw whole (has_prefix-append p rest),
)

healthz_is_health :
    (path : String) → has_prefix path "/healthz" ≡ true → has_prefix path "/health" ≡ true
healthz_is_health path h =
    let (rest, whole) = (has_prefix_iff path "/healthz").0 h in
    (has_prefix_iff path "/health").1 ("z" <> rest, whole ∙ append_assoc "/health" "z" rest)

only_policies :
    (path : String)
    → is_internal_path path ≡ true
    → has_prefix path "/health" ≡ false
    → has_prefix path "/metrics" ≡ false
    → has_prefix path "/api/v1/policies" ≡ true
unfolding is_internal_path
only_policies path h not_a not_b = ground (arith, healthz_is_health path)

-- The paths that are kept from the upstream are exactly those that start with "/health", "/metrics"
-- or "/api/v1/policies".
pub is_internal_path_iff :
    (path : String)
    → (is_internal_path path ≡ true) ↔ (
        StartsWith "/health" path
        ⊎ (StartsWith "/metrics" path ⊎ StartsWith "/api/v1/policies" path))
unfolding is_internal_path
is_internal_path_iff path =
    let health = has_prefix_iff path "/health" in
    let metrics = has_prefix_iff path "/metrics" in
    let policies = has_prefix_iff path "/api/v1/policies" in
    (
      λ h. elim (Bool-cases (has_prefix path "/health")) [
        | inl a ↦ inl (health.0 a)
        | inr not_a ↦ elim (Bool-cases (has_prefix path "/metrics")) [
          | inl b ↦ inr (inl (metrics.0 b))
          | inr not_b ↦ inr (inr (policies.0 (only_policies path h not_a not_b)))
        ]
      ],
      λ c. elim c [
        | inl a ↦ let t = health.1 a in ground arith
        | inr (inl b) ↦ let t = metrics.1 b in ground arith
        | inr (inr c) ↦ let t = policies.1 c in ground arith
      ],
    )

not_found_status : (w : Writer) → w.status ≡ none → (not_found w).status ≡ some 404
unfolding not_found respond set_header write_header write
not_found_status w fresh = rw fresh refl

module _ {S : Type 0} (reverse_proxy : Director → Handler S) where
  kept :
      (other : Director → Handler S) (start : String) (h : ProxyHandler) (r : Request) (w : Writer)
      (s : S) (rest : String)
      → r.path ≡ "/health" <> rest
      → serve_http other start h r w s ≡ done (not_found w) s
  unfolding serve_http
  kept other start h r w s rest path =
      let inside = (is_internal_path_iff r.path).1 (inl (rest, path)) in rw inside refl

  -- Whatever follows "/health" in a path, also in "/healthcare", the request is answered by 404
  -- where no status was sent, and the reverse proxy has no part in it.
  pub health_is_never_forwarded :
      (rest start : String) (h : ProxyHandler) (r : Request) (w : Writer) (s : S)
      → r.path ≡ "/health" <> rest
      → w.status ≡ none
      → (status_of (serve_http reverse_proxy start h r w s) ≡ some 404)
        × (state_of (serve_http reverse_proxy start h r w s) ≡ s)
        × ((other : Director → Handler S)
            → serve_http other start h r w s ≡ serve_http reverse_proxy start h r w s)
  health_is_never_forwarded rest start h r w s path fresh =
      let e = λ (other : Director → Handler S). kept other start h r w s rest path in
      (
        ap status_of (e reverse_proxy) ∙ not_found_status w fresh,
        ap state_of (e reverse_proxy),
        λ other. e other ∙ sym (e reverse_proxy),
      )

-- Both directors name the client by what the request has in X-Forwarded-For or, where that is
-- absent or empty, by its address, and overwrite X-Forwarded-By.
pub director_headers :
    (version : String) (o : Outgoing)
    → (get_header "X-Forwarded-For" (identify version o).headers ≡ (
        if str_eq (get_header "X-Forwarded-For" o.headers) ""
        then o.remote_addr
        else get_header "X-Forwarded-For" o.headers))
      × (get_header "X-Forwarded-By" (identify version o).headers ≡ "ZenGate/" <> version)
unfolding identify
director_headers version o = ground (
  arith,
  lookup-insert "X-Forwarded-By" "X-Forwarded-For" ("ZenGate/" <> version) (forwarded_for o),
  lookup-insert_same "X-Forwarded-By" ("ZenGate/" <> version) (forwarded_for o),
  lookup-insert_same "X-Forwarded-For" o.remote_addr o.headers,
)

watch_upstream-append :
    (parse : String → Option Target) (es fs : List Event) (h : ProxyHandler)
    → watch_upstream parse (es ++ fs) h ≡ watch_upstream parse fs (watch_upstream parse es h)
unfolding watch_upstream
watch_upstream-append parse [] fs h = refl
watch_upstream-append parse (Event.put key value ∷ es) fs h = watch_upstream-append parse es fs _
watch_upstream-append parse (Event.delete key type ∷ es) fs h = watch_upstream-append parse es fs h

-- An event that sets no target: a deletion, or a text that is no URL.
abbrev pub IsIdle : (String → Option Target) → Event → Type 0
IsIdle parse (Event.put key value) = parse value ≡ none
IsIdle parse (Event.delete key type) = Unit

malformed :
    (parse : String → Option Target) (value : String) (h : ProxyHandler)
    → parse value ≡ none
    → update_by_text parse value h ≡ h
malformed parse value h bad = ground arith

pub well_formed :
    (parse : String → Option Target) (value : String) (target : Target) (h : ProxyHandler)
    → parse value ≡ some target
    → update_by_text parse value h ≡ update_target target h
well_formed parse value target h good = ground arith

watch_upstream_idle :
    (parse : String → Option Target) (es : List Event) (h : ProxyHandler)
    → All (IsIdle parse) es
    → watch_upstream parse es h ≡ h
unfolding watch_upstream
watch_upstream_idle parse [] h idle = refl
watch_upstream_idle parse (Event.put key value ∷ es) h (bad, idle) =
    ap (watch_upstream parse es) (malformed parse value h bad) ∙ watch_upstream_idle parse es h idle
watch_upstream_idle parse (Event.delete key type ∷ es) h (_, idle) =
    watch_upstream_idle parse es h idle

pub last_target :
    (parse : String → Option Target) (before idle : List Event) (key value : String)
    (target : Target) (h : ProxyHandler)
    → parse value ≡ some target
    → All (IsIdle parse) idle
    → watch_upstream parse (before ++ Event.put key value ∷ idle) h
      ≡ update_target target (watch_upstream parse before h)
unfolding watch_upstream
last_target parse before idle key value target h good rest =
    watch_upstream-append parse before (Event.put key value ∷ idle) h
    ∙ watch_upstream_idle parse idle _ rest
    ∙ well_formed parse value target _ good

-- After the events of a watch, requests go to the last target that was written as a URL, whatever
-- came before it, and whatever deletions and malformed texts came after it.
pub watch_upstream_last :
    (parse : String → Option Target) (before idle : List Event) (key value : String)
    (target : Target) (h : ProxyHandler) (o : Outgoing)
    → parse value ≡ some target
    → All (IsIdle parse) idle
    → let h' = watch_upstream parse (before ++ Event.put key value ∷ idle) h in
      (h'.target ≡ target)
      × ((h'.director o).scheme ≡ target.scheme)
      × ((h'.director o).url_host ≡ target.host)
      × ((h'.director o).host ≡ target.host)
unfolding update_target dynamic_director identify
watch_upstream_last parse before idle key value target h o good rest =
    let e = last_target parse before idle key value target h good rest in
    (
      ap (λ p. p.target) e,
      ap (λ p. (p.director o).scheme) e,
      ap (λ p. (p.director o).url_host) e,
      ap (λ p. (p.director o).host) e,
    )
