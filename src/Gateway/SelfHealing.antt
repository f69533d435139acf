-- ===== src/Gateway/SelfHealing.antt =====
-- From an answer of the language model in internal/ai/healer.go to the target of the reverse proxy,
-- by way of etcd, or of the callback, and the goroutine of cmd/gateway/main.go that follows them.
use aizen_gate.Base.{
  ◌≡◌, refl, ap, ◌∙◌, String, Bool, true, false, some, none, Option, List, [], inl, inr, Bool-cases,
  subst, sym, str_eq, eq_refl, if◌then◌else◌,
}
use aizen_gate.ControlPlane.{Etcd, Plane, Event, update_upstream}
use aizen_gate.Ai.{clean_json}
use aizen_gate.Ai.Healer.{
  HealerResult, target_of, upstream_key, execute_failover, query_ai_and_recover,
}
use aizen_gate.Proxy.Forwarding.{
  Target, Outgoing, ProxyHandler, update_target, update_by_text, watch_upstream, dynamic_director,
  identify,
}
use aizen_gate.Proxy.Forwarding.Routing.{last_target, well_formed}
use aizen_gate.Gateway.Reports.{Reports}

-- The goroutine of `main` that follows the upstream: it reads the watch if there is an etcd client,
-- and sets a callback if there is none. `called` is what the callback was called with.
unfoldable pub follow_upstream :
    (String → Option Target) → Bool → List Event → Option String → ProxyHandler → ProxyHandler
unfolding watch_upstream
follow_upstream parse connected events called h =
    if connected
    then watch_upstream parse events h
    else elim called [ none ↦ h | some value ↦ update_by_text parse value h ]

-- Requests go to this target.
pub record SendsTo (target : Target) (h : ProxyHandler) : Type 0 where
  pub kept : h.target ≡ target
  pub scheme : (o : Outgoing) → (h.director o).scheme ≡ target.scheme
  pub url_host : (o : Outgoing) → (h.director o).url_host ≡ target.host
  pub host : (o : Outgoing) → (h.director o).host ≡ target.host

update_target-SendsTo :
    (target : Target) (h : ProxyHandler) → SendsTo target (update_target target h)
unfolding update_target dynamic_director identify
update_target-SendsTo target h = record {
  kept = refl;
  scheme = λ o. refl;
  url_host = λ o. refl;
  host = λ o. refl;
}

module _ {E : Type 0} (etcd : Etcd E) (read_result : String → Option HealerResult)
    (parse : String → Option Target) (events : E → List Event) where
  -- An answer that names a target which parses as a URL, and whose write to etcd succeeds and is
  -- reported by the watch, or whose callback is set where there is no client, moves every later
  -- request of the proxy to that target.
  pub failover_redirects :
      (text value : String) (target : Target) (s : Plane E) (h : ProxyHandler)
      → Reports etcd (λ key. str_eq key upstream_key) events
      → target_of (read_result (clean_json text)) ≡ some value
      → parse value ≡ some target
      → (s.client.connected ≡ true → (etcd.put upstream_key value s.etcd).1 ≡ true)
      → (s.client.connected ≡ false → s.client.has_callback ≡ true)
      → let (s', called) = query_ai_and_recover etcd read_result (some text) s in
        SendsTo target (follow_upstream parse s.client.connected (events s'.etcd) called h)
  unfolding query_ai_and_recover execute_failover update_upstream follow_upstream
  failover_redirects text value target s h reports names good puts calls =
      elim (Bool-cases s.client.connected) [
        | inl connected ↦
            let seen =
              reports.put_reported upstream_key value s.etcd (eq_refl upstream_key)
                (puts connected) in
            rw (names, query_ai_and_recover, connected)
              (subst (SendsTo target)
                (sym (
                  ap (λ es. watch_upstream parse es h) seen
                  ∙ last_target parse (events s.etcd) [] upstream_key value target h good tt))
                (update_target-SendsTo target _))
        | inr alone ↦
            rw (names, query_ai_and_recover, alone, calls alone, update_upstream)
              (subst (SendsTo target) (sym (well_formed parse value target h good))
                (update_target-SendsTo target h))
      ]
