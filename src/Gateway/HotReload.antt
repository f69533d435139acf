-- ===== src/Gateway/HotReload.antt =====
-- From a policy that is saved over internal/controlplane/handler.go to the limit that
-- internal/ratelimit/middleware.go asks for, by way of etcd and the watch of the client.
use aizen_gate.Base.{
  ◌≡◌, refl, ap, sym, ◌∙◌, String, true, false, some, none, List, [], ◌∷◌, ◌++◌, arith,
  Option-cases, inl, inr, eq_iff, Bool-cases, str_eq,
}
use aizen_gate.Base.Dict.{
  Dict, lookup, insert, lookup-insert, lookup-insert_same, HasUniqueKeys, HasUniqueKeys-insert,
}
use aizen_gate.Base.Text.{◌<>◌, has_prefix}
use aizen_gate.Base.Text.Laws.{strip_prefix-append}
use aizen_gate.Policy.{Policy, Matches}
use aizen_gate.Http.{Request, Writer, Part, respond, Outcome, done, state_of, writer_of}
use aizen_gate.Metrics.{Metrics}
use aizen_gate.ControlPlane.{
  Etcd, PolicyJson, Client, Plane, prefix, Event, update_local_cache, apply_event, watch_events,
  get_policy,
}
use aizen_gate.ControlPlane.Matching.{get_matching_policy_unique}
use aizen_gate.ControlPlane.Handler.{
  lacks_fields, with_defaults, saved_reply, put_policy, store_policy, save_policy,
}
use aizen_gate.ControlPlane.Handler.Saving.{IsComplete, lacks_fields_iff}
use aizen_gate.Gateway.Reports.{Reports}
use aizen_gate.RateLimit.Limiter.{Limiter}
use aizen_gate.RateLimit.Middleware.{or_anonymous, seconds, policy_for, ask_limiter}

watch_events-append :
    (json : PolicyJson) (es : List Event) (e : Event) (m m' : Dict Policy)
    → watch_events json es m ≡ some m'
    → watch_events json (es ++ e ∷ []) m ≡ watch_events json (e ∷ []) m'
unfolding watch_events
watch_events-append json [] e m m' h = ground arith
watch_events-append json (d ∷ es) e m m' h = elim (Option-cases (apply_event json d m)) [
  | inl stuck ↦ let bad : none ≡ some m' = rw (stuck, watch_events) at h in cc
  | inr (n, goes) ↦
      rw (goes, watch_events) (watch_events-append json es e n m' (rw (goes, watch_events) at h))
]

policy_key-prefix : (id : String) → has_prefix (prefix <> id) prefix ≡ true
policy_key-prefix id = ground (arith, strip_prefix-append prefix id)

-- The policy is the only one of the mirror that accepts the request.
abbrev pub IsAlone : Policy → Request → String → Dict Policy → Type 0
IsAlone p r tier m =
    (j : String) (q : Policy) → lookup j m ≡ some q → Matches r.path r.method tier q → j ≡ p.id

policy_for-alone :
    (p : Policy) (r : Request) (c : Client) (m : Dict Policy)
    → HasUniqueKeys m
    → Matches r.path r.method (or_anonymous r.context.client_tier) p
    → IsAlone p r (or_anonymous r.context.client_tier) m
    → c.policies ≡ insert p.id p m
    → policy_for r c ≡ p
unfolding policy_for get_policy
policy_for-alone p r c m u fits alone e =
    let tier : String = or_anonymous r.context.client_tier in
    let here : lookup p.id c.policies ≡ some p = rw e (lookup-insert_same p.id p m) in
    let unique : HasUniqueKeys c.policies = rw e (HasUniqueKeys-insert p.id p m u) in
    let only : (j : String) (q : Policy)
        → get_policy j c ≡ some q
        → Matches r.path r.method tier q
        → j ≡ p.id =
      λ j q at fit. only_one j q (rw e at at) fit in
    rw (get_matching_policy_unique r.path r.method tier c p.id p unique here fits only) refl
  where
    only_one :
        (j : String) (q : Policy)
        → lookup j (insert p.id p m) ≡ some q
        → Matches r.path r.method (or_anonymous r.context.client_tier) q
        → j ≡ p.id
    only_one j q at fit = elim (Bool-cases (str_eq p.id j)) [
      | inl same ↦ ground (arith, eq_iff p.id j)
      | inr other ↦ alone j q (sym (lookup-insert p.id j p m ∙ rw other refl) ∙ at) fit
    ]

module _ {E : Type 0} (etcd : Etcd E) (json : PolicyJson) where
  abbrev etcd_of : Outcome (Plane E) → E
  etcd_of o = (state_of o).etcd

  -- `savePolicy` with a client, behind its tests.
  saved_in_etcd :
      (r : Request) (w : Writer) (s : Plane E) (p : Policy) (payload : String)
      → json.decode r.body ≡ some p
      → IsComplete p
      → s.client.connected ≡ true
      → json.marshal (with_defaults p) ≡ some payload
      → (etcd.put (prefix <> (with_defaults p).id) payload s.etcd).1 ≡ true
      → save_policy etcd json r w s
        ≡ done
            (respond 200 (saved_reply "saved" (with_defaults p).id) w)
            (record s { etcd = (etcd.put (prefix <> (with_defaults p).id) payload s.etcd).0 })
  unfolding save_policy store_policy put_policy
  saved_in_etcd r w s p payload reads complete connected prints puts =
      let accepted : lacks_fields p ≡ false = (lacks_fields_iff p).1 complete in ground arith

  watched :
      (key value : String) (p : Policy) (es : List Event) (start m : Dict Policy)
      → json.unmarshal value ≡ some p
      → watch_events json es start ≡ some m
      → watch_events json (es ++ Event.put key value ∷ []) start ≡ some (insert p.id p m)
  unfolding watch_events apply_event update_local_cache
  watched key value p es start m reads before =
      watch_events-append json es (Event.put key value) start m before ∙ ground arith

  -- With a connected client, a complete policy that is saved, whose text decodes to the policy
  -- again, and whose write succeeds and is reported by the watch, is answered by 200. Once the
  -- watch has handled what was reported, each request that the new policy alone accepts is put to
  -- the limiter with the limit and the window of that policy.
  pub saved_policy_is_enforced :
      {S L : Type 0} (events : E → List Event) (limiter : Limiter L) (limits : Part S L)
      (control : Part S Client) (metrics : Part S Metrics) (r : Request) (w : Writer) (s : Plane E)
      (p : Policy) (payload : String) (start m : Dict Policy)
      → Reports etcd (λ key. has_prefix key prefix) events
      → json.decode r.body ≡ some p
      → IsComplete p
      → s.client.connected ≡ true
      → json.marshal (with_defaults p) ≡ some payload
      → json.unmarshal payload ≡ some (with_defaults p)
      → (etcd.put (prefix <> (with_defaults p).id) payload s.etcd).1 ≡ true
      → HasUniqueKeys m
      → watch_events json (events s.etcd) start ≡ some m
      → let o = save_policy etcd json r w s in
        (writer_of o ≡ respond 200 (saved_reply "saved" (with_defaults p).id) w)
        × (m' : Dict Policy) × (watch_events json (events (etcd_of o)) start ≡ some m')
        × ((q : Request) (g : S)
            → (control.get g).policies ≡ m'
            → Matches q.path q.method (or_anonymous q.context.client_tier) (with_defaults p)
            → IsAlone (with_defaults p) q (or_anonymous q.context.client_tier) m
            → ask_limiter limiter limits control metrics q g
              ≡ limiter.allow
                  (or_anonymous q.context.client_id)
                  p.limit
                  (seconds p.window_sec)
                  (limits.get g))
  unfolding ask_limiter with_defaults
  saved_policy_is_enforced events limiter limits control metrics r w s p payload start m reports
        reads complete connected prints again puts unique before =
      let d : Policy = with_defaults p in
      let e = saved_in_etcd r w s p payload reads complete connected prints puts in
      let store : E = (etcd.put (prefix <> d.id) payload s.etcd).0 in
      let state : etcd_of (save_policy etcd json r w s) ≡ store = ap etcd_of e in
      let grown : events (etcd_of (save_policy etcd json r w s))
          ≡ events s.etcd ++ Event.put (prefix <> d.id) payload ∷ [] =
        ap events state
        ∙ reports.put_reported (prefix <> d.id) payload s.etcd (policy_key-prefix d.id) puts in
      (
        ap writer_of e,
        insert d.id d m,
        ap (λ es. watch_events json es start) grown
            ∙ watched (prefix <> d.id) payload d (events s.etcd) start m again before,
        λ q g mirrors fits alone.
            ap
              (λ (policy : Policy).
                limiter.allow (or_anonymous q.context.client_id) policy.limit
                  (seconds policy.window_sec) (limits.get g))
              (policy_for-alone d q (control.get g) m unique fits alone mirrors),
      )
