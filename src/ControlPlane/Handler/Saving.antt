-- ===== src/ControlPlane/Handler/Saving.antt =====
-- Which policies `savePolicy` of internal/controlplane/handler.go accepts, and what it stores.
use aizen_gate.Base.{
  false, zero, suc, ◌<◌, ◌≡◌, ◌≢◌, ◌↔◌, String, true, false, none, some, arith, str_eq, eq_iff, inl,
  inr, Option-cases, Bool-cases, if◌then◌else◌,
}
use aizen_gate.Base.Int.{ℤ, pos, negsuc, nonpos}
use aizen_gate.Base.Dict.{lookup-insert}
use aizen_gate.Base.Text.{◌<>◌}
use aizen_gate.Policy.{Policy}
use aizen_gate.Http.{Request, Writer, state_of, status_of}
use aizen_gate.ControlPlane.{Etcd, PolicyJson, get_policy, prefix, Plane}
use aizen_gate.ControlPlane.Handler.{lacks_fields, with_defaults, store_policy, save_policy}

abbrev pub IsPositive : ℤ → Type 0
IsPositive (pos n) = 0 < n
IsPositive (negsuc n) = ⊥

-- The id and the path are there, and the two numbers are positive.
pub record IsComplete (p : Policy) : Type 0 where
  pub has_id : p.id ≢ ""
  pub has_path : p.path ≢ ""
  pub has_limit : IsPositive p.limit
  pub has_window : IsPositive p.window_sec

nonpos-IsPositive : (z : ℤ) → (nonpos z ≡ false) ↔ IsPositive z
nonpos-IsPositive (pos zero) = ground arith
nonpos-IsPositive (pos (suc n)) = ground arith
nonpos-IsPositive (negsuc n) = ground arith

pub lacks_fields_iff : (p : Policy) → (lacks_fields p ≡ false) ↔ IsComplete p
unfolding lacks_fields
lacks_fields_iff p = ground (
  arith,
  eq_iff p.id "",
  eq_iff p.path "",
  nonpos-IsPositive p.limit,
  nonpos-IsPositive p.window_sec,
)

module _ {E : Type 0} (etcd : Etcd E) (json : PolicyJson) where
  -- Behind the validation the answer is never 400.
  store_policy-ne-400 :
      (p : Policy) (w : Writer) (s : Plane E)
      → w.status ≡ none
      → status_of (store_policy etcd json p w s) ≢ some 400
  unfolding store_policy
  store_policy-ne-400 p w s fresh = ground arith

  save_policy_refuses :
      (r : Request) (w : Writer) (s : Plane E)
      → w.status ≡ none
      → ((p : Policy) → json.decode r.body ≡ some p → ¬ IsComplete p)
      → (status_of (save_policy etcd json r w s) ≡ some 400)
        × (state_of (save_policy etcd json r w s) ≡ s)
  unfolding save_policy
  save_policy_refuses r w s fresh bad = elim (Option-cases (json.decode r.body)) [
    | inl missing ↦ ground arith
    | inr (p, reads) ↦ elim (Bool-cases (lacks_fields p)) [
      | inl refused ↦ ground arith
      | inr complete ↦ absurd (bad p reads ((lacks_fields_iff p).0 complete))
    ]
  ]

  pub save_policy-eq-store_policy :
      (r : Request) (w : Writer) (s : Plane E) (p : Policy)
      → json.decode r.body ≡ some p
      → IsComplete p
      → save_policy etcd json r w s ≡ store_policy etcd json (with_defaults p) w s
  unfolding save_policy
  save_policy-eq-store_policy r w s p reads complete =
      ground (arith, (lacks_fields_iff p).1 complete)

  -- On a response that has not begun, `savePolicy` answers 400 exactly if the body decodes to no
  -- policy that has an id, a path, a positive limit and a positive window, and then it leaves the
  -- cache and etcd as they were.
  pub save_policy-400_iff :
      (r : Request) (w : Writer) (s : Plane E)
      → w.status ≡ none
      → (status_of (save_policy etcd json r w s) ≡ some 400) ↔ (
          ((p : Policy) → json.decode r.body ≡ some p → ¬ IsComplete p)
          × (state_of (save_policy etcd json r w s) ≡ s))
  save_policy-400_iff r w s fresh =
      let only : status_of (save_policy etcd json r w s) ≡ some 400
          → (p : Policy) → json.decode r.body ≡ some p
          → ¬ IsComplete p =
        λ e p reads complete.
          store_policy-ne-400 (with_defaults p) w s fresh
            (rw (save_policy-eq-store_policy r w s p reads complete) at e) in
      (
        λ e. (only e, (save_policy_refuses r w s fresh (only e)).1),
        λ h. (save_policy_refuses r w s fresh h.0).0,
      )

  -- A complete policy is stored with "*" for an absent method or tier: without a client it goes
  -- into the cache under its id, every other id keeps its policy, etcd is left alone, and the
  -- answer is 200.
  pub save_policy_cached :
      (r : Request) (w : Writer) (s : Plane E) (p : Policy) (k : String)
      → w.status ≡ none
      → s.client.connected ≡ false
      → json.decode r.body ≡ some p
      → IsComplete p
      → let s' = state_of (save_policy etcd json r w s) in
        (status_of (save_policy etcd json r w s) ≡ some 200)
        × (get_policy k s'.client
            ≡ (if str_eq p.id k then some (with_defaults p) else get_policy k s.client))
        × (s'.etcd ≡ s.etcd)
  unfolding store_policy get_policy with_defaults
  save_policy_cached r w s p k fresh offline reads complete =
      rw (save_policy-eq-store_policy r w s p reads complete)
        (ground (arith, lookup-insert p.id k (with_defaults p) s.client.policies))

  -- With a client, a complete policy is marshalled and put under the prefix and its id, and the
  -- answer is 200 exactly if both succeed; the cache is left alone, since the watch loop brings the
  -- policy in.
  pub save_policy_stored :
      (r : Request) (w : Writer) (s : Plane E) (p : Policy) (payload : String)
      → w.status ≡ none
      → s.client.connected ≡ true
      → json.decode r.body ≡ some p
      → IsComplete p
      → json.marshal (with_defaults p) ≡ some payload
      → let written = etcd.put (prefix <> p.id) payload s.etcd in
        (state_of (save_policy etcd json r w s) ≡ record s { etcd = written.0 })
        × ((status_of (save_policy etcd json r w s) ≡ some 200) ↔ (written.1 ≡ true))
  unfolding store_policy with_defaults
  save_policy_stored r w s p payload fresh online reads complete written =
      rw (save_policy-eq-store_policy r w s p reads complete) (ground arith)
