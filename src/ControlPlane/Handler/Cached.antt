-- ===== src/ControlPlane/Handler/Cached.antt =====
-- The cache under the operations of internal/controlplane/handler.go, when there is no etcd client.
use aizen_gate.Base.{
  ◌≡◌, ◌≢◌, refl, String, Bool, true, false, none, some, arith, str_eq, eq_iff, eq_refl, is_some,
  inl, inr, Option-cases, Bool-cases, if◌then◌else◌,
}
use aizen_gate.Base.Dict.{
  Dict, lookup, insert, erase, lookup-insert, lookup-erase, HasUniqueKeys, HasUniqueKeys-insert,
  HasUniqueKeys-erase,
}
use aizen_gate.Policy.{Policy}
use aizen_gate.Http.{Request, get_header, set_header, Writer, state_of, status_of}
use aizen_gate.ControlPlane.{Etcd, PolicyJson, get_policy, Plane}
use aizen_gate.ControlPlane.Handler.{
  or_star, with_defaults, lacks_fields, store_policy, save_policy, list_policies, delete_policy,
  serve_http,
}
use aizen_gate.ControlPlane.Handler.Saving.{
  IsComplete, lacks_fields_iff, save_policy-eq-store_policy,
}

-- A policy that the cache may hold under `k`.
pub record IsUsable (k : String) (p : Policy) : Type 0 where
  pub under_id : p.id ≡ k
  pub complete : IsComplete p
  pub has_method : p.method ≢ ""
  pub has_tier : p.tier ≢ ""

pub record IsValid (m : Dict Policy) : Type 0 where
  pub unique : HasUniqueKeys m
  pub usable : (k : String) (p : Policy) → lookup k m ≡ some p → IsUsable k p

or_star-ne : (s : String) → or_star s ≢ ""
or_star-ne s = elim (Bool-cases (str_eq s "")) [
  | inl empty ↦ rw empty (ground (arith, eq_iff "*" ""))
  | inr given ↦ rw given (λ (e : s ≡ ""). cc ((eq_iff s "").1 e))
]

pub with_defaults-IsUsable : (p : Policy) → IsComplete p → IsUsable p.id (with_defaults p)
unfolding with_defaults
with_defaults-IsUsable p complete = record {
  under_id = refl;
  complete = record {
    has_id = complete.has_id;
    has_path = complete.has_path;
    has_limit = complete.has_limit;
    has_window = complete.has_window;
  };
  has_method = or_star-ne p.method;
  has_tier = or_star-ne p.tier;
}

pub insert-IsValid :
    (id : String) (p : Policy) (m : Dict Policy)
    → IsUsable id p
    → IsValid m
    → IsValid (insert id p m)
insert-IsValid id p m u v = record {
  unique = HasUniqueKeys-insert id p m v.unique;
  usable = λ k q e. elim (Bool-cases (str_eq id k)) [
    | inl same ↦
        let at_k : id ≡ k = (eq_iff id k).0 same in
        let here : p ≡ q = ground (arith, lookup-insert id k p m) in rw (← at_k, ← here) u
    | inr other ↦ v.usable k q (ground (arith, lookup-insert id k p m))
  ];
}

erase-IsValid : (id : String) (m : Dict Policy) → IsValid m → IsValid (erase id m)
erase-IsValid id m v = record {
  unique = HasUniqueKeys-erase id m v.unique;
  usable = λ k q e. v.usable k q (ground (arith, lookup-erase id k m));
}

pub chosen-IsValid :
    (b : Bool) {m n : Dict Policy} → IsValid m → IsValid n → IsValid (if b then m else n)
chosen-IsValid true v v' = v
chosen-IsValid false v v' = v'

module _ {E : Type 0} (etcd : Etcd E) (json : PolicyJson) where
  abbrev pub cache_of : Plane E → Dict Policy
  cache_of s = s.client.policies

  state-list_policies :
      (r : Request) (w : Writer) (s : Plane E) → state_of (list_policies etcd json r w s) ≡ s
  unfolding list_policies
  state-list_policies r w s = ground arith

  pub cache-store_policy :
      (p : Policy) (w : Writer) (s : Plane E)
      → cache_of (state_of (store_policy etcd json p w s))
        ≡ (if s.client.connected then cache_of s else insert p.id p (cache_of s))
  unfolding store_policy
  cache-store_policy p w s = ground arith

  save_policy-IsValid :
      (r : Request) (w : Writer) (s : Plane E)
      → IsValid (cache_of s)
      → IsValid (cache_of (state_of (save_policy etcd json r w s)))
  unfolding save_policy
  save_policy-IsValid r w s v = elim (Option-cases (json.decode r.body)) [
    | inl bad ↦ rw (bad, save_policy) v
    | inr (p, reads) ↦ elim (Bool-cases (lacks_fields p)) [
      | inl refused ↦ rw (reads, save_policy, refused) v
      | inr complete ↦
          let u = with_defaults-IsUsable p ((lacks_fields_iff p).0 complete) in
          rw (reads, save_policy, complete, cache-store_policy)
            (chosen-IsValid s.client.connected v (insert-IsValid _ _ _ u v))
    ]
  ]

  pub cache-delete_policy :
      (r : Request) (w : Writer) (s : Plane E)
      → let id = get_header "id" r.query in
        cache_of (state_of (delete_policy etcd json r w s)) ≡ (
          if str_eq id ""
          then cache_of s
          else if s.client.connected
          then cache_of s
          else if is_some (lookup id (cache_of s))
          then erase id (cache_of s)
          else cache_of s)
  unfolding delete_policy
  cache-delete_policy r w s = ground arith

  delete_policy-IsValid :
      (r : Request) (w : Writer) (s : Plane E)
      → IsValid (cache_of s)
      → IsValid (cache_of (state_of (delete_policy etcd json r w s)))
  delete_policy-IsValid r w s v = rw (cache-delete_policy r w s) (
      chosen-IsValid (str_eq (get_header "id" r.query) "") v (
        chosen-IsValid s.client.connected v (
          chosen-IsValid (is_some (lookup (get_header "id" r.query) (cache_of s)))
            (erase-IsValid (get_header "id" r.query) _ v) v)))

  pub cache-serve_http :
      (r : Request) (w : Writer) (s : Plane E)
      → let w' = set_header "Content-Type" "application/json" w in
        cache_of (state_of (serve_http etcd json r w s)) ≡ (
          if str_eq r.method "GET"
          then cache_of s
          else if str_eq r.method "POST"
          then cache_of (state_of (save_policy etcd json r w' s))
          else if str_eq r.method "DELETE"
          then cache_of (state_of (delete_policy etcd json r w' s))
          else cache_of s)
  unfolding serve_http
  cache-serve_http r w s =
      ground (arith, state-list_policies r (set_header "Content-Type" "application/json" w) s)

  -- Every request to the policies endpoint keeps the cache valid: each id once, and under it a
  -- policy of that id with a path, a positive limit and window, a method and a tier.
  pub serve_http-IsValid :
      (r : Request) (w : Writer) (s : Plane E)
      → IsValid s.client.policies
      → IsValid (state_of (serve_http etcd json r w s)).client.policies
  serve_http-IsValid r w s v =
      let w' = set_header "Content-Type" "application/json" w in
      rw (cache-serve_http r w s) (
        chosen-IsValid (str_eq r.method "GET") v (
          chosen-IsValid (str_eq r.method "POST") (save_policy-IsValid r w' s v)
            (chosen-IsValid (str_eq r.method "DELETE") (delete_policy-IsValid r w' s v) v)))

  -- Without a client, deleting the id of a policy that was just saved is answered by 200, and
  -- leaves every id with the policy it had before, where the saved id had none.
  pub delete-save :
      (r d : Request) (w : Writer) (s : Plane E) (p : Policy) (k : String)
      → w.status ≡ none
      → s.client.connected ≡ false
      → json.decode r.body ≡ some p
      → IsComplete p
      → get_header "id" d.query ≡ p.id
      → get_policy p.id s.client ≡ none
      → let saved = state_of (save_policy etcd json r w s) in
        let o = delete_policy etcd json d w saved in
        (status_of o ≡ some 200) × (get_policy k (state_of o).client ≡ get_policy k s.client)
  unfolding store_policy delete_policy get_policy with_defaults
  delete-save r d w s p k fresh offline reads complete asked absent =
      rw (save_policy-eq-store_policy etcd json r w s p reads complete) (
        ground (
          arith,
          eq_iff p.id "",
          complete.has_id,
          eq_iff p.id k,
          eq_refl p.id,
          lookup-insert p.id p.id (with_defaults p) s.client.policies,
          lookup-insert p.id k (with_defaults p) s.client.policies,
          lookup-erase p.id k (insert p.id (with_defaults p) s.client.policies),
        ))
