-- ===== src/ControlPlane/Handler/Registry.antt =====
-- What internal/controlplane/handler.go promises where there is no etcd client: a registry of
-- policies by their ids, which forgets the order in which `Range` visits the map.
use mathlib.Core.Quot
use mathlib.Core.Quot.{Quot, Quot-set}
use mathlib.Core.HLevel.{hedberg}
use native.Mathlib.Decide.{ℕ_discrete}
use aizen_gate.Base.{
  ◌≡◌, refl, ap, ◌∙◌, String, false, Option, none, some, List, [], ◌∷◌, arith, str_eq, eq_iff,
  is_some, inl, inr, Option-cases, Bool-cases, if◌then◌else◌,
}
use aizen_gate.Base.Dict.{Dict, lookup, insert, erase, lookup-insert, lookup-erase}
use aizen_gate.Policy.{Policy}
use aizen_gate.Http.{Request, get_header, set_header, Writer, state_of}
use aizen_gate.ControlPlane.{Etcd, PolicyJson, Plane}
use aizen_gate.ControlPlane.Handler.{
  with_defaults, lacks_fields, list_policies, put_policy, store_policy, save_policy, delete_cached,
  delete_stored, delete_policy, serve_http,
}
use aizen_gate.ControlPlane.Handler.Cached.{
  cache-store_policy, cache-delete_policy, cache-serve_http,
}

-- Two maps hold the same policies under the same ids.
abbrev pub SameEntries : Dict Policy → Dict Policy → Type 0
SameEntries m n = (id : String) → lookup id m ≡ lookup id n

abbrev pub Registry : Type 0
Registry = Quot SameEntries

String-discrete : Discrete String
String-discrete a b = elim (Bool-cases (str_eq a b)) [
  | inl same ↦ yes ((eq_iff a b).0 same)
  | inr other ↦ no (λ e. ground (arith, e, other, eq_iff a b))
]

Policy-set : IsSet Policy
Policy-set = hlevel (hedberg String-discrete, hedberg ℕ_discrete)

pub found-set : IsSet (Option Policy)
found-set = hlevel Policy-set

unfoldable pub find_policy : String → Registry → Option Policy
find_policy id = Quot.lift found-set (lookup id) (λ m n same. same id)

pub insert-SameEntries :
    (p : Policy) (m n : Dict Policy)
    → SameEntries m n
    → SameEntries (insert p.id p m) (insert p.id p n)
insert-SameEntries p m n same id =
    ground (arith, lookup-insert p.id id p m, lookup-insert p.id id p n, same id)

pub erase-SameEntries :
    (gone : String) (m n : Dict Policy)
    → SameEntries m n
    → SameEntries (erase gone m) (erase gone n)
erase-SameEntries gone m n same id =
    ground (arith, lookup-erase gone id m, lookup-erase gone id n, same id)

unfoldable pub store : Policy → Registry → Registry
store p =
    Quot.lift Quot-set (λ m. Quot.mk (insert p.id p m))
      (λ m n same. Quot.sound (insert-SameEntries p m n same))

unfoldable pub remove : String → Registry → Registry
remove id =
    Quot.lift Quot-set (λ m. Quot.mk (erase id m))
      (λ m n same. Quot.sound (erase-SameEntries id m n same))

-- What a request asks of the registry.
pub data Command : Type 0 where
  keeps : Command
  stores : Policy → Command
  removes : String → Command

-- A policy is stored with its defaults, and only if it has all its fields.
unfoldable pub stored_of : Option Policy → Command
stored_of none = keeps
stored_of (some p) = if lacks_fields p then keeps else stores (with_defaults p)

unfoldable pub command_of : PolicyJson → Request → Command
unfolding stored_of
command_of json r =
    if str_eq r.method "POST"
    then stored_of (json.decode r.body)
    else if str_eq r.method "DELETE"
    then (let id = get_header "id" r.query in if str_eq id "" then keeps else removes id)
    else keeps

unfoldable pub perform : Command → Registry → Registry
unfolding store remove
perform keeps v = v
perform (stores p) v = store p v
perform (removes id) v = remove id v

abbrev pub view_of : Dict Policy → Registry
view_of m = Quot.mk m

-- The same on a map: nothing is deleted under an id that is not there.
unfoldable apply : Command → Dict Policy → Dict Policy
apply keeps m = m
apply (stores p) m = insert p.id p m
apply (removes id) m = if is_some (lookup id m) then erase id m else m

perform-apply : (c : Command) (m : Dict Policy) → view_of (apply c m) ≡ perform c (view_of m)
unfolding apply perform
perform-apply keeps m = refl
perform-apply (stores p) m = refl
perform-apply (removes id) m = Quot.sound (λ k. ground (arith, lookup-erase id k m, eq_iff id k))

module _ {E : Type 0} (etcd : Etcd E) (json : PolicyJson) where
  -- What a client of the endpoint can know of the cache.
  abbrev pub registry : Plane E → Registry
  registry s = view_of s.client.policies

  -- Requests that come one after another, each with its own writer.
  unfoldable pub serve_requests : List (Request × Writer) → Plane E → Plane E
  serve_requests [] s = s
  serve_requests ((r, w) ∷ more) s = serve_requests more (state_of (serve_http etcd json r w s))

  abbrev pub perform_all : List (Request × Writer) → Registry → Registry
  perform_all [] v = v
  perform_all ((r, w) ∷ more) v = perform_all more (perform (command_of json r) v)

  cache-save_policy :
      (r : Request) (w : Writer) (s : Plane E)
      → s.client.connected ≡ false
      → (state_of (save_policy etcd json r w s)).client.policies
        ≡ apply (stored_of (json.decode r.body)) s.client.policies
  unfolding save_policy apply stored_of
  cache-save_policy r w s offline = elim (Option-cases (json.decode r.body)) [
    | inl bad ↦ rw (bad, save_policy) refl
    | inr (p, reads) ↦ elim (Bool-cases (lacks_fields p)) [
      | inl refused ↦ rw (reads, save_policy, refused) refl
      | inr complete ↦
          rw (reads, save_policy, complete)
            (cache-store_policy etcd json (with_defaults p) w s ∙ (rw offline refl))
    ]
  ]

  cache-serve_http_offline :
      (r : Request) (w : Writer) (s : Plane E)
      → s.client.connected ≡ false
      → (state_of (serve_http etcd json r w s)).client.policies
        ≡ apply (command_of json r) s.client.policies
  unfolding command_of apply
  cache-serve_http_offline r w s offline =
      let w' = set_header "Content-Type" "application/json" w in
      cache-serve_http etcd json r w s
      ∙ ground (
        arith,
        eq_iff r.method "GET",
        eq_iff r.method "POST",
        eq_iff r.method "DELETE",
        eq_iff "GET" "POST",
        eq_iff "GET" "DELETE",
        cache-save_policy r w' s offline,
        cache-delete_policy etcd json r w' s,
      )

  connected-serve_http :
      (r : Request) (w : Writer) (s : Plane E)
      → (state_of (serve_http etcd json r w s)).client.connected ≡ s.client.connected
  unfolding serve_http list_policies save_policy store_policy put_policy delete_policy delete_cached
      delete_stored
  connected-serve_http r w s = ground arith

  registry-serve_http :
      (r : Request) (w : Writer) (s : Plane E)
      → s.client.connected ≡ false
      → (registry (state_of (serve_http etcd json r w s))
          ≡ perform (command_of json r) (registry s))
        × ((state_of (serve_http etcd json r w s)).client.connected ≡ false)
  registry-serve_http r w s offline = (
    ap view_of (cache-serve_http_offline r w s offline)
        ∙ perform-apply (command_of json r) s.client.policies,
    connected-serve_http r w s ∙ offline,
  )

  -- Without a client, whatever requests come to the endpoint, one after another, the cache is, up
  -- to the order of its entries, what the registry becomes by their commands: a POST stores the
  -- policy that its body decodes to, with its defaults, if it has an id, a path, a positive limit
  -- and a positive window, a DELETE removes its id, and nothing else changes anything.
  pub registry-serve_requests :
      (requests : List (Request × Writer)) (s : Plane E)
      → s.client.connected ≡ false
      → registry (serve_requests requests s) ≡ perform_all requests (registry s)
  unfolding serve_requests
  registry-serve_requests [] s offline = refl
  registry-serve_requests ((r, w) ∷ more) s offline =
      let (same, still) = registry-serve_http r w s offline in
      registry-serve_requests more (state_of (serve_http etcd json r w s)) still
      ∙ ap (perform_all more) same
