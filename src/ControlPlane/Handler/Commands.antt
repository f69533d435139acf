-- ===== src/ControlPlane/Handler/Commands.antt =====
-- Requests of internal/controlplane/handler.go on different policies, in either order.
use mathlib.Core.Quot
use mathlib.Core.Quot.{Quot-set}
use aizen_gate.Base.{
  ◌≡◌, refl, sym, ap, ◌∙◌, String, false, Option, none, some, [], ◌∷◌, arith, str_eq, eq_iff,
  if◌then◌else◌,
}
use aizen_gate.Base.Dict.{lookup-insert, lookup-erase}
use aizen_gate.Policy.{Policy}
use aizen_gate.Http.{Request, Writer}
use aizen_gate.ControlPlane.{Etcd, PolicyJson, Plane}
use aizen_gate.ControlPlane.Handler.Registry.{
  Registry, find_policy, store, remove, Command, keeps, stores, removes, command_of, perform,
  registry, serve_requests, registry-serve_requests, found-set,
}

-- The ids that a command may change.
abbrev pub Touches : Command → String → Type 0
Touches keeps id = ⊥
Touches (stores p) id = p.id ≡ id
Touches (removes gone) id = gone ≡ id

abbrev after : Command → String → Option Policy → Option Policy
after keeps id found = found
after (stores p) id found = if str_eq p.id id then some p else found
after (removes gone) id found = if str_eq gone id then none else found

-- What is found after a command.
find_policy-perform :
    (c : Command) (id : String) (v : Registry)
    → find_policy id (perform c v) ≡ after c id (find_policy id v)
unfolding perform find_policy store remove
find_policy-perform keeps id = λ v. refl
find_policy-perform (stores p) id = Quot.ind (λ v. found-set _ _) (λ m. lookup-insert p.id id p m)
find_policy-perform (removes gone) id = Quot.ind (λ v. found-set _ _) (λ m. lookup-erase gone id m)

-- Registries in which the same is found are equal.
find_policy-ext : (v w : Registry) → ((id : String) → find_policy id v ≡ find_policy id w) → v ≡ w
unfolding find_policy
find_policy-ext =
    Quot.ind (λ v. hlevel Quot-set)
      (λ m. Quot.ind (λ w. hlevel Quot-set) (λ n same. Quot.sound same))

after_comm :
    (c d : Command) (id : String) (found : Option Policy)
    → ((k : String) → Touches c k → ¬ Touches d k)
    → after c id (after d id found) ≡ after d id (after c id found)
after_comm keeps d id found apart = refl
after_comm (stores p) keeps id found apart = refl
after_comm (removes gone) keeps id found apart = refl
after_comm (stores p) (stores q) id found apart =
    ground (arith, eq_iff p.id id, eq_iff q.id id, apart id)
after_comm (stores p) (removes gone) id found apart =
    ground (arith, eq_iff p.id id, eq_iff gone id, apart id)
after_comm (removes gone) (stores q) id found apart =
    ground (arith, eq_iff gone id, eq_iff q.id id, apart id)
after_comm (removes gone) (removes other) id found apart =
    ground (arith, eq_iff gone id, eq_iff other id, apart id)

perform_comm :
    (c d : Command) (v : Registry)
    → ((k : String) → Touches c k → ¬ Touches d k)
    → perform c (perform d v) ≡ perform d (perform c v)
perform_comm c d v apart = find_policy-ext _ _ (λ id.
    find_policy-perform c id (perform d v)
    ∙ ap (after c id) (find_policy-perform d id v)
    ∙ after_comm c d id (find_policy id v) apart
    ∙ sym (find_policy-perform d id (perform c v) ∙ ap (after d id) (find_policy-perform c id v)))

-- Without a client, two requests of the endpoint that do not touch the same id, leave the same
-- policies under the same ids in either order, whatever they are.
pub requests_comm :
    {E : Type 0} (etcd : Etcd E) (json : PolicyJson) (r r' : Request) (w w' : Writer) (s : Plane E)
    → s.client.connected ≡ false
    → ((id : String) → Touches (command_of json r) id → ¬ Touches (command_of json r') id)
    → registry etcd json (serve_requests etcd json ((r, w) ∷ (r', w') ∷ []) s)
      ≡ registry etcd json (serve_requests etcd json ((r', w') ∷ (r, w) ∷ []) s)
requests_comm etcd json r r' w w' s offline apart =
    registry-serve_requests etcd json ((r, w) ∷ (r', w') ∷ []) s offline
    ∙ sym (perform_comm (command_of json r) (command_of json r') (registry etcd json s) apart)
    ∙ sym (registry-serve_requests etcd json ((r', w') ∷ (r, w) ∷ []) s offline)
