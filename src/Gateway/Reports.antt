-- ===== src/Gateway/Reports.antt =====
-- What the watches of internal/controlplane/client.go and cmd/gateway/main.go rely on in etcd.
use aizen_gate.Base.{◌≡◌, String, Bool, true, List, [], ◌∷◌, ◌++◌}
use aizen_gate.ControlPlane.{Etcd, Event}

-- `events` are the events that a watch of some keys has reported: a write to one of these keys that
-- succeeds is reported once, behind those before it.
pub record Reports {E : Type 0} (etcd : Etcd E) (watches : String → Bool) (events : E → List Event)
    : Type 0 where
  pub put_reported :
      (key value : String) (store : E)
      → watches key ≡ true
      → (etcd.put key value store).1 ≡ true
      → events (etcd.put key value store).0 ≡ events store ++ Event.put key value ∷ []
