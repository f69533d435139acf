-- ===== src/ControlPlane/Handler.antt =====
-- internal/controlplane/handler.go: the HTTP operations on policies.
pub mod Saving
pub mod Cached
pub mod Registry
pub mod Commands
mod Tests
use aizen_gate.Base.{
  String, Bool, ◌||◌, none, some, List, [], ◌∷◌, str_eq, is_some, ◌==◌, if◌then◌else◌,
}
use aizen_gate.Base.Int.{nonpos}
use aizen_gate.Base.Dict.{insert, erase}
use aizen_gate.Base.Text.{◌<>◌}
use aizen_gate.Policy.{Policy}
use aizen_gate.Http.{
  get_header, Writer, Chunk, object, policies, set_header, write_header, respond, Outcome, done,
  Handler, json_error,
}
use aizen_gate.ControlPlane.{Etcd, PolicyJson, prefix, get_policy, get_all_policies, Plane}

-- The test of "Basic Validation", true where the policy is refused.
unfoldable pub lacks_fields : Policy → Bool
lacks_fields p = str_eq p.id "" || str_eq p.path "" || nonpos p.limit || nonpos p.window_sec

abbrev pub or_star : String → String
or_star s = if str_eq s "" then "*" else s

unfoldable pub with_defaults : Policy → Policy
with_defaults p = record p { method = or_star p.method; tier = or_star p.tier }

abbrev pub saved_reply : String → String → Chunk
saved_reply status id = object (("status", status) ∷ ("id", id) ∷ [])

-- The values that decode, in the order of the fetched pairs.
unfoldable pub decode_all : PolicyJson → List (String × String) → List Policy
decode_all json [] = []
decode_all json ((_, value) ∷ kvs) =
    let rest = decode_all json kvs in
    elim (json.unmarshal value) [ none ↦ rest | some p ↦ p ∷ rest ]

module _ {E : Type 0} (etcd : Etcd E) (json : PolicyJson) where
  unfoldable pub list_policies : Handler (Plane E)
  unfolding get_all_policies decode_all respond
  list_policies r w s =
      if s.client.connected
      then elim (etcd.get_prefix prefix s.etcd) [
        | none ↦ done (respond 500 (json_error "failed_to_query_policies") w) s
        | some kvs ↦ done (respond 200 (policies (decode_all json kvs)) w) s
      ]
      else done (respond 200 (policies (get_all_policies s.client)) w) s

  -- The part of `savePolicy` that writes the policy to etcd.
  unfoldable pub put_policy : Policy → Writer → Plane E → Outcome (Plane E)
  unfolding respond
  put_policy p w s = elim (json.marshal p) [
    | none ↦ done (respond 500 (json_error "failed_to_serialize_policy") w) s
    | some payload ↦
        let (etcd', ok) = etcd.put (prefix <> p.id) payload s.etcd in
        let s' = record s { etcd = etcd' } in
        if ok
        then done (respond 200 (saved_reply "saved" p.id) w) s'
        else done (respond 500 (json_error "failed_to_write_policy") w) s'
  ]

  -- `savePolicy` from the defaults on: into the cache if there is no client, else into etcd.
  unfoldable pub store_policy : Policy → Writer → Plane E → Outcome (Plane E)
  unfolding put_policy respond
  store_policy p w s =
      if s.client.connected
      then put_policy p w s
      else done (respond 200 (saved_reply "saved" p.id) w)
          (record s { client = record s.client { policies = insert p.id p s.client.policies } })

  unfoldable pub save_policy : Handler (Plane E)
  unfolding lacks_fields with_defaults store_policy respond
  save_policy r w s = elim (json.decode r.body) [
    | none ↦ done (respond 400 (json_error "invalid_policy_payload") w) s
    | some p ↦
        if lacks_fields p
        then done (respond 400 (json_error "missing_required_fields") w) s
        else store_policy (with_defaults p) w s
  ]

  -- `deletePolicy` without a client
  unfoldable pub delete_cached : String → Writer → Plane E → Outcome (Plane E)
  unfolding get_policy respond
  delete_cached id w s =
      if is_some (get_policy id s.client)
      then done (respond 200 (saved_reply "deleted" id) w)
          (record s { client = record s.client { policies = erase id s.client.policies } })
      else done (respond 404 (json_error "policy_not_found") w) s

  -- `deletePolicy` with a client
  unfoldable pub delete_stored : String → Writer → Plane E → Outcome (Plane E)
  unfolding respond
  delete_stored id w s =
      let (etcd', deleted) = etcd.delete (prefix <> id) s.etcd in
      let s' = record s { etcd = etcd' } in
      elim deleted [
        | none ↦ done (respond 500 (json_error "failed_to_delete_policy") w) s'
        | some n ↦
            if n == 0
            then done (respond 404 (json_error "policy_not_found") w) s'
            else done (respond 200 (saved_reply "deleted" id) w) s'
      ]

  unfoldable pub delete_policy : Handler (Plane E)
  unfolding delete_cached delete_stored respond
  delete_policy r w s =
      let id = get_header "id" r.query in
      if str_eq id ""
      then done (respond 400 (json_error "missing_policy_id") w) s
      else if s.client.connected
      then delete_stored id w s
      else delete_cached id w s

  unfoldable pub serve_http : Handler (Plane E)
  serve_http r w s =
      let w = set_header "Content-Type" "application/json" w in
      if str_eq r.method "GET"
      then list_policies r w s
      else if str_eq r.method "POST"
      then save_policy r w s
      else if str_eq r.method "DELETE"
      then delete_policy r w s
      else if str_eq r.method "OPTIONS"
      then done (write_header 200 w) s
      else done (respond 405 (json_error "method_not_allowed") w) s
