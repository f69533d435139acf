-- ===== src/ControlPlane/Handler/Tests.antt =====
-- Requests to the policies endpoint of internal/controlplane/handler.go, without an etcd client.
use aizen_gate.Base.{◌≡◌, refl, sym, ◌∙◌, String, some, List, [], ◌∷◌, arith, eq_iff}
use aizen_gate.Base.Dict.{lookup, insert, erase}
use aizen_gate.Http.{Request, Writer}
use aizen_gate.ControlPlane.{Plane}
use aizen_gate.ControlPlane.Handler.{with_defaults, lacks_fields}
use aizen_gate.ControlPlane.Handler.Registry.{
  find_policy, view_of, command_of, perform, perform_all, registry, serve_requests,
  registry-serve_requests,
}
use aizen_gate.ControlPlane.Handler.Commands.{Touches, requests_comm}
use aizen_gate.Fixtures.{sample, sample_json, steady, offline, ask, fresh}

abbrev plane : Plane (List (String × String))
plane = record { client = offline; etcd = [] }

abbrev save_a : Request
save_a = record (ask "POST" "/api/v1/policies") { body = "A" }

abbrev delete_b : Request
delete_b = record (ask "DELETE" "/api/v1/policies") { query = ("id", "b") ∷ [] }

abbrev both : List (Request × Writer)
both = (save_a, fresh) ∷ (delete_b, fresh) ∷ []

registry-serve_requests_example :
    registry steady sample_json (serve_requests steady sample_json both plane)
    ≡ perform_all steady sample_json both (view_of [])
registry-serve_requests_example = registry-serve_requests steady sample_json both plane refl

found :
    find_policy "a" (perform_all steady sample_json both (view_of [])) ≡ some (with_defaults sample)
unfolding find_policy command_of lookup perform lacks_fields erase insert with_defaults
found = refl

apart :
    (id : String)
    → Touches (command_of sample_json save_a) id
    → ¬ Touches (command_of sample_json delete_b) id
unfolding command_of lookup lacks_fields with_defaults
apart id a b = ground (arith, a ∙ sym b, eq_iff "a" "b")

requests_comm_example :
    registry steady sample_json
      (serve_requests steady sample_json ((save_a, fresh) ∷ (delete_b, fresh) ∷ []) plane)
    ≡ registry steady sample_json
        (serve_requests steady sample_json ((delete_b, fresh) ∷ (save_a, fresh) ∷ []) plane)
requests_comm_example =
    requests_comm steady sample_json save_a delete_b fresh fresh plane refl apart
