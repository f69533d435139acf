-- ===== src/Ai/Translator.antt =====
-- internal/ai/translator.go: a prompt is translated to a policy, which is stored.
pub mod Valid
use aizen_gate.Base.{String, ◌||◌, Option, none, some, [], ◌∷◌, str_eq, if◌then◌else◌}
use aizen_gate.Base.Dict.{insert}
use aizen_gate.Base.Text.{◌<>◌}
use aizen_gate.Policy.{Policy}
use aizen_gate.Http.{Writer, object, saved, set_header, respond, Outcome, done, Handler, json_error}
use aizen_gate.ControlPlane.{Etcd, PolicyJson, prefix, Plane}
use aizen_gate.ControlPlane.Handler.{lacks_fields, with_defaults}
use aizen_gate.Ai.{clean_json}

-- The error texts that the handler passes on, of a failed completion and of a failed decoding.
pub record Messages : Type 0 where
  pub completion : String
  pub decoding : String

-- The answer of the branch that saved.
abbrev saved_answer : Policy → Writer → Writer
saved_answer p w = respond 200 (saved "saved" p) w

-- The prompt of a body that decodes and has one.
abbrev pub prompt_of : (String → Option String) → String → Option String
prompt_of read_prompt body = elim (read_prompt body) [
  | none ↦ none
  | some prompt ↦ if str_eq prompt "" then none else some prompt
]

module _ {E : Type 0} (etcd : Etcd E) (json : PolicyJson) (read_prompt : String → Option String)
    (complete : String → Option String) (messages : Messages) where
  -- The policy is stored, in the cache if there is no client.
  unfoldable pub keep_policy : Policy → Writer → Plane E → Outcome (Plane E)
  keep_policy p w s = elim (json.marshal p) [
    | none ↦ done (respond 500 (json_error "serialization_failed") w) s
    | some payload ↦
        if s.client.connected
        then (let (etcd', ok) = etcd.put (prefix <> p.id) payload s.etcd in
            let s' = record s { etcd = etcd' } in
            if ok
            then done (saved_answer p w) s'
            else done (respond 500 (json_error "etcd_write_failed") w) s')
        else done (saved_answer p w)
            (record s { client = record s.client { policies = insert p.id p s.client.policies } })
  ]

  -- The answer of the model is read and checked.
  unfoldable pub accept_answer : String → Writer → Plane E → Outcome (Plane E)
  accept_answer answer w s = elim (json.unmarshal (clean_json answer)) [
    | none ↦
        done
          (respond 500
            (object (("error", "invalid_model_output") ∷ ("details", messages.decoding) ∷ [])) w)
          s
    | some p ↦
        if lacks_fields p
        then done
            (respond 500
              (object (
                ("error", "invalid_policy_structure")
                ∷ ("message", "model generated incomplete policy keys")
                ∷ []))
              w)
            s
        else keep_policy (with_defaults p) w s
  ]

  -- The branch with a prompt: the model is asked.
  unfoldable pub translate : String → Writer → Plane E → Outcome (Plane E)
  translate prompt w s = elim (complete prompt) [
    | none ↦
        done
          (respond 500
            (object (("error", "translation_failed") ∷ ("message", messages.completion) ∷ [])) w)
          s
    | some answer ↦ accept_answer answer w s
  ]

  -- `ServeHTTP`
  unfoldable pub serve_http : Handler (Plane E)
  serve_http r w s =
      let w' = set_header "Content-Type" "application/json" w in
      if str_eq r.method "POST"
      then elim (prompt_of read_prompt r.body) [
        | none ↦ done (respond 400 (json_error "invalid_prompt_payload") w') s
        | some prompt ↦ translate prompt w' s
      ]
      else done (respond 405 (json_error "method_not_allowed") w') s
