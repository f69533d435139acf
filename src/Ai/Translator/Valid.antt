-- ===== src/Ai/Translator/Valid.antt =====
-- What internal/ai/translator.go can do to the policies in force.
use aizen_gate.Base.{
  ◌≡◌, String, Option, arith, str_eq, is_some, inl, inr, Option-cases, Bool-cases, if◌then◌else◌,
}
use aizen_gate.Base.Dict.{Dict, insert}
use aizen_gate.Policy.{Policy}
use aizen_gate.Http.{Request, Writer, set_header, state_of}
use aizen_gate.ControlPlane.{Etcd, PolicyJson, Plane}
use aizen_gate.ControlPlane.Handler.{lacks_fields, with_defaults}
use aizen_gate.ControlPlane.Handler.Saving.{lacks_fields_iff}
use aizen_gate.ControlPlane.Handler.Cached.{
  IsValid, with_defaults-IsUsable, insert-IsValid, chosen-IsValid,
}
use aizen_gate.Ai.{clean_json}
use aizen_gate.Ai.Translator.{
  Messages, keep_policy, accept_answer, prompt_of, translate, serve_http,
}

module _ {E : Type 0} (etcd : Etcd E) (json : PolicyJson) (read_prompt : String → Option String)
    (complete : String → Option String) (messages : Messages) where
  abbrev cache_of : Plane E → Dict Policy
  cache_of s = s.client.policies

  cache-keep_policy :
      (p : Policy) (w : Writer) (s : Plane E)
      → cache_of (state_of (keep_policy etcd json read_prompt complete messages p w s)) ≡ (
          if is_some (json.marshal p)
          then (if s.client.connected then cache_of s else insert p.id p (cache_of s))
          else cache_of s)
  unfolding keep_policy
  cache-keep_policy p w s = ground arith

  accept_answer-IsValid :
      (answer : String) (w : Writer) (s : Plane E)
      → IsValid (cache_of s)
      → IsValid
          (cache_of (state_of (accept_answer etcd json read_prompt complete messages answer w s)))
  unfolding accept_answer with_defaults
  accept_answer-IsValid answer w s v = elim (Option-cases (json.unmarshal (clean_json answer))) [
    | inl bad ↦ rw (bad, accept_answer) v
    | inr (p, reads) ↦ elim (Bool-cases (lacks_fields p)) [
      | inl refused ↦ rw (reads, accept_answer, refused) v
      | inr fine ↦
          let u = with_defaults-IsUsable p ((lacks_fields_iff p).0 fine) in
          rw (reads, accept_answer, fine, cache-keep_policy)
            (chosen-IsValid (is_some (json.marshal (with_defaults p)))
              (chosen-IsValid s.client.connected v (insert-IsValid _ _ _ u v)) v)
    ]
  ]

  translated-IsValid :
      (prompt : String) (w : Writer) (s : Plane E)
      → IsValid (cache_of s)
      → IsValid (cache_of (state_of (translate etcd json read_prompt complete messages prompt w s)))
  unfolding translate
  translated-IsValid prompt w s v = elim (Option-cases (complete prompt)) [
    | inl failed ↦ rw (failed, translate) v
    | inr (answer, came) ↦ rw (came, translate) (accept_answer-IsValid answer w s v)
  ]

  -- Whatever the prompt and whatever the model answers, a valid cache stays valid: each id once,
  -- and under it a policy of that id with a path, a positive limit and window, a method and a tier.
  pub translate-IsValid :
      (r : Request) (w : Writer) (s : Plane E)
      → IsValid s.client.policies
      → IsValid
          (state_of (serve_http etcd json read_prompt complete messages r w s)).client.policies
  unfolding serve_http
  translate-IsValid r w s v = elim (Bool-cases (str_eq r.method "POST")) [
    | inl post ↦ elim (Option-cases (prompt_of read_prompt r.body)) [
      | inl missing ↦ rw (post, missing, serve_http) v
      | inr (prompt, given) ↦
          rw (post, given, serve_http)
            (translated-IsValid prompt (set_header "Content-Type" "application/json" w) s v)
    ]
    | inr other ↦ rw (other, serve_http) v
  ]
