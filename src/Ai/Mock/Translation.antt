-- ===== src/Ai/Mock/Translation.antt =====
-- What the translator of internal/ai does with the answers of `mockCompletion`.
use aizen_gate.Base.{◌≡◌, ◌≢◌, refl, ap, ◌∙◌, String, true, false, Option, some, arith, eq_iff}
use aizen_gate.Base.Text.{contains}
use aizen_gate.ControlPlane.{Etcd, PolicyJson, Plane, add_policy_to_cache}
use aizen_gate.Ai.{mock_completion, mock_policy, clean_json}
use aizen_gate.Ai.Queries.{QueryLibrary, BrainConfig, Sends}
use aizen_gate.Ai.Agents.{translator_system_prompt, serve_translation}
use aizen_gate.Ai.Translator.{Messages, serve_http, translate, accept_answer, keep_policy}
use aizen_gate.Http.{Request, Writer, respond, saved, set_header, Outcome, done}
use aizen_gate.ControlPlane.Handler.{lacks_fields, with_defaults}
use aizen_gate.Ai.Mock.{mock_saved, clean-policy, run_completion-mock}

-- A prompt that speaks of a limit is not empty, and gets the policy.
mock_completion-limit :
    (prompt : String) → contains prompt "limit" ≡ true → mock_completion prompt ≡ mock_policy
unfolding mock_completion
mock_completion-limit prompt limits = ground (arith, limits)

prompt-ne-nil : (prompt : String) → contains prompt "limit" ≡ true → prompt ≢ ""
unfolding contains
prompt-ne-nil prompt limits empty =
    let none_there = rw empty at limits in ground (arith, none_there)

module _ {E : Type 0} (etcd : Etcd E) (json : PolicyJson) (read_prompt : String → Option String)
    (complete : String → Option String) (messages : Messages) (payload : String)
    (decodes : json.unmarshal mock_policy ≡ some mock_saved)
    (encodes : json.marshal mock_saved ≡ some payload) where
  abbrev stored : Writer → Plane E → Outcome (Plane E)
  stored v s =
      done (respond 200 (saved "saved" mock_saved) v)
        (record s { client = add_policy_to_cache mock_saved s.client })

  accepts_mock :
      (v : Writer) (s : Plane E)
      → s.client.connected ≡ false
      → accept_answer etcd json read_prompt complete messages mock_policy v s ≡ stored v s
  unfolding accept_answer keep_policy lacks_fields with_defaults add_policy_to_cache
  accepts_mock v s offline =
      let reads : json.unmarshal (clean_json mock_policy) ≡ some mock_saved =
        rw clean-policy decodes in
      rw (reads, accept_answer) (rw (encodes, keep_policy) (rw offline refl))

  translates_mock :
      (r : Request) (v : Writer) (s : Plane E) (prompt : String)
      → r.method ≡ "POST"
      → read_prompt r.body ≡ some prompt
      → prompt ≢ ""
      → complete prompt ≡ some mock_policy
      → s.client.connected ≡ false
      → serve_http etcd json read_prompt complete messages r v s
        ≡ stored (set_header "Content-Type" "application/json" v) s
  unfolding serve_http translate
  translates_mock r v s prompt posts asks given answers offline = ground (
    arith,
    eq_iff r.method "POST",
    eq_iff prompt "",
    answers,
    accepts_mock (set_header "Content-Type" "application/json" v) s offline,
  )

module _ (lib : QueryLibrary) (cfg : BrainConfig) {W : Type 0} (sends : Sends W) {E : Type 0}
    (etcd : Etcd E) (no_deepseek : cfg.keys.deepseek ≡ "") (no_gemini : cfg.keys.gemini ≡ "") where
  -- Without a key of a model and without an etcd client, whatever a prompt that speaks of a limit
  -- asks for, the translator answers 200 and stores one and the same policy: 100 requests a minute
  -- on "/anything" for the tier "basic".
  pub serve_translation-mock :
      (json : PolicyJson) (read_prompt : String → Option String) (messages : Messages) (w : W)
      (r : Request) (v : Writer) (s : Plane E) (prompt payload : String)
      → r.method ≡ "POST"
      → read_prompt r.body ≡ some prompt
      → contains prompt "limit" ≡ true
      → json.unmarshal mock_policy ≡ some mock_saved
      → json.marshal mock_saved ≡ some payload
      → s.client.connected ≡ false
      → serve_translation lib cfg sends etcd json read_prompt messages w r v s
        ≡ done
            (respond 200
              (saved "saved" mock_saved)
              (set_header "Content-Type" "application/json" v))
            (record s { client = add_policy_to_cache mock_saved s.client })
  unfolding serve_translation
  serve_translation-mock json read_prompt messages w r v s prompt payload posts asks limits decodes
        encodes offline =
      translates_mock etcd json read_prompt _ messages payload decodes encodes r v s prompt posts
        asks (prompt-ne-nil prompt limits)
        (ap (λ o. o.1)
            (run_completion-mock lib cfg sends no_deepseek no_gemini translator_system_prompt prompt
              w)
          ∙ ap some (mock_completion-limit prompt limits))
        offline
