-- ===== src/Brain/Tests.antt =====
-- The two versions of the client in internal/brain at a concrete message and response.
use aizen_gate.Base.{◌≡◌, refl, some, none, [], ◌∷◌}
use aizen_gate.Base.Text.{strip_prefix}
use aizen_gate.Brain.{api_error, GenerateContentResponse, text, blob}
use aizen_gate.Brain.Client
use aizen_gate.Brain.Gemini
use aizen_gate.Brain.Versions.{content_of}

abbrev two_texts : GenerateContentResponse
two_texts = record {
  candidates = some (text "a" ∷ blob ∷ text "b" ∷ []) ∷ [];
  usage_metadata = none;
}

texts_joined : content_of (Client.parse_response two_texts) ≡ some "ab"
unfolding Client.parse_response
texts_joined = refl

quota_message : Gemini.handle_api_error "quota reached" ≡ api_error "quota reached"
unfolding Gemini.handle_api_error strip_prefix
quota_message = refl
