-- ===== src/Brain/Versions.antt =====
-- Where the two versions of the client in internal/brain agree, and where they do not.
use Prim.Native.String.{[], ◌∷◌}
use text.Mathlib.TextLemmas.{cons-append}
use aizen_gate.Base.{◌≡◌, ◌↔◌, String, true, false, Option, none, some, arith}
use aizen_gate.Base.Text.{◌<>◌, contains, strip_prefix, has_prefix}
use aizen_gate.Brain.{
  quota_exceeded, api_error, Result, ok, failed, GenerateContentResponse, first_content,
}
use aizen_gate.Brain.Client
use aizen_gate.Brain.Gemini

-- The text of an answer.
abbrev pub content_of : Result → Option String
content_of (ok r) = some r.content
content_of (failed e) = none

has_prefix-append : (s t u : String) → has_prefix s (t <> u) ≡ true → has_prefix s t ≡ true
unfolding strip_prefix
has_prefix-append s [] u h = ground arith
has_prefix-append [] (d ∷ t) u h =
    let bad : has_prefix [] (d ∷ (t <> u)) ≡ true = rw cons-append at h in absurd (ground arith)
has_prefix-append (c ∷ s) (d ∷ t) u h =
    let split : has_prefix (c ∷ s) (d ∷ (t <> u)) ≡ true = rw cons-append at h in
    ground (arith, has_prefix-append s t u)

contains-append : (s t u : String) → contains s (t <> u) ≡ true → contains s t ≡ true
unfolding contains
contains-append [] t u h = has_prefix-append [] t u h
contains-append (c ∷ s) t u h = ground (arith, has_prefix-append (c ∷ s) t u, contains-append s t u)

-- On every message and every response, the two versions of the client differ in two points only: a
-- message that speaks of a quota, but neither of a quota that is exceeded nor of 429, is a quota
-- error for client.go alone, and client.go alone reports the tokens that were used. Their
-- joined_texts are the same, and both fail on a response without content.
pub versions_differ :
    (message : String) (r : GenerateContentResponse)
    → (Gemini.handle_api_error message ≡ quota_exceeded message
        → Client.handle_api_error message ≡ quota_exceeded message)
      × ((Client.handle_api_error message ≡ quota_exceeded message)
            × (Gemini.handle_api_error message ≡ api_error message)
          ↔ ((contains message "quota" ≡ true)
              × (contains message "429" ≡ false)
              × (contains message "quota exceeded" ≡ false)))
      × (content_of (Gemini.parse_response r) ≡ content_of (Client.parse_response r))
      × ((content_of (Client.parse_response r) ≡ none) ↔ (first_content r ≡ none))
unfolding Gemini.handle_api_error Client.handle_api_error Gemini.parse_response
    Client.parse_response
versions_differ message r =
    let wider = contains-append message "quota" " exceeded" in
    (ground arith, ground arith, ground arith, ground arith)
