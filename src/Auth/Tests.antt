-- ===== src/Auth/Tests.antt =====
-- The theorems on internal/auth at concrete inputs.
use aizen_gate.Base.{
  ◌&&◌, Option-cases, inl, inr, ◌≡◌, ◌↔◌, refl, String, Bool, true, false, Option, none, some, [],
  ◌∷◌, str_eq, arith, code, if◌then◌else◌,
}
use aizen_gate.Base.Dict.{Dict, lookup}
use aizen_gate.Base.Text.{◌<>◌}
use aizen_gate.Base.Text.Laws.{Free}
use aizen_gate.Http.{UserIdentity, Request, get_header}
use aizen_gate.Auth.{
  Claim, string, array, validate, Parses, hmac, key_for, is_lower_of, space, extract_bearer_token,
  map_claims_to_identity, strings,
}
use aizen_gate.Auth.Bearer.{extract_bearer_token_iff}
use aizen_gate.Auth.Access.{validate_sound, ParseLaws}
use aizen_gate.Fixtures.{Gateway, gateway, ask}

abbrev signed : Request
signed = record (ask "GET" "/x") { headers = ("Authorization", "Bearer T") ∷ [] }

extract_bearer_token_iff_example : (extract_bearer_token signed ≡ some "T") ↔ (
    (scheme : String) × (get_header "Authorization" signed.headers ≡ scheme <> " " <> "T")
    × (is_lower_of scheme "bearer" ≡ true)
    × Free (code space) "T")
extract_bearer_token_iff_example = extract_bearer_token_iff signed "T"

abbrev ann : UserIdentity
ann = record { user_id = "ann"; roles = "admin" ∷ []; tenant_id = "t1" }

abbrev ann_claims : Dict Claim
ann_claims =
    ("sub", string "ann") ∷ ("tid", string "t1") ∷ ("roles", array (some "admin" ∷ none ∷ [])) ∷ []

abbrev is_some_secret : Option String → Bool
is_some_secret none = false
is_some_secret (some key) = str_eq key "secret"

abbrev read_token : Parses
read_token key_of t =
    if str_eq t "T" && is_some_secret (key_of hmac)
    then some (record { valid = true; claims = some ann_claims })
    else none

-- Every token names HMAC, and "T" alone is signed, with "secret".
read_token-laws : ParseLaws read_token
read_token-laws = record {
  method_of = λ token. hmac;
  is_signed = λ key token. str_eq token "T" && str_eq key "secret";
  valid_lem = λ key_of token t parsed valid. elim (Option-cases (key_of hmac)) [
    | inl missing ↦ absurd (ground (arith, parsed, missing))
    | inr (key, given) ↦ (key, given, ground (arith, parsed, given))
  ];
}

abbrev none_revoked : String → Gateway → Option Bool
none_revoked t g = some false

abbrev check : String → Gateway → Option UserIdentity
check = validate (some none_revoked) read_token "secret"

ann_is_valid : check "T" (gateway 1) ≡ some ann
unfolding validate key_for map_claims_to_identity lookup strings
ann_is_valid = refl

validate_sound_example :
    (read_token-laws.method_of "T" ≡ hmac)
    × (read_token-laws.is_signed "secret" "T" ≡ true)
    × (none_revoked "T" (gateway 1) ≡ some false)
    × ((claims : Dict Claim) × (read_token (key_for "secret") "T"
          ≡ some (record { valid = true; claims = some claims }))
        × (lookup "sub" claims ≡ some (string "ann"))
        × (lookup "tid" claims ≡ some (string "t1")))
validate_sound_example =
    validate_sound (some none_revoked) read_token read_token-laws "secret" "T" (gateway 1) ann
      ann_is_valid
