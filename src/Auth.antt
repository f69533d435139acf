-- ===== src/Auth.antt =====
-- internal/auth: the blacklist, the token validator and the middleware. The Redis client and the
-- JWT library are parameters.
pub mod Access
pub mod Bearer
mod Tests
use aizen_gate.Base.{
  ℕ, ◌≡◌, String, Bool, true, false, not, ◌||◌, Option, none, some, List, [], ◌∷◌, Char, code, ltb,
  leb, ◌==◌, ◌&&◌, ◌+◌, str_eq, get_or, if◌then◌else◌,
}
use aizen_gate.Base.Int.{ℤ}
use aizen_gate.Base.Dict.{Dict, lookup}
use aizen_gate.Base.Text.{split, ◌<>◌}
use aizen_gate.Http.{
  UserIdentity, Context, Request, Writer, get_header, set_header, respond, json_error, Outcome,
  done, Middleware, Part,
}
use aizen_gate.Proxy.{LogEntry, missing_token, invalid_token}

-- The commands EXISTS, whose count is none on an error, and SET with an expiration.
pub record Keys (R : Type 0) : Type 0 where
  pub exists : String → R → Option ℕ
  pub set : String → String → ℤ → R → R × Bool

module _ {R : Type 0} (keys : Keys R) where
  unfoldable pub is_revoked : String → R → Option Bool
  is_revoked token r = elim (keys.exists ("blacklist:" <> token) r) [
    | none ↦ none
    | some n ↦ some (ltb 0 n)
  ]

  -- The store after `Revoke`, and whether that returned no error.
  unfoldable pub revoke : String → ℤ → R → R × Bool
  revoke token expiration r = keys.set ("blacklist:" <> token) "1" expiration r

-- A claim of a token, as encoding/json reads it; `other` is any value that is neither a string
-- nor an array.
pub data Claim : Type 0 where
  string : String → Claim
  array : List (Option String) → Claim
  other : Claim

-- A token that the library has parsed, its `Valid` field and its claims: none if they are no map.
pub record Token : Type 0 where
  pub valid : Bool
  pub claims : Option (Dict Claim)

-- The string elements of an array.
unfoldable pub strings : List (Option String) → List String
strings [] = []
strings (none ∷ xs) = strings xs
strings (some s ∷ xs) = s ∷ strings xs

abbrev pub as_string : Option Claim → Option String
as_string (some (string s)) = some s
as_string _ = none

abbrev pub roles_of : Option Claim → List String
roles_of (some (array xs)) = strings xs
roles_of _ = []

unfoldable pub map_claims_to_identity : Dict Claim → Option UserIdentity
map_claims_to_identity claims = elim (as_string (lookup "sub" claims)) [
  | none ↦ none
  | some user_id ↦ elim (as_string (lookup "tid" claims)) [
    | none ↦ none
    | some tenant_id ↦ some (record {
      user_id = user_id;
      roles = roles_of (lookup "roles" claims);
      tenant_id = tenant_id;
    })
  ]
]

abbrev pub identity_of : Option Token → Option UserIdentity
identity_of none = none
identity_of (some t) =
    if not t.valid
    then none
    else elim t.claims [ none ↦ none | some claims ↦ map_claims_to_identity claims ]

-- The signing methods of the library, as the type assertion tells them apart.
pub data SigningMethod : Type 0 where
  hmac : SigningMethod
  unexpected : (alg : String) → SigningMethod

-- The function that `jwt.Parse` asks for the key of a token's method; `none` is its error.
unfoldable pub key_for : String → SigningMethod → Option String
key_for secret_key hmac = some secret_key
key_for secret_key (unexpected alg) = none

-- `jwt.Parse`, over the function that gives the key.
abbrev pub Parses : Type 0
Parses = (SigningMethod → Option String) → String → Option Token

module _ {S : Type 0} (blacklist : Option (String → S → Option Bool)) (jwt_parse : Parses)
    (secret_key : String) where
  abbrev parsed_identity : String → Option UserIdentity
  parsed_identity token = identity_of (jwt_parse (key_for secret_key) token)

  -- `Validate`
  unfoldable pub validate : String → S → Option UserIdentity
  validate token s = elim blacklist [
    | none ↦ parsed_identity token
    | some revoked ↦ elim (revoked token s) [
      | none ↦ none
      | some bad ↦ if bad then none else parsed_identity token
    ]
  ]

-- strings.ToLower of an ASCII letter is compared with a lower-case one.
abbrev pub lower : Char → ℕ
lower c = if leb 65 (code c) && leb (code c) 90 then code c + 32 else code c

-- strings.ToLower(s) == t, for a lower-case ASCII `t`
unfoldable pub is_lower_of : String → String → Bool
is_lower_of String.[] t = str_eq t ""
is_lower_of (String.◌∷◌ c s) String.[] = false
is_lower_of (String.◌∷◌ c s) (String.◌∷◌ d t) =
    let rest = is_lower_of s t in if lower c == code d then rest else false

abbrev pub space : Char
space = " "

-- The two parts of an authorization header, if the first is "bearer" in some case.
abbrev pub token_of : List String → Option String
token_of (scheme ∷ token ∷ []) = if is_lower_of scheme "bearer" then some token else none
token_of _ = none

unfoldable pub extract_bearer_token : Request → Option String
extract_bearer_token r =
    let header = get_header "Authorization" r.headers in
    if str_eq header "" then none else token_of (split header (code space))

unfoldable pub write_error_response : ℕ → String → Writer → Writer
write_error_response code message w =
    respond code (json_error message) (set_header "Content-Type" "application/json" w)

-- The context with the identity, under IdentityKey alone.
abbrev pub enrich : UserIdentity → Request → Request
enrich identity r = record r { context = record r.context { identity = some identity } }

abbrev pub from_context : Context → Option UserIdentity
from_context c = c.identity

module _ {S : Type 0} (log : Part S (List LogEntry))
    (validator : String → S → Option UserIdentity) where
  unfoldable pub auth_middleware : Middleware S
  auth_middleware next r w s = elim (extract_bearer_token r) [
    | none ↦
        done (write_error_response 401 "Authentication token is missing" w)
          (log.put (missing_token ∷ log.get s) s)
    | some token ↦ elim (validator token s) [
      | none ↦
          done (write_error_response 401 "Invalid or expired token" w)
            (log.put (invalid_token ∷ log.get s) s)
      | some identity ↦ next (enrich identity r) w s
    ]
  ]
