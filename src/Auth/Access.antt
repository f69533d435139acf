-- ===== src/Auth/Access.antt =====
-- Who gets past internal/auth/middleware.go and the validator of internal/auth/jwt_validator.go.
use aizen_gate.Base.{
  ◌≡◌, refl, String, Bool, true, false, Option, none, some, List, ◌∷◌, arith, Option-cases, inl,
  inr,
}
use aizen_gate.Base.Int.{ℤ}
use aizen_gate.Base.Dict.{Dict, lookup}
use aizen_gate.Base.Text.{◌<>◌}
use aizen_gate.Http.{UserIdentity, Request, Writer, done, Handler, Part}
use aizen_gate.ControlPlane.{Client}
use aizen_gate.Metrics.{Metrics}
use aizen_gate.Proxy.{LogEntry, missing_token, invalid_token}
use aizen_gate.RateLimit.Limiter.{Limiter}
use aizen_gate.RateLimit.Middleware.{policy_for, ask_limiter, seconds, rate_limit_middleware}
use aizen_gate.Auth.{
  Keys, is_revoked, revoke, Claim, string, Token, as_string, map_claims_to_identity, identity_of,
  SigningMethod, hmac, unexpected, key_for, Parses, validate, extract_bearer_token,
  write_error_response, enrich, auth_middleware,
}

as_string_lem : (o : Option Claim) (x : String) → as_string o ≡ some x → o ≡ some (string x)
as_string_lem none x h = absurd (ground (arith, h))
as_string_lem (some (string y)) x h = ground arith
as_string_lem (some (Claim.array y)) x h = absurd (ground (arith, h))
as_string_lem (some Claim.other) x h = absurd (ground (arith, h))

map_claims_sound :
    (claims : Dict Claim) (identity : UserIdentity)
    → map_claims_to_identity claims ≡ some identity
    → (lookup "sub" claims ≡ some (string identity.user_id))
      × (lookup "tid" claims ≡ some (string identity.tenant_id))
unfolding map_claims_to_identity
map_claims_sound claims identity h = ground (
  arith,
  as_string_lem (lookup "sub" claims) identity.user_id,
  as_string_lem (lookup "tid" claims) identity.tenant_id,
)

identity_of_sound :
    (o : Option Token) (identity : UserIdentity)
    → identity_of o ≡ some identity
    → (claims : Dict Claim) × (o ≡ some (record { valid = true; claims = some claims }))
      × (map_claims_to_identity claims ≡ some identity)
identity_of_sound none identity h = absurd (ground (arith, h))
identity_of_sound (some t) identity h = elim (Option-cases t.claims) [
  | inl missing ↦ absurd (ground (arith, h, missing))
  | inr (claims, found) ↦ (claims, ground arith, ground arith)
]

-- What the library documents of `jwt.Parse`: a token whose signature it found valid was checked
-- with the key that the function gave for the method of its header.
pub record ParseLaws (jwt_parse : Parses) : Type 0 where
  pub method_of : String → SigningMethod
  pub is_signed : String → String → Bool
  pub valid_lem :
      (key_of : SigningMethod → Option String) (token : String) (t : Token)
      → jwt_parse key_of token ≡ some t
      → t.valid ≡ true
      → (key : String) × (key_of (method_of token) ≡ some key) × (is_signed key token ≡ true)

-- What a blacklist, if there is one, says of a token.
abbrev pub IsNotRevoked : {S : Type 0} → Option (String → S → Option Bool) → String → S → Type 0
IsNotRevoked none token s = Unit
IsNotRevoked (some revoked) token s = revoked token s ≡ some false

validated :
    {S : Type 0} (blacklist : Option (String → S → Option Bool)) (jwt_parse : Parses)
    (secret_key token : String) (s : S) (identity : UserIdentity)
    → validate blacklist jwt_parse secret_key token s ≡ some identity
    → IsNotRevoked blacklist token s
      × (identity_of (jwt_parse (key_for secret_key) token) ≡ some identity)
unfolding validate
validated none jwt_parse secret_key token s identity h = (tt, h)
validated (some revoked) jwt_parse secret_key token s identity h = ground arith

key_for_hmac :
    (secret_key key : String) (m : SigningMethod)
    → key_for secret_key m ≡ some key
    → (m ≡ hmac) × (secret_key ≡ key)
unfolding key_for
key_for_hmac secret_key key hmac h = (refl, ground (arith, h))
key_for_hmac secret_key key (unexpected alg) h = absurd (ground (arith, h))

-- A token that `Validate` accepts names an HMAC method in its header and is signed with the secret
-- key; if there is a blacklist, the token is not revoked; and the identity comes from its claims
-- "sub" and "tid".
pub validate_sound :
    {S : Type 0} (blacklist : Option (String → S → Option Bool)) (jwt_parse : Parses)
    (laws : ParseLaws jwt_parse) (secret_key token : String) (s : S) (identity : UserIdentity)
    → validate blacklist jwt_parse secret_key token s ≡ some identity
    → (laws.method_of token ≡ hmac)
      × (laws.is_signed secret_key token ≡ true)
      × IsNotRevoked blacklist token s
      × ((claims : Dict Claim) × (jwt_parse (key_for secret_key) token
            ≡ some (record { valid = true; claims = some claims }))
          × (lookup "sub" claims ≡ some (string identity.user_id))
          × (lookup "tid" claims ≡ some (string identity.tenant_id)))
validate_sound blacklist jwt_parse laws secret_key token s identity h =
    let (fine, found) = validated blacklist jwt_parse secret_key token s identity h in
    let (claims, parsed, mapped) =
      identity_of_sound (jwt_parse (key_for secret_key) token) identity found in
    let (sub, tid) = map_claims_sound claims identity mapped in
    let (key, given, signed) = laws.valid_lem (key_for secret_key) token _ parsed refl in
    let (by_hmac, same) = key_for_hmac secret_key key (laws.method_of token) given in
    (by_hmac, rw same signed, fine, (claims, parsed, sub, tid))

module _ {S : Type 0} (log : Part S (List LogEntry))
    (validator : String → S → Option UserIdentity) where
  pub without_token :
      (next : Handler S) (r : Request) (w : Writer) (s : S)
      → extract_bearer_token r ≡ none
      → auth_middleware log validator next r w s
        ≡ done
            (write_error_response 401 "Authentication token is missing" w)
            (log.put (missing_token ∷ log.get s) s)
  unfolding auth_middleware
  without_token next r w s missing = ground arith

  with_bad_token :
      (next : Handler S) (r : Request) (w : Writer) (s : S) (token : String)
      → extract_bearer_token r ≡ some token
      → validator token s ≡ none
      → auth_middleware log validator next r w s
        ≡ done
            (write_error_response 401 "Invalid or expired token" w)
            (log.put (invalid_token ∷ log.get s) s)
  unfolding auth_middleware
  with_bad_token next r w s token found refused = ground arith

  -- With a token that the validator accepts, the next handler runs on the request with its
  -- identity.
  pub auth_middleware-passes :
      (next : Handler S) (r : Request) (w : Writer) (s : S) (token : String)
      (identity : UserIdentity)
      → extract_bearer_token r ≡ some token
      → validator token s ≡ some identity
      → auth_middleware log validator next r w s ≡ next (enrich identity r) w s
  unfolding auth_middleware
  auth_middleware-passes next r w s token identity found valid = ground arith

-- What Redis documents of SET and EXISTS, for a time within the expiration.
pub record KeyLaws {R : Type 0} (keys : Keys R) : Type 0 where
  pub exists-set :
      (key v : String) (expiration : ℤ) (r : R)
      → (keys.set key v expiration r).1 ≡ true
      → keys.exists key (keys.set key v expiration r).0 ≡ some 1

-- Once `Revoke` has returned without an error, and within the expiration, the token is refused.
pub validate-revoke :
    {R : Type 0} (keys : Keys R) (laws : KeyLaws keys) (jwt_parse : Parses)
    (secret_key token : String) (expiration : ℤ) (r : R)
    → (revoke keys token expiration r).1 ≡ true
    → validate
        (some (is_revoked keys))
        jwt_parse
        secret_key
        token
        (revoke keys token expiration r).0
      ≡ none
unfolding validate is_revoked revoke
validate-revoke keys laws jwt_parse secret_key token expiration r fine =
    ground (arith, laws.exists-set ("blacklist:" <> token) "1" expiration r)

module _ {S L : Type 0} (limiter : Limiter L) (limits : Part S L) (control : Part S Client)
    (metrics : Part S Metrics) (log : Part S (List LogEntry))
    (validator : String → S → Option UserIdentity) where
  -- Where nothing has set the client's id and tier in the context, a request with a valid token
  -- goes on to the rate limit, and the limiter is asked about it as the client "anonymous", with
  -- the limit and the window that the request would get without the token.
  pub limited_as_anonymous :
      (next : Handler S) (r : Request) (w : Writer) (s : S) (token : String)
      (identity : UserIdentity)
      → r.context.client_id ≡ none
      → r.context.client_tier ≡ none
      → extract_bearer_token r ≡ some token
      → validator token s ≡ some identity
      → (auth_middleware log validator
            (rate_limit_middleware limiter limits control metrics next)
            r
            w
            s
          ≡ rate_limit_middleware limiter limits control metrics next (enrich identity r) w s)
        × (ask_limiter limiter limits control metrics (enrich identity r) s
            ≡ limiter.allow "anonymous"
                (policy_for r (control.get s)).limit
                (seconds (policy_for r (control.get s)).window_sec)
                (limits.get s))
  unfolding ask_limiter policy_for
  limited_as_anonymous next r w s token identity no_id no_tier found valid = (
    auth_middleware-passes log validator _ r w s token identity found valid,
    rw (no_id, no_tier) refl,
  )
