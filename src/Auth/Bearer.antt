-- ===== src/Auth/Bearer.antt =====
-- Which headers internal/auth/middleware.go takes a token from.
use aizen_gate.Base.{
  ℕ, Char, ◌≡◌, ◌≢◌, ◌↔◌, refl, sym, ap, ◌∙◌, subst, String, true, some, List, [], ◌∷◌, arith,
  eq_iff, All, Bool-cases, inl, inr, ltb, code,
}
use text.Mathlib.TextLemmas.{cons-append}
use aizen_gate.Base.Text.{◌<>◌, split, join}
use aizen_gate.Base.Text.Laws.{Free, split-join, join-split, split-Free}
use aizen_gate.Http.{Request, get_header}
use aizen_gate.Auth.{is_lower_of, space, token_of, extract_bearer_token}

token_of-some :
    (ps : List String) (token : String)
    → token_of ps ≡ some token
    → (scheme : String) × (ps ≡ scheme ∷ token ∷ []) × (is_lower_of scheme "bearer" ≡ true)
token_of-some [] token h = absurd (ground (arith, h))
token_of-some (a ∷ []) token h = absurd (ground (arith, h))
token_of-some (a ∷ b ∷ []) token h = elim (Bool-cases (is_lower_of a "bearer")) [
  | inl bearer ↦ (a, ground arith, bearer)
  | inr other ↦ absurd (ground (arith, h, other))
]
token_of-some (a ∷ b ∷ c ∷ ps) token h = absurd (ground (arith, h))

is_lower_of-Free :
    (sep : ℕ) (s t : String) → ltb sep 65 ≡ true → Free sep t → is_lower_of s t ≡ true → Free sep s
unfolding is_lower_of
is_lower_of-Free sep String.[] t low free h = tt
is_lower_of-Free sep (String.◌∷◌ c s) String.[] low free h = absurd (ground arith)
is_lower_of-Free sep (String.◌∷◌ c s) (String.◌∷◌ d t) low free h =
    (ground arith, is_lower_of-Free sep s t low free.1 (ground arith))

bearer-Free : Free (code space) "bearer"
bearer-Free = ground arith

two_parts : {a b : String} → ◌≢◌ {A = List String} (a ∷ b ∷ []) []
two_parts = cc

-- A header that is split at its only space.
split_header :
    (scheme token : String)
    → Free (code space) scheme
    → Free (code space) token
    → split (scheme <> " " <> token) (code space) ≡ scheme ∷ token ∷ []
unfolding join
split_header scheme token hs ht = split-join (scheme ∷ token ∷ []) space two_parts (hs, (ht, tt))

extracted :
    (r : Request) (token : String)
    → extract_bearer_token r ≡ some token
    → token_of (split (get_header "Authorization" r.headers) (code space)) ≡ some token
unfolding extract_bearer_token
extracted r token h = ground arith

header_found :
    (r : Request) (token : String)
    → get_header "Authorization" r.headers ≢ ""
    → token_of (split (get_header "Authorization" r.headers) (code space)) ≡ some token
    → extract_bearer_token r ≡ some token
unfolding extract_bearer_token
header_found r token there found = ground (arith, eq_iff (get_header "Authorization" r.headers) "")

found_by :
    (scheme token : String)
    → is_lower_of scheme "bearer" ≡ true
    → token_of (scheme ∷ token ∷ []) ≡ some token
found_by scheme token bearer = ground arith

cons_ne_nil : (c : Char) (s t : String) → String.◌∷◌ c s <> t ≢ ""
cons_ne_nil c s t = rw cons-append cc

is_lower_of-ne-nil :
    (scheme token : String) {header : String}
    → is_lower_of scheme "bearer" ≡ true
    → header ≡ scheme <> " " <> token
    → header ≢ ""
unfolding is_lower_of
is_lower_of-ne-nil String.[] token bearer whole = absurd (ground arith)
is_lower_of-ne-nil (String.◌∷◌ c s) token bearer whole =
    λ e. cons_ne_nil c s (" " <> token) (sym whole ∙ e)

-- A token is taken from exactly those headers that are a scheme, one space and the token, where the
-- scheme is "bearer" in some case and the token holds no space.
pub extract_bearer_token_iff :
    (r : Request) (token : String)
    → (extract_bearer_token r ≡ some token) ↔ (
        (scheme : String) × (get_header "Authorization" r.headers ≡ scheme <> " " <> token)
        × (is_lower_of scheme "bearer" ≡ true)
        × Free (code space) token)
unfolding join
extract_bearer_token_iff r token =
    let header = get_header "Authorization" r.headers in
    (
      λ h.
          let found = extracted r token h in
          let (scheme, parts, bearer) = token_of-some (split header (code space)) token found in
          let free =
            subst (λ ps. All (Free (code space)) ps) parts (split-Free header (code space)) in
          (scheme, sym (join-split header space) ∙ ap (λ ps. join ps " ") parts, bearer, free.1.0),
      λ (scheme, whole, bearer, free).
          header_found r token (is_lower_of-ne-nil scheme token bearer whole) (
            ap token_of (
              ap (λ t. split t (code space)) whole
              ∙ split_header scheme token
                  (is_lower_of-Free (code space) scheme "bearer" refl bearer-Free bearer) free)
            ∙ found_by scheme token bearer),
    )
