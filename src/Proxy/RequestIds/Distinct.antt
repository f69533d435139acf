-- ===== src/Proxy/RequestIds/Distinct.antt =====
-- Requests that pass `RequestIDMiddleware` of internal/proxy/middleware.go one after another.
use Prim.Native.Char.{Char, code}
use aizen_gate.Base.{
  ℕ, ◌+◌, ◌%◌, ◌^◌, ◌<◌, ◌≤◌, ◌≡◌, refl, sym, ap, ◌∙◌, String, List, [], ◌∷◌, arith, length, str_eq,
  Bool-cases, inl, inr,
}
use text.Mathlib.TextLemmas.{nil-append, cons-append}
use aizen_gate.Base.Text.{◌<>◌, split}
use aizen_gate.Base.Text.Laws.{append_inj_right, Free, split-cut, split_of_Free}
use aizen_gate.Base.Decimal.{show, show_inj, show-Free}
use aizen_gate.Http.{Request, get_header, Part}
use aizen_gate.Proxy.{new_request_id, id_of}
use aizen_gate.Proxy.RequestIds.{made_ids, Misses, AreDistinct}

abbrev dash : Char
dash = "-"

-- The two numbers of an id, by the dash between them.
split-id : (now n : ℕ) → split (show now <> "-" <> show n) (code dash) ≡ show now ∷ show n ∷ []
split-id now n =
    let free : (k : ℕ) → Free (code dash) (show k) =
      λ k. show-Free k (code dash) (inl (omega arith)) in
    rw
      (
        cons-append,
        nil-append,
        split-cut (show now) dash (show n) (free now),
        split_of_Free (show n) (code dash) (free n),
      )
      refl

-- An id tells the counter from which it was made.
pub new_request_id-inj : (now later n m : ℕ) → new_request_id now n ≡ new_request_id later m → n ≡ m
new_request_id-inj now later n m e =
    let same = append_inj_right "zg-" (show now <> "-" <> show n) (show later <> "-" <> show m) e in
    let parts : ◌≡◌ {A = List String} (show now ∷ show n ∷ []) (show later ∷ show m ∷ []) =
      sym (split-id now n) ∙ ap (λ t. split t (code dash)) same ∙ split-id later m in
    show_inj n m (cc)

module _ {S : Type 0} (counter : Part S ℕ) where
  -- An id that is made from a counter up to `n` is not made again.
  Misses-made :
      (now n : ℕ) (arrivals : List (ℕ × Request)) (s : S)
      → n ≤ counter.get s
      → counter.get s + length arrivals < 2 ^ 64
      → Misses (new_request_id now n) (made_ids counter arrivals s)
  unfolding made_ids id_of
  Misses-made now n [] s past few = tt
  Misses-made now n ((later, r) ∷ more) s past few =
      let c = counter.get s + 1 in
      let small : c % 2 ^ 64 ≡ c = omega arith in
      elim (Bool-cases (str_eq (get_header "X-Request-Id" r.headers) "")) [
        | inl missing ↦
            rw (missing, small)
              (
                (λ same. omega (arith, new_request_id-inj now later n c same)),
                Misses-made now n more (counter.put c s) (omega (arith, counter.get-put c s))
                    (omega (arith, counter.get-put c s)),
              )
        | inr given ↦ rw given (Misses-made now n more s past (omega arith))
      ]

  -- Of requests that come one after another, with any clocks, fewer than 2^64 together with those
  -- that were counted before, no two that have no id are given the same id.
  pub made_ids-AreDistinct :
      (arrivals : List (ℕ × Request)) (s : S)
      → counter.get s + length arrivals < 2 ^ 64
      → AreDistinct (made_ids counter arrivals s)
  unfolding made_ids id_of
  made_ids-AreDistinct [] s few = tt
  made_ids-AreDistinct ((now, r) ∷ more) s few =
      let c = counter.get s + 1 in
      let small : c % 2 ^ 64 ≡ c = omega arith in
      let got = counter.get-put c s in
      elim (Bool-cases (str_eq (get_header "X-Request-Id" r.headers) "")) [
        | inl missing ↦
            rw (missing, small)
              (
                Misses-made now c more (counter.put c s) (omega (arith, got)) (omega (arith, got)),
                made_ids-AreDistinct more (counter.put c s) (omega (arith, got)),
              )
        | inr given ↦ rw given (made_ids-AreDistinct more s (omega arith))
      ]
