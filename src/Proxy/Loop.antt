-- ===== src/Proxy/Loop.antt =====
-- The loop of `Chain` in internal/proxy/middleware.go, by its index.
use aizen_gate.Base.{
  ℕ, zero, suc, ◌<◌, ◌≤◌, ◌≡◌, refl, ap, Option, none, some, List, [], ◌∷◌, length, drop, arith,
  subst,
}
use aizen_gate.Http.{Handler, Middleware}
use aizen_gate.Proxy.{chain}

module _ {ℓ} {A : Type ℓ} where
  unfoldable pub get_elem? : List A → ℕ → Option A
  get_elem? [] i = none
  get_elem? (x ∷ xs) zero = some x
  get_elem? (x ∷ xs) (suc i) = get_elem? xs i

  -- A position inside the list.
  drop-get_elem? :
      (xs : List A) (i : ℕ)
      → i < length xs
      → (x : A) × (get_elem? xs i ≡ some x) × (drop i xs ≡ x ∷ drop (suc i) xs)
  unfolding get_elem?
  drop-get_elem? [] i h = absurd (omega (arith, h))
  drop-get_elem? (x ∷ xs) zero h = (x, refl, refl)
  drop-get_elem? (x ∷ xs) (suc i) h = drop-get_elem? xs i (omega (arith, h))

  drop-length : (xs : List A) → drop (length xs) xs ≡ []
  drop-length [] = refl
  drop-length (x ∷ xs) = drop-length xs

-- The rounds with the index below `n`, the last one first; `none` is an index out of range.
unfoldable pub chain_loop : {S : Type 0} → List (Middleware S) → ℕ → Handler S → Option (Handler S)
unfolding get_elem?
chain_loop middlewares zero handler = some handler
chain_loop middlewares (suc i) handler = elim (get_elem? middlewares i) [
  | none ↦ none
  | some m ↦ chain_loop middlewares i (m handler)
]

module _ {S : Type 0} (middlewares : List (Middleware S)) (handler : Handler S) where
  rounds :
      (n : ℕ)
      → n ≤ length middlewares
      → chain_loop middlewares n (chain handler (drop n middlewares))
        ≡ some (chain handler middlewares)
  unfolding chain_loop chain
  rounds zero h = refl
  rounds (suc i) h =
      let (m, at, cut) = drop-get_elem? middlewares i (omega arith) in
      let round : chain handler (drop i middlewares)
          ≡ m (chain handler (drop (suc i) middlewares)) =
        ap (chain handler) cut in
      rw (at, chain_loop)
        (subst (λ h. chain_loop middlewares i h ≡ some (chain handler middlewares)) round
          (rounds i (omega arith)))

-- The loop of `Chain` ends without an index out of range, and what it returns is the first
-- middleware around the chain of the others.
pub chain_loop-chain :
    {S : Type 0} (handler : Handler S) (middlewares : List (Middleware S))
    → chain_loop middlewares (length middlewares) handler ≡ some (chain handler middlewares)
unfolding chain
chain_loop-chain handler middlewares =
    subst
      (λ ms.
        chain_loop middlewares (length middlewares) (chain handler ms)
        ≡ some (chain handler middlewares))
      (drop-length middlewares) (rounds middlewares handler (length middlewares) (omega arith))
