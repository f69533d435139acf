-- ===== src/Ai/Analyzer/History.antt =====
-- The buffer of internal/ai/analyzer.go over many ticks.
use aizen_gate.Base.{
  ℕ, suc, ◌-◌, ◌≤◌, ◌<◌, ◌≡◌, refl, sym, ap, ◌∙◌, none, List, [], ◌∷◌, ◌++◌, length, drop,
  length-append, leb, arith, Bool-cases, inl, inr,
}
use aizen_gate.Ai.Analyzer.{Floats, max_history, push, analyze_tps}

module _ {A : Type 0} where
  append_nil : (xs : List A) → xs ++ [] ≡ xs
  append_nil [] = refl
  append_nil (x ∷ xs) = ap (λ ys. x ∷ ys) (append_nil xs)

  append_step : (xs : List A) (t : A) (ts : List A) → (xs ++ t ∷ []) ++ ts ≡ xs ++ t ∷ ts
  append_step [] t ts = refl
  append_step (x ∷ xs) t ts = ap (λ ys. x ∷ ys) (append_step xs t ts)

  drop_all_but : (n : ℕ) (xs : List A) → length xs ≤ n → drop (length xs - n) xs ≡ xs
  drop_all_but n xs h = let all_fit : length xs - n ≡ 0 = omega (arith, h) in rw all_fit refl

  -- A long list loses its head first.
  drop_head :
      (n : ℕ) (x : A) (xs : List A)
      → n ≤ length xs
      → drop (suc (length xs) - n) (x ∷ xs) ≡ drop (length xs - n) xs
  drop_head n x xs h =
      let shift : suc (length xs) - n ≡ suc (length xs - n) = omega (arith, h) in rw shift refl

module _ {F : Type 0} (floats : Floats F) where
  -- The history after a run of ticks.
  pub history : List F → List F → List F
  history [] xs = xs
  history (t ∷ ts) xs = history ts (analyze_tps floats t xs).0

  analyze-push : (t : F) (xs : List F) → (analyze_tps floats t xs).0 ≡ push floats t xs
  unfolding analyze_tps push
  analyze-push t xs = ground arith

  push_short : (t : F) (xs : List F) → length xs < 60 → push floats t xs ≡ xs ++ t ∷ []
  unfolding push
  push_short t xs h = ground arith

  push_full : (t x : F) (xs : List F) → 59 ≤ length xs → push floats t (x ∷ xs) ≡ xs ++ t ∷ []
  unfolding push
  push_full t x xs h = ground arith

  history_of_many :
      (ts xs : List F)
      → length xs ≤ max_history
      → history ts xs ≡ drop (length (xs ++ ts) - max_history) (xs ++ ts)
  unfolding history
  history_of_many [] xs h = rw (append_nil xs) (sym (drop_all_but 60 xs h))
  history_of_many (t ∷ ts) [] h =
      ap (history ts) (analyze-push t [] ∙ push_short t [] (omega arith))
      ∙ history_of_many ts (t ∷ []) (omega arith)
  history_of_many (t ∷ ts) (x ∷ xs) h = elim (Bool-cases (leb 60 (length (x ∷ xs)))) [
    | inl full ↦
        ap (history ts) (analyze-push t (x ∷ xs) ∙ push_full t x xs (ground (arith, full)))
        ∙ history_of_many ts (xs ++ t ∷ []) (omega (arith, length-append xs (t ∷ []), h))
        ∙ rw (append_step xs t ts)
            (sym (drop_head 60 x (xs ++ t ∷ ts) (ground (arith, length-append xs (t ∷ ts), full))))
    | inr short ↦
        ap (history ts) (analyze-push t (x ∷ xs) ∙ push_short t (x ∷ xs) (ground (arith, short)))
        ∙ history_of_many ts (x ∷ xs ++ t ∷ []) (ground (arith, length-append xs (t ∷ []), short))
        ∙ ap (λ ys. drop (length ys - 60) ys) (append_step (x ∷ xs) t ts)
  ]

  -- After any run of ticks, the history is the last 60 throughputs in order, or all of them if
  -- there are fewer.
  pub history_is_last : (ts : List F) → history ts [] ≡ drop (length ts - 60) ts
  history_is_last ts = history_of_many ts [] (omega arith)

  -- No query is started before five throughputs are known.
  pub analyze_tps_waits : (t : F) (xs : List F) → length xs < 5 → (analyze_tps floats t xs).1 ≡ none
  unfolding analyze_tps
  analyze_tps_waits t xs h = ground arith
