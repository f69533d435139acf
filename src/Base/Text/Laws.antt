-- ===== src/Base/Text/Laws.antt =====
-- Splitting and joining.
use Prim.Native.Nat.{ℕ, suc}
use Prim.Native.Char.{Char, code}
use Prim.Native.String.{String, [], ◌∷◌}
use mathlib.Core.Path.{◌≡◌, refl, sym, ap, ◌∙◌}
use mathlib.Core.Logic.{◌≢◌, inl, inr}
use mathlib.Core.Option.{some}
use mathlib.Core.List as L
use mathlib.Core.List.{List}
use native.Mathlib.Omega.{arith}
use text.Mathlib.TextEquality.{Char-path}
use text.Mathlib.TextLemmas.{nil-append, cons-append, append_cancel_left}
use aizen_gate.Base.Tests.{◌==◌, ==_iff, Bool-cases}
use aizen_gate.Base.Lists.{All}
use aizen_gate.Base.Text.{◌<>◌, push_head, split, split_n, join, strip_prefix}

-- No character of the text is the separator.
abbrev pub Free : ℕ → String → Type 0
Free sep [] = Unit
Free sep (c ∷ s) = (code c ≢ sep) × Free sep s

push_head-ne-nil : (c : Char) (ps : List String) → push_head c ps ≢ L.[]
unfolding push_head
push_head-ne-nil c L.[] = cc
push_head-ne-nil c (L.◌∷◌ p ps) = cc

pub split-ne-nil : (s : String) (sep : ℕ) → split s sep ≢ L.[]
unfolding split
split-ne-nil [] sep = cc
split-ne-nil (c ∷ s) sep = ground (arith, push_head-ne-nil c (split s sep))

push_head-Free :
    (sep : ℕ) (c : Char) (ps : List String)
    → code c ≢ sep
    → All (Free sep) ps
    → All (Free sep) (push_head c ps)
unfolding push_head
push_head-Free sep c L.[] h _ = ((h, tt), tt)
push_head-Free sep c (L.◌∷◌ p ps) h (hp, hps) = ((h, hp), hps)

pub split-Free : (s : String) (sep : ℕ) → All (Free sep) (split s sep)
unfolding split
split-Free [] sep = (tt, tt)
split-Free (c ∷ s) sep = ground (arith, split-Free s sep, push_head-Free sep c (split s sep))

join-push_head :
    (c : Char) (ps : List String) (sep : String)
    → ps ≢ L.[]
    → join (push_head c ps) sep ≡ c ∷ join ps sep
unfolding join push_head
join-push_head c L.[] sep h = absurd (h refl)
join-push_head c (L.◌∷◌ p L.[]) sep h = refl
join-push_head c (L.◌∷◌ p (L.◌∷◌ q ps)) sep h = rw cons-append

join-cons :
    (p : String) (ps : List String) (sep : String)
    → ps ≢ L.[]
    → join (L.◌∷◌ p ps) sep ≡ p <> sep <> join ps sep
unfolding join
join-cons p L.[] sep h = absurd (h refl)
join-cons p (L.◌∷◌ q ps) sep h = refl

code-cons : (c d : Char) (s : String) → code c ≡ code d → ◌≡◌ {A = String} (c ∷ s) (d ∷ s)
code-cons c d s h = ap (λ (e : Char). e ∷ s) (Char-path c d h)

-- Joining the parts of a split gives the text back.
pub join-split : (s : String) (sep : Char) → join (split s (code sep)) (sep ∷ "") ≡ s
unfolding split
join-split [] sep = unfold join in refl
join-split (c ∷ s) sep = elim (Bool-cases (code c == code sep)) [
  | inl same ↦
      rw
        (
          same,
          join-cons "" _ _ (split-ne-nil s (code sep)),
          nil-append,
          cons-append,
          nil-append,
          join-split s sep,
        )
        (code-cons sep c s (sym ((==_iff _ _).0 same)))
  | inr other ↦ rw (other, join-push_head c _ _ (split-ne-nil s (code sep)), join-split s sep)
]

-- A text that starts behind the first separator.
pub split_n-cut :
    (n : ℕ) (p : String) (c : Char) (rest : String)
    → Free (code c) p
    → split_n (suc n) (p <> (c ∷ rest)) (code c) ≡ L.◌∷◌ p (split_n n rest (code c))
unfolding split_n push_head
split_n-cut n [] c rest h = rw nil-append (ground arith)
split_n-cut n (d ∷ p) c rest h = rw cons-append (ground (arith, split_n-cut n p c rest h.1))

pub split-cut :
    (p : String) (c : Char) (rest : String)
    → Free (code c) p
    → split (p <> (c ∷ rest)) (code c) ≡ L.◌∷◌ p (split rest (code c))
unfolding split push_head
split-cut [] c rest h = rw nil-append (ground arith)
split-cut (d ∷ p) c rest h = rw cons-append (ground (arith, split-cut p c rest h.1))

pub split_of_Free : (p : String) (sep : ℕ) → Free sep p → split p sep ≡ L.◌∷◌ p L.[]
unfolding split push_head
split_of_Free [] sep h = refl
split_of_Free (d ∷ p) sep h = ground (arith, split_of_Free p sep h.1)

-- Splitting a join gives the parts back, if there is a part and none holds the separator.
pub split-join :
    (ps : List String) (sep : Char)
    → ps ≢ L.[]
    → All (Free (code sep)) ps
    → split (join ps (sep ∷ "")) (code sep) ≡ ps
unfolding join
split-join L.[] sep h _ = absurd (h refl)
split-join (L.◌∷◌ p L.[]) sep h (hp, _) = split_of_Free p (code sep) hp
split-join (L.◌∷◌ p (L.◌∷◌ q ps)) sep h (hp, hps) =
    rw (cons-append, nil-append, split-cut p sep _ hp, split-join (L.◌∷◌ q ps) sep (cc) hps)

-- Cutting off a prefix that is there leaves the rest.
pub strip_prefix-append : (t s : String) → strip_prefix (t <> s) t ≡ some s
unfolding strip_prefix
strip_prefix-append [] s = rw nil-append
strip_prefix-append (c ∷ t) s = rw cons-append (ground (arith, strip_prefix-append t s))

pub append_inj_right : (t s u : String) → t <> s ≡ t <> u → s ≡ u
append_inj_right t s u e = append_cancel_left t s u e

-- What is left of a text without its prefix.
pub strip_prefix_sound : (s t u : String) → strip_prefix s t ≡ some u → s ≡ t <> u
unfolding strip_prefix
strip_prefix_sound s [] u h = rw nil-append (ground arith)
strip_prefix_sound [] (d ∷ t) u h = absurd (ground (arith, h))
strip_prefix_sound (c ∷ s) (d ∷ t) u h = elim (Bool-cases (code c == code d)) [
  | inl same ↦ rw cons-append (
      code-cons c d s ((==_iff _ _).0 same)
      ∙ ap (λ (v : String). d ∷ v) (strip_prefix_sound s t u (ground arith)))
  | inr other ↦ absurd (ground (arith, h, other))
]
