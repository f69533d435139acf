-- ===== src/Base/Text/Find.antt =====
-- `strings.Contains` on texts with a number inside.
use Prim.Native.Char.{Char, code}
use Prim.Native.String.{String, [], ◌∷◌}
use mathlib.Core.Path.{◌≡◌, refl}
use mathlib.Core.Bool.{Bool, true, false, ◌&&◌, ◌||◌}
use native.Mathlib.Omega.{arith}
use text.Mathlib.TextLemmas.{nil-append, cons-append}
use mathlib.Core.Logic.{inl, inr}
use aizen_gate.Base.Tests.{Bool-cases, ◌==◌, leb, if◌then◌else◌}
use mathlib.Core.Option.{none}
use aizen_gate.Base.Text.{◌<>◌, strip_prefix, has_prefix, contains}

-- A character of a printed number: a digit or the point.
abbrev pub is_decimal : Char → Bool
is_decimal c = leb 48 (code c) && leb (code c) 57 || code c == 46

abbrev pub IsDecimal : String → Type 0
IsDecimal [] = Unit
IsDecimal (c ∷ s) = (is_decimal c ≡ true) × IsDecimal s

-- The texts differ at a place that both have.
unfoldable pub conflicts : String → String → Bool
conflicts [] w = false
conflicts (c ∷ s) [] = false
conflicts (c ∷ s) (d ∷ t) = let rest = conflicts s t in if code c == code d then rest else true

-- The word begins nowhere in the text, whatever follows the text.
unfoldable pub clears : String → String → Bool
unfolding conflicts
clears [] w = true
clears (c ∷ s) w = conflicts (c ∷ s) w && clears s w

strip_prefix-conflicts : (s x w : String) → conflicts s w ≡ true → strip_prefix (s <> x) w ≡ none
unfolding conflicts strip_prefix
strip_prefix-conflicts [] x w h = absurd (ground (arith, h))
strip_prefix-conflicts (c ∷ s) x [] h = absurd (ground (arith, h))
strip_prefix-conflicts (c ∷ s) x (d ∷ t) h =
    rw (cons-append c s x) (ground (arith, strip_prefix-conflicts s x t))

pub contains-clears : (s x w : String) → clears s w ≡ true → contains (s <> x) w ≡ contains x w
unfolding clears contains
contains-clears [] x w h = rw (nil-append x) refl
contains-clears (c ∷ s) x w h =
    let rest = contains-clears s x w (ground (arith, h)) in
    let missed = strip_prefix-conflicts (c ∷ s) x w (ground (arith, h)) in
    rw (cons-append c s x) (ground (arith, rest, rw (cons-append c s x) at missed))

has_prefix-append : (s x w : String) → has_prefix s w ≡ true → has_prefix (s <> x) w ≡ true
unfolding strip_prefix
has_prefix-append s x [] h = refl
has_prefix-append [] x (d ∷ t) h = absurd (ground (arith, h))
has_prefix-append (c ∷ s) x (d ∷ t) h =
    rw (cons-append c s x) (ground (arith, has_prefix-append s x t, h))

-- A word that is found stays found when a text is appended.
pub contains-append : (s x w : String) → contains s w ≡ true → contains (s <> x) w ≡ true
unfolding contains strip_prefix
contains-append [] [] [] h = refl
contains-append [] (c ∷ x) [] h = rw (nil-append (c ∷ x)) refl
contains-append [] x (d ∷ t) h = absurd (ground (arith, h))
contains-append (c ∷ s) x w h = elim (Bool-cases (has_prefix (c ∷ s) w)) [
  | inl here ↦
      let found = rw (cons-append c s x) at (has_prefix-append (c ∷ s) x w here) in
      rw (cons-append c s x) (ground (arith, found))
  | inr later ↦ rw (cons-append c s x) (ground (arith, contains-append s x w, h, later))
]

-- A word that begins with no digit and no point is not found in a number, nor across its end.
pub contains-decimal :
    (n rest : String) (d : Char) (t : String)
    → IsDecimal n
    → is_decimal d ≡ false
    → contains (n <> rest) (d ∷ t) ≡ contains rest (d ∷ t)
unfolding contains strip_prefix
contains-decimal [] rest d t h other = rw (nil-append rest) refl
contains-decimal (c ∷ n) rest d t (h, hs) other =
    rw (cons-append c n rest) (ground (arith, contains-decimal n rest d t hs other))

pub number_lacks :
    (n : String) (d : Char) (t : String)
    → IsDecimal n
    → is_decimal d ≡ false
    → contains n (d ∷ t) ≡ false
unfolding contains strip_prefix
number_lacks [] d t h other = refl
number_lacks (c ∷ n) d t (h, hs) other = ground (arith, number_lacks n d t hs other)
