-- ===== src/Base/Text.antt =====
-- The functions of Go's package `strings` that the gateway calls, on well-formed UTF-8 texts.
-- Separators and the other bytes that are looked for are ASCII, so code points serve as bytes.
pub mod Laws
pub mod Find
use Prim.Native.Nat.{ℕ, zero, suc, ◌+◌}
use Prim.Native.Char.{Char, code}
use Prim.Native.String
use Prim.Native.String.{String, [], ◌∷◌}
use mathlib.Core.Bool.{Bool, true, false, ◌&&◌, ◌||◌}
use mathlib.Core.Option.{Option, none, some}
use mathlib.Core.List as L
use mathlib.Core.List.{List}
use aizen_gate.Base.Tests.{◌==◌, leb, str_eq, if◌then◌else◌, get_or}

infixr 65 ◌<>◌
abbrev pub ◌<>◌ : String → String → String
s <> t = String.◌++◌ s t

-- A character in front of the first part.
unfoldable pub push_head : Char → List String → List String
push_head c L.[] = L.◌∷◌ (c ∷ "") L.[]
push_head c (L.◌∷◌ p ps) = L.◌∷◌ (c ∷ p) ps

-- strings.Split(s, sep), for a separator of one byte
unfoldable pub split : String → ℕ → List String
unfolding push_head
split [] sep = L.◌∷◌ "" L.[]
split (c ∷ s) sep =
    let rest = split s sep in if code c == sep then L.◌∷◌ "" rest else push_head c rest

-- strings.SplitN(s, sep, n + 1), for a separator of one byte: at most `n` cuts
unfoldable pub split_n : ℕ → String → ℕ → List String
unfolding push_head
split_n zero s sep = L.◌∷◌ s L.[]
split_n (suc n) [] sep = L.◌∷◌ "" L.[]
split_n (suc n) (c ∷ s) sep =
    let cut = split_n n s sep in
    let same = split_n (suc n) s sep in if code c == sep then L.◌∷◌ "" cut else push_head c same

-- strings.Join(ps, sep)
unfoldable pub join : List String → String → String
join L.[] sep = ""
join (L.◌∷◌ p L.[]) sep = p
join (L.◌∷◌ p (L.◌∷◌ q ps)) sep = p <> sep <> join (L.◌∷◌ q ps) sep

-- What follows a prefix.
unfoldable pub strip_prefix : String → String → Option String
strip_prefix s [] = some s
strip_prefix [] (d ∷ t) = none
strip_prefix (c ∷ s) (d ∷ t) =
    let rest = strip_prefix s t in if code c == code d then rest else none

abbrev pub has_prefix : String → String → Bool
has_prefix s t = elim (strip_prefix s t) [ none ↦ false | some _ ↦ true ]

abbrev pub trim_prefix : String → String → String
trim_prefix s t = get_or (strip_prefix s t) s

unfoldable pub has_suffix : String → String → Bool
has_suffix [] t = str_eq "" t
has_suffix (c ∷ s) t = str_eq (c ∷ s) t || has_suffix s t

-- What stands before a suffix.
unfoldable pub strip_suffix : String → String → Option String
strip_suffix [] t = if str_eq "" t then some "" else none
strip_suffix (c ∷ s) t =
    let rest = strip_suffix s t in
    if str_eq (c ∷ s) t then some "" else elim rest [ none ↦ none | some u ↦ some (c ∷ u) ]

abbrev pub trim_suffix : String → String → String
trim_suffix s t = get_or (strip_suffix s t) s

unfoldable pub contains : String → String → Bool
unfolding strip_prefix
contains [] t = has_prefix "" t
contains (c ∷ s) t = has_prefix (c ∷ s) t || contains s t

-- The ASCII characters of unicode.IsSpace.
abbrev pub is_space : Char → Bool
is_space c = code c == 32 || leb 9 (code c) && leb (code c) 13

unfoldable pub trim_left : String → String
trim_left [] = ""
trim_left (c ∷ s) = let rest = trim_left s in if is_space c then rest else c ∷ s

unfoldable pub trim_right : String → String
trim_right [] = ""
trim_right (c ∷ s) =
    let rest = trim_right s in if is_space c && str_eq rest "" then "" else c ∷ rest

-- strings.TrimSpace, for ASCII white space
unfoldable pub trim_space : String → String
unfolding trim_left trim_right
trim_space s = trim_right (trim_left s)
