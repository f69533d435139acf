-- ===== src/Base/Dict.antt =====
-- A Go map with string keys, as an association list in the order of an iteration over it.
use Prim.Native.String.{String}
use mathlib.Core.Path.{◌≡◌, refl}
use mathlib.Core.Bool.{false}
use mathlib.Core.Option.{Option, none, some}
use mathlib.Core.List.{List, [], ◌∷◌}
use native.Mathlib.Omega.{arith}
use text.Mathlib.TextPositions.{eq_refl}
use text.Mathlib.TextEquality.{eq_iff}
use mathlib.Core.Logic.{inl, inr}
use aizen_gate.Base.Tests.{str_eq, Bool-cases, if◌then◌else◌}
use aizen_gate.Base.Lists.{All}

abbrev pub Dict {ℓ} : Type ℓ → Type ℓ
Dict V = List (String × V)

module _ {ℓ} {V : Type ℓ} where
  -- `delete(m, key)`
  unfoldable pub erase : String → Dict V → Dict V
  erase key [] = []
  erase key ((name, item) ∷ more) =
      let kept = erase key more in if str_eq name key then kept else (name, item) ∷ kept

  -- `m[key]`, with its second result
  unfoldable pub lookup : String → Dict V → Option V
  lookup key [] = none
  lookup key ((name, item) ∷ more) =
      let found = lookup key more in if str_eq name key then some item else found

  -- `m[key] = value`: an entry keeps its place.
  unfoldable pub insert : String → V → Dict V → Dict V
  insert key value [] = (key, value) ∷ []
  insert key value ((name, item) ∷ more) =
      let changed = insert key value more in
      if str_eq name key then (key, value) ∷ more else (name, item) ∷ changed

  -- A write is seen under its own key, and changes no other.
  pub lookup-insert :
      (written read : String) (value : V) (m : Dict V)
      → lookup read (insert written value m)
        ≡ (if str_eq written read then some value else lookup read m)
  unfolding insert lookup
  lookup-insert written read value [] = ground arith
  lookup-insert written read value ((name, item) ∷ more) =
      let rest = lookup-insert written read value more in
      ground (arith, rest, eq_iff name written, eq_iff name read, eq_iff written read)

  pub lookup-insert_same : (k : String) (v : V) (m : Dict V) → lookup k (insert k v m) ≡ some v
  lookup-insert_same k v m = ground (arith, lookup-insert k k v m, eq_refl k)

  -- A deletion is seen under its own key, and changes no other.
  pub lookup-erase :
      (gone read : String) (m : Dict V)
      → lookup read (erase gone m) ≡ (if str_eq gone read then none else lookup read m)
  unfolding erase lookup
  lookup-erase gone read [] = ground arith
  lookup-erase gone read ((name, item) ∷ more) =
      let rest = lookup-erase gone read more in
      ground (arith, rest, eq_iff name gone, eq_iff name read, eq_iff gone read)

  -- No key of the map is `k`.
  abbrev pub Lacks : String → Dict V → Type 0
  Lacks k [] = Unit
  Lacks k ((j, _) ∷ m) = (str_eq j k ≡ false) × Lacks k m

  -- Each key is bound once.
  abbrev pub HasUniqueKeys : Dict V → Type 0
  HasUniqueKeys [] = Unit
  HasUniqueKeys ((j, _) ∷ m) = Lacks j m × HasUniqueKeys m

  pub lookup-Lacks : (k : String) (m : Dict V) → Lacks k m → lookup k m ≡ none
  unfolding lookup
  lookup-Lacks k [] h = refl
  lookup-Lacks k ((j, w) ∷ m) (h, hs) = ground (arith, lookup-Lacks k m hs)

  -- Under unique keys, a binding behind the head has another key than the head.
  pub lookup-tail :
      (k j : String) (v w : V) (m : Dict V)
      → Lacks k m
      → lookup j m ≡ some w
      → lookup j ((k, v) ∷ m) ≡ some w
  unfolding lookup
  lookup-tail k j v w m h e = ground (arith, eq_iff k j, lookup-Lacks k m h)

  Lacks-insert :
      (k j : String) (v : V) (m : Dict V) → str_eq k j ≡ false → Lacks j m → Lacks j (insert k v m)
  unfolding insert
  Lacks-insert k j v [] ne h = (ne, tt)
  Lacks-insert k j v ((i, w) ∷ m) ne (h, hs) = ground (arith, Lacks-insert k j v m ne hs)

  -- A write keeps the keys unique.
  pub HasUniqueKeys-insert :
      (k : String) (v : V) (m : Dict V) → HasUniqueKeys m → HasUniqueKeys (insert k v m)
  unfolding insert
  HasUniqueKeys-insert k v [] u = (tt, tt)
  HasUniqueKeys-insert k v ((i, w) ∷ m) (h, u) =
      ground (arith, eq_iff i k, eq_iff k i, Lacks-insert k i v m, HasUniqueKeys-insert k v m u)

  Lacks-erase : (k j : String) (m : Dict V) → Lacks j m → Lacks j (erase k m)
  unfolding erase
  Lacks-erase k j [] h = tt
  Lacks-erase k j ((i, w) ∷ m) (h, hs) = ground (arith, Lacks-erase k j m hs)

  pub HasUniqueKeys-erase : (k : String) (m : Dict V) → HasUniqueKeys m → HasUniqueKeys (erase k m)
  unfolding erase
  HasUniqueKeys-erase k [] u = tt
  HasUniqueKeys-erase k ((i, w) ∷ m) (h, u) =
      ground (arith, Lacks-erase k i m h, HasUniqueKeys-erase k m u)

  pub All-lookup :
      (P : V → Type 0) (k : String) (v : V) (m : Dict V)
      → All (λ e. P e.1) m
      → lookup k m ≡ some v
      → P v
  unfolding lookup
  All-lookup P k v [] h e = absurd (cc)
  All-lookup P k v ((j, w) ∷ m) (h, hs) e = elim (Bool-cases (str_eq j k)) [
    | inl same ↦ let here : w ≡ v = ground arith in rw (← here) h
    | inr other ↦ All-lookup P k v m hs (ground arith)
  ]
