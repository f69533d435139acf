-- ===== src/Metrics/Shared/Entries.antt =====
-- One map of counters, and the goroutines that are in `h.getOrCreate…(key).Add(n)` on it.
use aizen_gate.Base.{
  ℕ, ◌+◌, ◌%◌, ◌^◌, ◌<◌, ◌≡◌, refl, String, Bool, true, false, ◌||◌, ◌&&◌, Option, none, some, List,
  [], ◌∷◌, ◌++◌, arith, str_eq, eq_iff, is_some, if◌then◌else◌, All, Option-cases, inl, inr,
}
use aizen_gate.Base.Dict.{Dict, lookup}
use aizen_gate.Metrics.Counting.{AddedAt}
use aizen_gate.Metrics.Shared.{Table, no_counters, Phase, asking, holding, added, read_cells}

-- The key of a goroutine, what it adds, and where it stands.
abbrev pub Entry : Type 0
Entry = String × ℕ × Phase

-- It has seen a counter under its key.
abbrev pub has_counter : Phase → Bool
has_counter (holding _) = true
has_counter added = true
has_counter _ = false

abbrev pub weight : Phase → ℕ → ℕ
weight added n = n
weight _ n = 0

abbrev pub touches : String → Entry → Bool
touches k (key, n, p) = str_eq key k && has_counter p

abbrev pub share : String → Entry → ℕ
share k (key, n, p) = if str_eq key k then weight p n else 0

unfoldable pub touched : String → List Entry → Bool
touched k [] = false
touched k (e ∷ es) = touches k e || touched k es

unfoldable pub sum_at : String → List Entry → ℕ
sum_at k [] = 0
sum_at k (e ∷ es) = share k e + sum_at k es

pub touched-middle :
    (k : String) (xs : List Entry) (e : Entry) (ys : List Entry)
    → touched k (xs ++ e ∷ ys) ≡ (touches k e || touched k (xs ++ ys))
unfolding touched
touched-middle k [] e ys = refl
touched-middle k (x ∷ xs) e ys = ground (arith, touched-middle k xs e ys)

pub sum_at-middle :
    (k : String) (xs : List Entry) (e : Entry) (ys : List Entry)
    → sum_at k (xs ++ e ∷ ys) ≡ share k e + sum_at k (xs ++ ys)
unfolding sum_at
sum_at-middle k [] e ys = refl
sum_at-middle k (x ∷ xs) e ys = omega (arith, sum_at-middle k xs e ys)

-- The counter under a key.
abbrev pub value : String → Table → ℕ
value k t = elim (lookup k t.index) [ none ↦ 0 | some a ↦ t.cells a ]

-- A pointer that is held is the one in the map.
abbrev pub Holds : Table → Entry → Type 0
Holds t (key, n, holding a) = lookup key t.index ≡ some a
Holds t _ = Unit

-- The counters hold what the goroutines have added.
pub record Accounts (t : Table) (es : List Entry) : Type 0 where
  pub distinct :
      (j k : String) (a : ℕ) → lookup j t.index ≡ some a → lookup k t.index ≡ some a → j ≡ k
  pub taken : (k : String) (a : ℕ) → lookup k t.index ≡ some a → a < t.next
  pub held : All (Holds t) es
  pub present : (k : String) → is_some (lookup k t.index) ≡ touched k es
  pub counted : (k : String) → value k t ≡ sum_at k es % 2 ^ 64

pub no_counters-Accounts : Accounts no_counters []
unfolding lookup touched sum_at
no_counters-Accounts = record {
  distinct = λ j k a e e'. cc;
  taken = λ k a e. absurd (cc);
  held = tt;
  present = λ k. refl;
  counted = λ k. refl;
}

-- A goroutine that has not begun changes nothing.
pub Accounts-arrive :
    (t : Table) (es : List Entry) (key : String) (n : ℕ)
    → Accounts t es
    → Accounts t ((key, n, asking) ∷ es)
unfolding touched sum_at
Accounts-arrive t es key n v = record {
  distinct = v.distinct;
  taken = v.taken;
  held = (tt, v.held);
  present = λ k. ground (arith, v.present k);
  counted = λ k. ground (arith, v.counted k);
}

All-weaken :
    (P Q : Entry → Type 0) (xs : List Entry) → ((x : Entry) → P x → Q x) → All P xs → All Q xs
All-weaken P Q [] h ps = tt
All-weaken P Q (x ∷ xs) h (p, ps) = (h x p, All-weaken P Q xs h ps)

pub All-replace :
    (P Q : Entry → Type 0) (xs : List Entry) (e e' : Entry) (ys : List Entry)
    → ((x : Entry) → P x → Q x)
    → All P (xs ++ e ∷ ys)
    → Q e'
    → All Q (xs ++ e' ∷ ys)
All-replace P Q [] e e' ys h (p, ps) q = (q, All-weaken P Q ys h ps)
All-replace P Q (x ∷ xs) e e' ys h (p, ps) q = (h x p, All-replace P Q xs e e' ys h ps q)

pub All-middle :
    (P : Entry → Type 0) (xs : List Entry) (e : Entry) (ys : List Entry)
    → All P (xs ++ e ∷ ys)
    → P e
All-middle P [] e ys (p, _) = p
All-middle P (x ∷ xs) e ys (_, ps) = All-middle P xs e ys ps

-- What a map with these goroutines shows under a key.
abbrev pub tally : String → List Entry → Option ℕ
tally k es = if touched k es then some (sum_at k es % 2 ^ 64) else none

pub lookup-read_cells :
    (k : String) (index : Dict ℕ) (cells : ℕ → ℕ)
    → lookup k (read_cells index cells)
      ≡ (elim (lookup k index) [ none ↦ none | some a ↦ some (cells a) ])
unfolding read_cells lookup
lookup-read_cells k [] cells = refl
lookup-read_cells k ((j, a) ∷ index) cells = ground (arith, lookup-read_cells k index cells)

pub lookup-tally :
    (t : Table) (es : List Entry) (k : String)
    → Accounts t es
    → lookup k (read_cells t.index t.cells) ≡ tally k es
lookup-tally t es k v = elim (Option-cases (lookup k t.index)) [
  | inl e ↦ ground (arith, lookup-read_cells k t.index t.cells, v.present k, v.counted k)
  | inr (a, e) ↦ ground (arith, lookup-read_cells k t.index t.cells, v.present k, v.counted k)
]

sum_at-untouched : (k : String) (es : List Entry) → touched k es ≡ false → sum_at k es ≡ 0
unfolding touched sum_at
sum_at-untouched k [] e = refl
sum_at-untouched k ((key, n, p) ∷ es) e = ground (arith, sum_at-untouched k es)

-- One call after the others adds the same.
pub tally-AddedAt :
    (key : String) (n : ℕ) (es : List Entry) (m m' : Dict ℕ)
    → ((k : String) → lookup k m ≡ tally k es)
    → AddedAt key n m m'
    → (k : String) → lookup k m' ≡ tally k ((key, n, added) ∷ es)
unfolding touched sum_at
tally-AddedAt key n es m m' h made k =
    ground (arith, made k, h k, h key, eq_iff key k, sum_at-untouched k es, sum_at-untouched key es)
