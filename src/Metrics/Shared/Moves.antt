-- ===== src/Metrics/Shared/Moves.antt =====
-- One step of `h.getOrCreate…(key).Add(n)` of internal/metrics/handler.go, among other goroutines.
use aizen_gate.Base.{
  ℕ, suc, ◌+◌, ◌%◌, ◌^◌, ◌<◌, ◌≡◌, String, ◌||◌, none, some, List, ◌∷◌, ◌++◌, arith, eq_iff,
  is_some, Option-cases, inl, inr, ap, sym, ◌∙◌,
}
use aizen_gate.Base.Dict.{lookup, insert, lookup-insert, lookup-insert_same}
use aizen_gate.Metrics.Shared.{
  Table, Phase, asking, missing, holding, added, set_cell, find, create, add_at, advance,
}
use aizen_gate.Metrics.Shared.Entries.{
  Entry, touches, share, touched, sum_at, value, Holds, Accounts, touched-middle, sum_at-middle,
  All-replace, All-middle,
}

module _ (xs ys : List Entry) (key : String) (n : ℕ) where
  -- What one step of the goroutine at `p` has to show.
  moved :
      (t t' : Table) (p p' : Phase)
      → Accounts t (xs ++ (key, n, p) ∷ ys)
      → ((j k : String) (a : ℕ) → lookup j t'.index ≡ some a → lookup k t'.index ≡ some a → j ≡ k)
      → ((k : String) (a : ℕ) → lookup k t'.index ≡ some a → a < t'.next)
      → ((x : Entry) → Holds t x → Holds t' x)
      → Holds t' (key, n, p')
      → ((k : String)
          → is_some (lookup k t.index) ≡ (touches k (key, n, p) || touched k (xs ++ ys))
          → is_some (lookup k t'.index) ≡ (touches k (key, n, p') || touched k (xs ++ ys)))
      → ((k : String)
          → value k t ≡ (share k (key, n, p) + sum_at k (xs ++ ys)) % 2 ^ 64
          → value k t' ≡ (share k (key, n, p') + sum_at k (xs ++ ys)) % 2 ^ 64)
      → Accounts t' (xs ++ (key, n, p') ∷ ys)
  moved t t' p p' v distinct taken kept held present counted = record {
    distinct = distinct;
    taken = taken;
    held = All-replace (Holds t) (Holds t') xs (key, n, p) (key, n, p') ys kept v.held held;
    present = λ k.
        present k (v.present k ∙ touched-middle k xs (key, n, p) ys)
        ∙ sym (touched-middle k xs (key, n, p') ys);
    counted = λ k.
        counted k (v.counted k ∙ ap (λ s. s % 2 ^ 64) (sum_at-middle k xs (key, n, p) ys))
        ∙ ap (λ s. s % 2 ^ 64) (sym (sum_at-middle k xs (key, n, p') ys));
  }

  find-Accounts :
      (t : Table)
      → Accounts t (xs ++ (key, n, asking) ∷ ys)
      → Accounts t (xs ++ (key, n, find key t) ∷ ys)
  unfolding find
  find-Accounts t v = elim (Option-cases (lookup key t.index)) [
    | inl e ↦
        rw (e, find)
          (moved t t asking missing v v.distinct v.taken (λ x h. h) tt (λ k h. h) (λ k h. h))
    | inr (a, e) ↦
        rw (e, find)
          (moved t t asking (holding a) v v.distinct v.taken (λ x h. h) e
            (λ k h. ground (arith, eq_iff key k)) (λ k h. ground arith))
  ]

  abbrev created : Table → Table
  created t = record {
    index = insert key t.next t.index;
    cells = set_cell t.next 0 t.cells;
    next = suc t.next;
  }

  -- A counter that is made under the write lock changes no other, and no pointer that is held.
  created-Accounts :
      (t : Table)
      → Accounts t (xs ++ (key, n, missing) ∷ ys)
      → lookup key t.index ≡ none
      → Accounts (created t) (xs ++ (key, n, holding t.next) ∷ ys)
  created-Accounts t v e =
      moved t (created t) missing (holding t.next) v
        (λ j k a ej ek. ground (
          arith,
          lookup-insert key j t.next t.index,
          lookup-insert key k t.next t.index,
          v.taken j a,
          v.taken k a,
          v.distinct j k a,
          eq_iff key j,
          eq_iff key k,
        ))
        (λ k a ek. ground (arith, lookup-insert key k t.next t.index, v.taken k a)) (λ x. kept x)
        (lookup-insert_same key t.next t.index)
        (λ k h. ground (arith, lookup-insert key k t.next t.index)) (λ k h. counted k h)
    where
      counted :
          (k : String)
          → value k t ≡ (share k (key, n, missing) + sum_at k (xs ++ ys)) % 2 ^ 64
          → value k (created t) ≡ (share k (key, n, holding t.next) + sum_at k (xs ++ ys)) % 2 ^ 64
      counted k h = elim (Option-cases (lookup k t.index)) [
        | inl f ↦ ground (arith, lookup-insert key k t.next t.index)
        | inr (b, f) ↦ ground (arith, lookup-insert key k t.next t.index, v.taken k b, eq_iff key k)
      ]

      kept : (x : Entry) → Holds t x → Holds (created t) x
      kept (k, m, holding a) h = ground (arith, lookup-insert key k t.next t.index, eq_iff key k)
      kept (k, m, asking) h = tt
      kept (k, m, missing) h = tt
      kept (k, m, added) h = tt

  create-Accounts :
      (t : Table)
      → Accounts t (xs ++ (key, n, missing) ∷ ys)
      → Accounts (create key t).0 (xs ++ (key, n, (create key t).1) ∷ ys)
  unfolding create
  create-Accounts t v = elim (Option-cases (lookup key t.index)) [
    | inl e ↦ rw (e, create) (created-Accounts t v e)
    | inr (a, e) ↦
        rw (e, create)
          (moved t t missing (holding a) v v.distinct v.taken (λ x h. h) e
            (λ k h. ground (arith, eq_iff key k)) (λ k h. ground arith))
  ]

  add_at-Accounts :
      (t : Table) (a : ℕ)
      → Accounts t (xs ++ (key, n, holding a) ∷ ys)
      → Accounts (add_at a n t) (xs ++ (key, n, added) ∷ ys)
  unfolding add_at
  add_at-Accounts t a v =
      let e : lookup key t.index ≡ some a = All-middle (Holds t) xs (key, n, holding a) ys v.held in
      moved t (add_at a n t) (holding a) added v v.distinct v.taken (λ x h. kept x h) tt (λ k h. h)
        (λ k h. counted k e h)
    where
      counted :
          (k : String)
          → lookup key t.index ≡ some a
          → value k t ≡ (share k (key, n, holding a) + sum_at k (xs ++ ys)) % 2 ^ 64
          → value k (add_at a n t) ≡ (share k (key, n, added) + sum_at k (xs ++ ys)) % 2 ^ 64
      counted k e h = elim (Option-cases (lookup k t.index)) [
        | inl f ↦ ground (arith, eq_iff key k)
        | inr (b, f) ↦ ground (arith, v.distinct key k a, eq_iff key k)
      ]

      kept : (x : Entry) → Holds t x → Holds (add_at a n t) x
      kept (k, m, holding b) h = h
      kept (k, m, asking) h = tt
      kept (k, m, missing) h = tt
      kept (k, m, added) h = tt

  -- No step of a goroutine loses what another has added, whoever makes the counter first.
  pub advance-Accounts :
      (t : Table) (p : Phase)
      → Accounts t (xs ++ (key, n, p) ∷ ys)
      → Accounts (advance key n t p).0 (xs ++ (key, n, (advance key n t p).1) ∷ ys)
  unfolding advance
  advance-Accounts t asking v = find-Accounts t v
  advance-Accounts t missing v = create-Accounts t v
  advance-Accounts t (holding a) v = add_at-Accounts t a v
  advance-Accounts t added v = v
