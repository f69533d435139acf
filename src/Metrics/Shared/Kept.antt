-- ===== src/Metrics/Shared/Kept.antt =====
-- Each step of a goroutine in `RecordRequest` of internal/metrics/handler.go keeps the books.
use aizen_gate.Base.{
  ℕ, ◌+◌, ◌%◌, ◌^◌, ◌≡◌, refl, String, List, ◌∷◌, ◌++◌, map, arith, ap, sym, ◌∙◌, ◌⊎◌, inl, inr,
  subst,
}
use aizen_gate.Metrics.Shared.{
  Table, Phase, asking, missing, holding, added, advance, Job, request_key, duration_key,
  elapsed_ms, Memory, Pc, at_requests, at_sums, at_counts, at_limit, finished, then_go, step,
  Thread, System, Step, arrive, run, Reach, initial, later,
}
use aizen_gate.Metrics.Shared.Entries.{Entry, Accounts, no_counters-Accounts, Accounts-arrive}
use aizen_gate.Metrics.Shared.Moves.{advance-Accounts}
use aizen_gate.Metrics.Shared.Progress.{
  in_requests, in_sums, in_counts, request_entry, sum_entry, count_entry, limit_share, limit_sum,
  IsValid, map-middle, limit_sum-middle,
}

-- A goroutine stays where it is at a map, or makes a step of `h.getOrCreate…(key).Add(n)`.
abbrev Moves : String → ℕ → Table → Phase → Table × Phase → Type 0
Moves key n t p q = ◌≡◌ {A = Table × Phase} q (t, p) ⊎ (q ≡ advance key n t p)

Accounts-Moves :
    (f : Thread → Entry) (xs : List Thread) (x x' : Thread) (ys : List Thread) (key : String)
    (n : ℕ) (t : Table) (p : Phase) (q : Table × Phase)
    → f x ≡ (key, n, p)
    → f x' ≡ (key, n, q.1)
    → Moves key n t p q
    → Accounts t (map f (xs ++ x ∷ ys))
    → Accounts q.0 (map f (xs ++ x' ∷ ys))
Accounts-Moves f xs x x' ys key n t p q e e' m v =
    let w : Accounts t (map f xs ++ (key, n, p) ∷ map f ys) =
      rw (sym e) (rw (sym (map-middle f xs x ys)) v) in
    let After : Table × Phase → Type 0 = λ q. Accounts q.0 (map f xs ++ (key, n, q.1) ∷ map f ys) in
    let u : After q = elim m [
      | inl stays ↦ subst After (sym stays) w
      | inr goes ↦ subst After (sym goes) (advance-Accounts (map f xs) (map f ys) key n t p w)
    ] in
    rw (map-middle f xs x' ys, e') u

-- At the map of the step itself, and at another map.
same_map :
    (f : Pc → Phase) (here : Phase → Pc) (next : Pc) (p : Phase)
    → ((p : Phase) → f (here p) ≡ p)
    → f next ≡ added
    → f (then_go here next p) ≡ p
same_map f here next asking h e = h asking
same_map f here next missing h e = h missing
same_map f here next (holding a) h e = h (holding a)
same_map f here next added h e = e

other_map :
    (f : Pc → Phase) (here : Phase → Pc) (next : Pc) (p c : Phase)
    → ((p : Phase) → f (here p) ≡ c)
    → f next ≡ c
    → f (then_go here next p) ≡ c
other_map f here next asking c h e = h asking
other_map f here next missing c h e = h missing
other_map f here next (holding a) c h e = h (holding a)
other_map f here next added c h e = e

abbrev requests_next : Job → Memory → Phase → Phase
requests_next j m p = (advance (request_key j) 1 m.requests p).1

abbrev sums_next : Job → Memory → Phase → Phase
sums_next j m p = (advance (duration_key j) (elapsed_ms j) m.sums p).1

abbrev counts_next : Job → Memory → Phase → Phase
counts_next j m p = (advance (duration_key j) 1 m.counts p).1

abbrev with_table : Table → Phase → Table × Phase
with_table t p = (t, p)

requests-Moves :
    (j : Job) (m : Memory) (p : Pc)
    → Moves
        (request_key j)
        1
        m.requests
        (in_requests p)
        (with_table (step j m p).0.requests (in_requests (step j m p).1))
unfolding step
requests-Moves j m (at_requests p) = inr (
    ap (with_table _)
      (same_map in_requests at_requests (at_sums asking) (requests_next j m p) (λ p. refl) refl))
requests-Moves j m (at_sums p) = inl (
    ap (with_table _)
      (other_map in_requests at_sums (at_counts asking) (sums_next j m p) _ (λ p. refl) refl))
requests-Moves j m (at_counts p) = inl (
    ap (with_table _)
      (other_map in_requests at_counts at_limit (counts_next j m p) _ (λ p. refl) refl))
requests-Moves j m at_limit = inl (ground arith)
requests-Moves j m finished = inl refl

sums-Moves :
    (j : Job) (m : Memory) (p : Pc)
    → Moves
        (duration_key j)
        (elapsed_ms j)
        m.sums
        (in_sums p)
        (with_table (step j m p).0.sums (in_sums (step j m p).1))
unfolding step
sums-Moves j m (at_requests p) = inl (
    ap (with_table _)
      (other_map in_sums at_requests (at_sums asking) (requests_next j m p) _ (λ p. refl) refl))
sums-Moves j m (at_sums p) = inr (
    ap (with_table _)
      (same_map in_sums at_sums (at_counts asking) (sums_next j m p) (λ p. refl) refl))
sums-Moves j m (at_counts p) = inl (
    ap (with_table _) (other_map in_sums at_counts at_limit (counts_next j m p) _ (λ p. refl) refl))
sums-Moves j m at_limit = inl (ground arith)
sums-Moves j m finished = inl refl

counts-Moves :
    (j : Job) (m : Memory) (p : Pc)
    → Moves
        (duration_key j)
        1
        m.counts
        (in_counts p)
        (with_table (step j m p).0.counts (in_counts (step j m p).1))
unfolding step
counts-Moves j m (at_requests p) = inl (
    ap (with_table _)
      (other_map in_counts at_requests (at_sums asking) (requests_next j m p) _ (λ p. refl) refl))
counts-Moves j m (at_sums p) = inl (
    ap (with_table _)
      (other_map in_counts at_sums (at_counts asking) (sums_next j m p) _ (λ p. refl) refl))
counts-Moves j m (at_counts p) =
    inr (
      ap (with_table _)
        (same_map in_counts at_counts at_limit (counts_next j m p) (λ p. refl) refl))
counts-Moves j m at_limit = inl (ground arith)
counts-Moves j m finished = inl refl

limit_share-then_go :
    (j : Job) (here : Phase → Pc) (next : Pc) (p : Phase)
    → ((p : Phase) → limit_share (j, here p) ≡ 0)
    → limit_share (j, next) ≡ 0
    → limit_share (j, then_go here next p) ≡ 0
limit_share-then_go j here next asking h e = h asking
limit_share-then_go j here next missing h e = h missing
limit_share-then_go j here next (holding a) h e = h (holding a)
limit_share-then_go j here next added h e = e

limited-step :
    (j : Job) (m : Memory) (p : Pc) (rest : ℕ)
    → m.limited ≡ (limit_share (j, p) + rest) % 2 ^ 64
    → (step j m p).0.limited ≡ (limit_share (j, (step j m p).1) + rest) % 2 ^ 64
unfolding step
limited-step j m (at_requests p) rest e =
    e
    ∙ ap (λ n. (n + rest) % 2 ^ 64)
        (sym (
          limit_share-then_go j at_requests (at_sums asking) (requests_next j m p) (λ p. refl)
            refl))
limited-step j m (at_sums p) rest e =
    e
    ∙ ap (λ n. (n + rest) % 2 ^ 64)
        (sym (limit_share-then_go j at_sums (at_counts asking) (sums_next j m p) (λ p. refl) refl))
limited-step j m (at_counts p) rest e =
    e
    ∙ ap (λ n. (n + rest) % 2 ^ 64)
        (sym (limit_share-then_go j at_counts at_limit (counts_next j m p) (λ p. refl) refl))
limited-step j m at_limit rest e = ground arith
limited-step j m finished rest e = e

limit_sum-step :
    (j : Job) (m : Memory) (p : Pc) (xs ys : List Thread)
    → m.limited ≡ limit_sum (xs ++ (j, p) ∷ ys) % 2 ^ 64
    → (step j m p).0.limited ≡ limit_sum (xs ++ (j, (step j m p).1) ∷ ys) % 2 ^ 64
limit_sum-step j m p xs ys e =
    let cut : ℕ → ℕ = λ n. n % 2 ^ 64 in
    limited-step j m p (limit_sum (xs ++ ys)) (e ∙ ap cut (limit_sum-middle xs (j, p) ys))
    ∙ ap cut (sym (limit_sum-middle xs (j, (step j m p).1) ys))

Step-IsValid : {s t : System} → Step s t → IsValid s → IsValid t
unfolding limit_sum
Step-IsValid {s} (arrive j) v = record {
  requests = Accounts-arrive _ _ _ _ v.requests;
  sums = Accounts-arrive _ _ _ _ v.sums;
  counts = Accounts-arrive _ _ _ _ v.counts;
  limited = omega (arith, v.limited);
}
Step-IsValid {s} (run xs ys j p e) v =
    let m = s.memory in
    let p' = (step j m p).1 in
    let At : (Thread → Entry) → Table → Type 0 = λ f t. Accounts t (map f (xs ++ (j, p) ∷ ys)) in
    record {
      requests =
          Accounts-Moves request_entry xs (j, p) (j, p') ys _ _ _ _ _ refl refl
            (requests-Moves j m p)
            (subst (λ l. Accounts m.requests (map request_entry l)) e v.requests);
      sums =
          Accounts-Moves sum_entry xs (j, p) (j, p') ys _ _ _ _ _ refl refl (sums-Moves j m p)
            (subst (λ l. Accounts m.sums (map sum_entry l)) e v.sums);
      counts =
          Accounts-Moves count_entry xs (j, p) (j, p') ys _ _ _ _ _ refl refl (counts-Moves j m p)
            (subst (λ l. Accounts m.counts (map count_entry l)) e v.counts);
      limited = limit_sum-step j m p xs ys (v.limited ∙ ap (λ l. limit_sum l % 2 ^ 64) e);
    }

pub Reach-IsValid : {s : System} → Reach s → IsValid s
unfolding limit_sum
Reach-IsValid initial = record {
  requests = no_counters-Accounts;
  sums = no_counters-Accounts;
  counts = no_counters-Accounts;
  limited = refl;
}
Reach-IsValid (later r st) = Step-IsValid st (Reach-IsValid r)
