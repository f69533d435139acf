-- ===== src/Metrics/Shared/Scrape.antt =====
-- `ServeHTTP` of internal/metrics/handler.go while goroutines are in `RecordRequest`.
use aizen_gate.Base.{
  ℕ, suc, ◌≡◌, refl, String, true, none, List, [], ◌∷◌, arith, All, subst, is_some, false, map,
  Option-cases, inl, inr,
}
use aizen_gate.Base.Dict.{lookup, insert, lookup-insert_same}
use aizen_gate.Base.Text.Laws.{Free}
use aizen_gate.Metrics.{normalize_path}
use aizen_gate.Metrics.Render.{serve_http, serve_http-is_some, serve_http-unpaired}
use aizen_gate.Metrics.Labels.{labels-latency_key}
use aizen_gate.Metrics.Shared.{
  Table, asking, missing, holding, find, create, Job, request_key, duration_key, Memory, Pc,
  at_requests, at_sums, at_counts, at_limit, finished, step, Thread, System, arrive, run, Reach,
  later, view, read_cells, set_cell, add_at,
}
use aizen_gate.Metrics.Shared.Entries.{touched, has_counter, lookup-read_cells, lookup-tally}
use aizen_gate.Metrics.Shared.Kept.{Reach-IsValid}
use aizen_gate.Metrics.Shared.Progress.{sum_entry, count_entry, in_sums, in_counts, IsValid}

abbrev system : Memory → List Thread → System
system m ts = record { memory = m; threads = ts }

-- The last goroutine that came in makes a step.
go :
    (m m' : Memory) (j : Job) (p p' : Pc) (ts : List Thread)
    → ◌≡◌ {A = Memory × Pc} (step j m p) (m', p')
    → Reach (system m ((j, p) ∷ ts))
    → Reach (system m' ((j, p') ∷ ts))
go m m' j p p' ts e r =
    subst (λ (q : Memory × Pc). Reach (system q.0 ((j, q.1) ∷ ts))) e (later r (run [] ts j p refl))

abbrev made : String → Table → Table
made key t = record {
  index = insert key t.next t.index;
  cells = set_cell t.next 0 t.cells;
  next = suc t.next;
}

abbrev set_requests : Memory → Table → Memory
set_requests m t = record m { requests = t }

abbrev set_sums : Memory → Table → Memory
set_sums m t = record m { sums = t }

-- It comes to the latency sums.
at_sums-Reach :
    (m : Memory) (j : Job) (ts : List Thread)
    → Reach (system m ((j, at_requests asking) ∷ ts))
    → (t : Table) × Reach (system (set_requests m t) ((j, at_sums asking) ∷ ts))
unfolding step find create add_at
at_sums-Reach m j ts r =
    let key : String = request_key j in
    let t : Table = m.requests in
    elim (Option-cases (lookup key t.index)) [
      | inr (a, e) ↦ (
        add_at a 1 t,
        go m (set_requests m (add_at a 1 t)) j (at_requests (holding a)) (at_sums asking) ts refl
            (go m m j (at_requests asking) (at_requests (holding a)) ts (rw (e, find) refl) r),
      )
      | inl e ↦ (
        add_at t.next 1 (made key t),
        go (set_requests m (made key t)) (set_requests m (add_at t.next 1 (made key t))) j
            (at_requests (holding t.next)) (at_sums asking) ts refl
            (go m (set_requests m (made key t)) j (at_requests missing)
              (at_requests (holding t.next)) ts (rw (e, create) refl)
              (go m m j (at_requests asking) (at_requests missing) ts (rw (e, find) refl) r)),
      )
    ]

-- It has made a latency sum.
made_sum-Reach :
    (m : Memory) (j : Job) (ts : List Thread)
    → lookup (duration_key j) m.sums.index ≡ none
    → Reach (system m ((j, at_sums asking) ∷ ts))
    → Reach (
        system
          (set_sums m (made (duration_key j) m.sums))
          ((j, at_sums (holding m.sums.next)) ∷ ts))
unfolding step find create
made_sum-Reach m j ts e r =
    go m (set_sums m (made (duration_key j) m.sums)) j (at_sums missing)
      (at_sums (holding m.sums.next)) ts (rw (e, create) refl)
      (go m m j (at_sums asking) (at_sums missing) ts (rw (e, find) refl) r)

-- A goroutine comes to the counts behind the sums.
counts_after_sums :
    (k : String) (ts : List Thread)
    → touched k (map sum_entry ts) ≡ false
    → touched k (map count_entry ts) ≡ false
unfolding touched
counts_after_sums k [] e = refl
counts_after_sums k ((j, at_requests p) ∷ ts) e = ground (arith, counts_after_sums k ts)
counts_after_sums k ((j, at_sums p) ∷ ts) e = ground (arith, counts_after_sums k ts)
counts_after_sums k ((j, at_counts p) ∷ ts) e = ground (arith, counts_after_sums k ts)
counts_after_sums k ((j, at_limit) ∷ ts) e = ground (arith, counts_after_sums k ts)
counts_after_sums k ((j, finished) ∷ ts) e = ground (arith, counts_after_sums k ts)

no_count :
    {s : System} (k : String)
    → Reach s
    → lookup k s.memory.sums.index ≡ none
    → lookup k (read_cells s.memory.counts.index s.memory.counts.cells) ≡ none
no_count {s} k r e =
    let v : IsValid s = Reach-IsValid r in
    ground (
      arith,
      v.sums.present k,
      counts_after_sums k s.threads,
      lookup-tally s.memory.counts (map count_entry s.threads) k v.counts,
    )

-- In every state that the goroutines can reach, the first request of a method and path can be
-- followed to a point where a scrape dereferences nil: its latency sum is in the map, and its
-- latency count is not.
pub scrape_panics :
    {s : System} (j : Job)
    → Reach s
    → Free b':' j.method
    → lookup (duration_key j) s.memory.sums.index ≡ none
    → (t : System) × Reach t
      × (t.threads ≡ (j, at_sums (holding s.memory.sums.next)) ∷ s.threads)
      × ((started now : ℕ) → serve_http now (view started t.memory) ≡ none)
unfolding view read_cells
scrape_panics {s} j r free fresh =
    let (t, at_sums_now) = at_sums-Reach s.memory j s.threads (later r (arrive j)) in
    let m : Memory = set_requests s.memory t in
    let key : String = duration_key j in
    let here : Reach
        (system (set_sums m (made key m.sums)) ((j, at_sums (holding m.sums.next)) ∷ s.threads)) =
      made_sum-Reach m j s.threads fresh at_sums_now in
    (
      system (set_sums m (made key m.sums)) ((j, at_sums (holding m.sums.next)) ∷ s.threads),
      here,
      refl,
      λ started now.
          serve_http-unpaired now _ key j.method (normalize_path j.path)
            (labels-latency_key j.method (normalize_path j.path) free)
            (ground (
              arith,
              lookup-read_cells key (made key m.sums).index (made key m.sums).cells,
              lookup-insert_same key m.sums.next m.sums.index,
            ))
            (no_count key r fresh),
    )

-- The goroutine is not between the two latency maps.
abbrev pub IsOutside : Thread → Type 0
IsOutside x = has_counter (in_sums x.1) ≡ has_counter (in_counts x.1)

touched-Outside :
    (k : String) (ts : List Thread)
    → All IsOutside ts
    → touched k (map sum_entry ts) ≡ touched k (map count_entry ts)
unfolding touched
touched-Outside k [] h = refl
touched-Outside k ((j, p) ∷ ts) (e, h) = rw (e, touched-Outside k ts h) refl

-- While no goroutine is between its latency sum and its latency count, a scrape answers.
pub scrape-is_some :
    {s : System} (started now : ℕ)
    → Reach s
    → All IsOutside s.threads
    → is_some (serve_http now (view started s.memory)) ≡ true
unfolding view
scrape-is_some {s} started now r outside =
    let v : IsValid s = Reach-IsValid r in
    serve_http-is_some now (view started s.memory) (record {
      paired = λ k. ground (
        arith,
        lookup-tally _ _ k v.sums,
        lookup-tally _ _ k v.counts,
        touched-Outside k s.threads outside,
      );
    })
