-- ===== src/Proxy/RequestIds/Sharing.antt =====
-- Goroutines that run `RequestIDMiddleware` of internal/proxy/middleware.go at the same time. The
-- counter is a plain variable: `requestIDCounter++` is a load and a store, and the id is printed
-- from a second load.
use aizen_gate.Base.{
  ℕ, ◌+◌, ◌%◌, ◌^◌, ◌≡◌, ◌≢◌, ◌⊎◌, inl, inr, refl, String, true, false, List, [], ◌∷◌, arith, ◌==◌,
  ==_iff, str_eq, if◌then◌else◌, All,
}
use aizen_gate.Http.{Request, get_header, Part}
use aizen_gate.Proxy.{new_request_id, id_of}

-- Where a goroutine stands that serves a request without an id.
pub data IdPhase : Type 0 where
  waiting : IdPhase
  loaded : ℕ → IdPhase
  stored : IdPhase
  named : String → IdPhase

-- The counter, and the goroutines by their numbers.
pub record IdState : Type 0 where
  pub counter : ℕ
  pub phases : ℕ → IdPhase

-- The next step of a goroutine on the counter, when the clock shows `now`.
unfoldable pub id_move : ℕ → ℕ → IdPhase → ℕ × IdPhase
id_move now c waiting = (c, loaded c)
id_move now c (loaded n) = ((n + 1) % 2 ^ 64, stored)
id_move now c stored = (c, named (new_request_id now c))
id_move now c (named id) = (c, named id)

unfoldable pub id_step : ℕ → ℕ → IdState → IdState
unfolding id_move
id_step now i s =
    let (c, p) = id_move now s.counter (s.phases i) in
    record { counter = c; phases = λ j. if i == j then p else s.phases j }

-- Goroutines that take their steps in an order, all in one millisecond.
unfoldable pub run_ids : ℕ → List ℕ → IdState → IdState
unfolding id_step
run_ids now [] s = s
run_ids now (i ∷ order) s = run_ids now order (id_step now i s)

==_refl : (n : ℕ) → (n == n) ≡ true
==_refl n = ground arith

==-ne : (n m : ℕ) → n ≢ m → (n == m) ≡ false
==-ne n m ne = ground (arith, ne, ==_iff n m)

-- A goroutine whose three steps nobody interrupts does what `id_of` does.
pub run_ids-alone :
    {S : Type 0} (part : Part S ℕ) (now i : ℕ) (r : Request) (s : IdState) (t : S)
    → str_eq (get_header "X-Request-Id" r.headers) "" ≡ true
    → part.get t ≡ s.counter
    → s.phases i ≡ waiting
    → let s' = run_ids now (i ∷ i ∷ i ∷ []) s in
      (s'.counter ≡ part.get (id_of part now r t).0) × (s'.phases i ≡ named (id_of part now r t).1)
unfolding run_ids id_step id_move id_of
run_ids-alone part now i r s t missing same idle = (
  rw (missing, same, ==_refl i, idle) (rw part.get-put refl),
  rw (missing, same, ==_refl i, idle) refl,
)

-- Two goroutines that wait with requests without an id, can take their steps, and no others take
-- any, in an order in which no increment is lost and yet both requests are given one and the same
-- id.
pub same_id_reachable :
    (now i j : ℕ) (s : IdState)
    → i ≢ j
    → s.phases i ≡ waiting
    → s.phases j ≡ waiting
    → (order : List ℕ) × (id : String) × All (λ k. (k ≡ i) ⊎ (k ≡ j)) order
      × ((run_ids now order s).counter ≡ (s.counter + 2) % 2 ^ 64)
      × ((run_ids now order s).phases i ≡ named id)
      × ((run_ids now order s).phases j ≡ named id)
unfolding run_ids id_step id_move
same_id_reachable now i j s ne wi wj =
    let c = (s.counter + 1) % 2 ^ 64 in
    let d = (c + 1) % 2 ^ 64 in
    let ij = ==-ne i j ne in
    let ji = ==-ne j i (λ e. ne (cc)) in
    (
      i ∷ i ∷ j ∷ j ∷ i ∷ j ∷ [],
      new_request_id now d,
      (inl refl, (inl refl, (inr refl, (inr refl, (inl refl, (inr refl, tt)))))),
      rw (==_refl i, ==_refl j, ij, ji, wi, wj) (omega arith),
      rw (==_refl i, ==_refl j, ij, ji, wi, wj) refl,
      rw (==_refl i, ==_refl j, ij, ji, wi, wj) refl,
    )
