-- ===== src/Metrics/Shared/Refinement.antt =====
-- `RecordRequest` of internal/metrics/handler.go from several goroutines at a time, next to the
-- same calls one after the other.
use mathlib.Core.List.{Permᴰ}
use aizen_gate.Base.{
  ℕ, ◌%◌, ◌^◌, ◌≡◌, refl, String, List, [], ◌∷◌, map, arith, All, ap, sym, ◌∙◌, subst,
}
use aizen_gate.Base.Dict.{lookup}
use aizen_gate.Metrics.{Metrics, new_handler}
use aizen_gate.Metrics.Counting.{record_request-IsRecorded}
use aizen_gate.Metrics.Shared.{
  Job, request_key, duration_key, elapsed_ms, finished, Thread, System, Reach, view, record_all,
}
use aizen_gate.Metrics.Shared.Entries.{Entry, touched, sum_at, tally, lookup-tally, tally-AddedAt}
use aizen_gate.Metrics.Shared.Kept.{Reach-IsValid}
use aizen_gate.Metrics.Shared.Progress.{request_entry, sum_entry, count_entry, limit_sum, IsValid}

-- Two states of the counters that no reader can tell apart.
pub record Agrees (h h' : Metrics) : Type 0 where
  pub requests : (k : String) → lookup k h.requests_total ≡ lookup k h'.requests_total
  pub limited : h.rate_limited_total ≡ h'.rate_limited_total
  pub sums : (k : String) → lookup k h.latency_sum ≡ lookup k h'.latency_sum
  pub counts : (k : String) → lookup k h.latency_count ≡ lookup k h'.latency_count
  pub started : h.start_time ≡ h'.start_time

module _ (f : Thread → Entry) (k : String) where
  touched-perm : {xs ys : List Thread} → Permᴰ xs ys → touched k (map f xs) ≡ touched k (map f ys)
  unfolding touched
  touched-perm Permᴰ.nil = refl
  touched-perm (Permᴰ.cons {a} {b} e p) = rw (e, touched-perm p) refl
  touched-perm (Permᴰ.swap {a} {b} {a'} {b'} {l} e e') = rw (e, e') (ground arith)
  touched-perm (Permᴰ.trans p q) = touched-perm p ∙ touched-perm q

  sum_at-perm : {xs ys : List Thread} → Permᴰ xs ys → sum_at k (map f xs) ≡ sum_at k (map f ys)
  unfolding sum_at
  sum_at-perm Permᴰ.nil = refl
  sum_at-perm (Permᴰ.cons e p) = rw (e, sum_at-perm p) refl
  sum_at-perm (Permᴰ.swap e e') = rw (e, e') (omega arith)
  sum_at-perm (Permᴰ.trans p q) = sum_at-perm p ∙ sum_at-perm q

abbrev call : Job → Thread
call j = (j, finished)

-- What the calls one after the other count.
record_all-requests :
    (js : List Job) (now : ℕ) (k : String)
    → lookup k (record_all js (new_handler now)).requests_total
      ≡ tally k (map request_entry (map call js))
unfolding record_all new_handler lookup touched
record_all-requests [] now k = refl
record_all-requests (j ∷ js) now k =
    let h : Metrics = record_all js (new_handler now) in
    tally-AddedAt (request_key j) 1 (map request_entry (map call js)) h.requests_total _
      (record_all-requests js now)
      (record_request-IsRecorded j.method j.path j.status j.duration h).counted k

record_all-sums :
    (js : List Job) (now : ℕ) (k : String)
    → lookup k (record_all js (new_handler now)).latency_sum ≡ tally k (map sum_entry (map call js))
unfolding record_all new_handler lookup touched
record_all-sums [] now k = refl
record_all-sums (j ∷ js) now k =
    let h : Metrics = record_all js (new_handler now) in
    tally-AddedAt (duration_key j) (elapsed_ms j) (map sum_entry (map call js)) h.latency_sum _
      (record_all-sums js now)
      (record_request-IsRecorded j.method j.path j.status j.duration h).summed k

record_all-counts :
    (js : List Job) (now : ℕ) (k : String)
    → lookup k (record_all js (new_handler now)).latency_count
      ≡ tally k (map count_entry (map call js))
unfolding record_all new_handler lookup touched
record_all-counts [] now k = refl
record_all-counts (j ∷ js) now k =
    let h : Metrics = record_all js (new_handler now) in
    tally-AddedAt (duration_key j) 1 (map count_entry (map call js)) h.latency_count _
      (record_all-counts js now)
      (record_request-IsRecorded j.method j.path j.status j.duration h).timed k

record_all-limited :
    (js : List Job) (now : ℕ)
    → (record_all js (new_handler now)).rate_limited_total ≡ limit_sum (map call js) % 2 ^ 64
unfolding record_all new_handler limit_sum
record_all-limited [] now = refl
record_all-limited (j ∷ js) now =
    let h : Metrics = record_all js (new_handler now) in
    ground (
      arith,
      record_all-limited js now,
      (record_request-IsRecorded j.method j.path j.status j.duration h).limited,
    )

record_all-started : (js : List Job) (now : ℕ) → (record_all js (new_handler now)).start_time ≡ now
unfolding record_all new_handler
record_all-started [] now = refl
record_all-started (j ∷ js) now =
    let h : Metrics = record_all js (new_handler now) in
    (record_request-IsRecorded j.method j.path j.status j.duration h).started
    ∙ record_all-started js now

abbrev pub IsFinished : Thread → Type 0
IsFinished x = x.1 ≡ finished

call-job : (xs : List Thread) → All IsFinished xs → map call (map (λ (x : Thread). x.0) xs) ≡ xs
call-job [] h = refl
call-job ((j, p) ∷ xs) (e, h) = rw (e, call-job xs h) refl

limit_sum-perm : {xs ys : List Thread} → Permᴰ xs ys → limit_sum xs ≡ limit_sum ys
unfolding limit_sum
limit_sum-perm Permᴰ.nil = refl
limit_sum-perm (Permᴰ.cons e p) = rw (e, limit_sum-perm p) refl
limit_sum-perm (Permᴰ.swap e e') = rw (e, e') (omega arith)
limit_sum-perm (Permᴰ.trans p q) = limit_sum-perm p ∙ limit_sum-perm q

map-perm : {xs ys : List Job} → Permᴰ xs ys → Permᴰ (map call xs) (map call ys)
map-perm Permᴰ.nil = Permᴰ.nil
map-perm (Permᴰ.cons e p) = Permᴰ.cons (ap call e) (map-perm p)
map-perm (Permᴰ.swap e e') = Permᴰ.swap (ap call e) (ap call e')
map-perm (Permᴰ.trans p q) = Permᴰ.trans (map-perm p) (map-perm q)

tally-perm :
    (f : Thread → Entry) (k : String) {xs ys : List Thread}
    → Permᴰ xs ys
    → tally k (map f xs) ≡ tally k (map f ys)
tally-perm f k p = rw (touched-perm f k p, sum_at-perm f k p) refl

-- Whenever all the goroutines that run `RecordRequest` have finished, in whatever order their steps
-- came, the counters are those of the same calls made one after the other, in any order.
pub concurrent-Agrees :
    {s : System} (now : ℕ) (js : List Job)
    → Reach s
    → All IsFinished s.threads
    → Permᴰ (map (λ (x : Thread). x.0) s.threads) js
    → Agrees (view now s.memory) (record_all js (new_handler now))
unfolding view
concurrent-Agrees {s} now js r done order =
    let v : IsValid s = Reach-IsValid r in
    let same : Permᴰ s.threads (map call js) =
      subst (λ xs. Permᴰ xs (map call js)) (call-job s.threads done) (map-perm order) in
    record {
      requests = λ k.
          lookup-tally _ _ k v.requests
          ∙ tally-perm request_entry k same
          ∙ sym (record_all-requests js now k);
      limited =
          v.limited ∙ ap (λ n. n % 2 ^ 64) (limit_sum-perm same) ∙ sym (record_all-limited js now);
      sums = λ k.
          lookup-tally _ _ k v.sums ∙ tally-perm sum_entry k same ∙ sym (record_all-sums js now k);
      counts = λ k.
          lookup-tally _ _ k v.counts
          ∙ tally-perm count_entry k same
          ∙ sym (record_all-counts js now k);
      started = sym (record_all-started js now);
    }
