-- ===== src/Metrics/Render.antt =====
-- `ServeHTTP` of internal/metrics/handler.go: the page that Prometheus reads.
use aizen_gate.Base.{
  ℕ, ◌-◌, ◌/◌, ◌≡◌, refl, String, true, Option, none, some, List, [], ◌∷◌, arith, is_some, eq_refl,
  All, Bool-cases, inl, inr, subst, eq_iff, str_eq,
}
use aizen_gate.Base.Dict.{Dict, lookup}
use aizen_gate.Base.Text.{◌<>◌}
use aizen_gate.Base.Decimal.{show, show_int64}
use aizen_gate.Metrics.{
  Metrics, before, sorted_insert, sorted_keys, request_labels, latency_labels, average,
}
use aizen_gate.Metrics.Counting.{IsValid}

infixl 5 ◌>>=◌
abbrev ◌>>=◌ {ℓ κ} : {A : Type ℓ} {B : Type κ} → Option A → (A → Option B) → Option B
none >>= f = none
some a >>= f = f a

-- One round of the loop over the counter keys; `none` is a nil dereference.
unfoldable request_line : Dict ℕ → String → Option String
unfolding request_labels
request_line m key = elim (request_labels key) [
  | none ↦ some ""
  | some (method, path, status) ↦ do
    n ← lookup key m
    some (
        "zengate_requests_total{method=\""
        <> method
        <> "\",path=\""
        <> path
        <> "\",status=\""
        <> status
        <> "\"} "
        <> show_int64 n
        <> "\n")
]

abbrev duration_line : String → String → String → ℕ → String
duration_line suffix method path n =
    "zengate_request_duration_ms_"
    <> suffix
    <> "{method=\""
    <> method
    <> "\",path=\""
    <> path
    <> "\"} "
    <> show_int64 n
    <> "\n"

unfoldable latency_lines : Metrics → String → Option String
unfolding latency_labels average
latency_lines h key = elim (latency_labels key) [
  | none ↦ some ""
  | some (method, path) ↦ do
    sum ← lookup key h.latency_sum
    count ← lookup key h.latency_count
    some (
        duration_line "sum" method path sum
        <> duration_line "count" method path count
        <> duration_line "avg" method path (average sum count))
]

unfoldable write_all : (String → Option String) → List String → Option String
write_all line [] = some ""
write_all line (k ∷ ks) = do first ← line k; rest ← write_all line ks; some (first <> rest)

unfoldable pub serve_http : ℕ → Metrics → Option String
unfolding sorted_keys request_line latency_lines write_all show_int64
serve_http now h = do
  counters ← write_all (request_line h.requests_total) (sorted_keys h.requests_total)
  latencies ← write_all (latency_lines h) (sorted_keys h.latency_sum)
  some (
      "# HELP zengate_requests_total Total number of HTTP requests.\n"
      <> "# TYPE zengate_requests_total counter\n"
      <> counters
      <> "\n# HELP zengate_rate_limited_total Total rate-limited requests.\n"
      <> "# TYPE zengate_rate_limited_total counter\n"
      <> "zengate_rate_limited_total "
      <> show_int64 h.rate_limited_total
      <> "\n"
      <> "\n# HELP zengate_request_duration_ms Request duration in milliseconds.\n"
      <> "# TYPE zengate_request_duration_ms summary\n"
      <> latencies
      <> "\n# HELP zengate_uptime_seconds Gateway uptime in seconds.\n"
      <> "# TYPE zengate_uptime_seconds gauge\n"
      <> "zengate_uptime_seconds "
      <> show ((now - h.start_time) / 1000000000)
      <> "\n")

-- Each key of the list is bound.
abbrev Bound : Dict ℕ → String → Type 0
Bound m k = is_some (lookup k m) ≡ true

sorted_insert-All :
    (P : String → Type 0) (k : String) (ks : List String)
    → P k
    → All P ks
    → All P (sorted_insert k ks)
unfolding sorted_insert
sorted_insert-All P k [] p ps = (p, tt)
sorted_insert-All P k (j ∷ ks) p (q, qs) = ground (arith, sorted_insert-All P k ks p qs)

here-Bound : (j : String) (n : ℕ) (m : Dict ℕ) → Bound ((j, n) ∷ m) j
unfolding lookup
here-Bound j n m = rw (eq_refl j)

there-Bound : (j k : String) (n : ℕ) (m : Dict ℕ) → Bound m k → Bound ((j, n) ∷ m) k
unfolding lookup
there-Bound j k n m b = ground arith

sorted_keys-All :
    (P : String → Type 0) (m : Dict ℕ) → ((k : String) → Bound m k → P k) → All P (sorted_keys m)
unfolding sorted_keys
sorted_keys-All P [] h = tt
sorted_keys-All P ((j, n) ∷ m) h =
    sorted_insert-All P j (sorted_keys m) (h j (here-Bound j n m))
      (sorted_keys-All P m (λ k b. h k (there-Bound j k n m b)))

write_all-is_some :
    (line : String → Option String) (ks : List String)
    → All (λ k. is_some (line k) ≡ true) ks
    → is_some (write_all line ks) ≡ true
unfolding write_all
write_all-is_some line [] h = refl
write_all-is_some line (k ∷ ks) (h, hs) = ground (arith, write_all-is_some line ks hs)

request_line-is_some : (m : Dict ℕ) (k : String) → Bound m k → is_some (request_line m k) ≡ true
unfolding request_line
request_line-is_some m k h = ground arith

latency_lines-is_some :
    (h : Metrics) (k : String)
    → IsValid h
    → Bound h.latency_sum k
    → is_some (latency_lines h k) ≡ true
unfolding latency_lines
latency_lines-is_some h k v b = ground (arith, v.paired k)

-- The printer never dereferences a missing counter in a state that keeps one latency count for each
-- latency sum.
pub serve_http-is_some : (now : ℕ) (h : Metrics) → IsValid h → is_some (serve_http now h) ≡ true
unfolding serve_http
serve_http-is_some now h v = ground (
  arith,
  write_all-is_some (request_line h.requests_total) (sorted_keys h.requests_total)
      (sorted_keys-All _ h.requests_total (request_line-is_some h.requests_total)),
  write_all-is_some (latency_lines h) (sorted_keys h.latency_sum)
      (sorted_keys-All _ h.latency_sum (λ k b. latency_lines-is_some h k v b)),
)

sorted_insert-All-inv :
    (P : String → Type 0) (k : String) (ks : List String)
    → All P (sorted_insert k ks)
    → P k × All P ks
unfolding sorted_insert
sorted_insert-All-inv P k [] h = h
sorted_insert-All-inv P k (j ∷ ks) h = elim (Bool-cases (before k j)) [
  | inl e ↦ ground arith
  | inr e ↦ ground (arith, sorted_insert-All-inv P k ks)
]

-- Each bound key stands in the list.
sorted_keys-at :
    (P : String → Type 0) (m : Dict ℕ) (k : String) → All P (sorted_keys m) → Bound m k → P k
unfolding sorted_keys lookup
sorted_keys-at P [] k h b = absurd (cc)
sorted_keys-at P ((j, n) ∷ m) k h b =
    let (here, there) = sorted_insert-All-inv P j (sorted_keys m) h in
    elim (Bool-cases (str_eq j k)) [
      | inl e ↦ subst P (ground (arith, eq_iff j k)) here
      | inr e ↦ sorted_keys-at P m k there (ground arith)
    ]

write_all-All :
    (line : String → Option String) (ks : List String)
    → is_some (write_all line ks) ≡ true
    → All (λ k. is_some (line k) ≡ true) ks
unfolding write_all
write_all-All line [] h = tt
write_all-All line (k ∷ ks) h = (ground arith, write_all-All line ks (ground arith))

-- A latency sum without its count is a nil dereference.
pub serve_http-unpaired :
    (now : ℕ) (h : Metrics) (k method path : String)
    → latency_labels k ≡ some (method, path)
    → is_some (lookup k h.latency_sum) ≡ true
    → lookup k h.latency_count ≡ none
    → serve_http now h ≡ none
unfolding serve_http latency_lines
serve_http-unpaired now h k method path labels b e =
    let lines : Option String = write_all (latency_lines h) (sorted_keys h.latency_sum) in
    elim (Bool-cases (is_some lines)) [
      | inl wrote ↦
          let line : is_some (latency_lines h k) ≡ true =
            sorted_keys-at _ h.latency_sum k
              (write_all-All (latency_lines h) (sorted_keys h.latency_sum) wrote) b in
          absurd (ground arith)
      | inr stuck ↦ ground arith
    ]
