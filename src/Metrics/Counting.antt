-- ===== src/Metrics/Counting.antt =====
-- What `RecordRequest` of internal/metrics/handler.go changes, and what stays true of the counters.
use aizen_gate.Base.{
  ℕ, ◌+◌, ◌/◌, ◌^◌, ◌≤◌, ◌<◌, ◌≡◌, refl, String, some, [], ◌∷◌, arith, ◌==◌, str_eq, eq_refl,
  is_some, get_or, if◌then◌else◌,
}
use aizen_gate.Base.Dict.{Dict, lookup, insert, lookup-insert}
use aizen_gate.Metrics.{
  Metrics, new_handler, add_int64, bump, counter_key, latency_key, normalize_path, record_request,
  too_many_requests,
}

pub lookup-bump :
    (k j : String) (n : ℕ) (m : Dict ℕ)
    → lookup j (bump k n m)
      ≡ (if str_eq k j then some (add_int64 (get_or (lookup k m) 0) n) else lookup j m)
unfolding bump
lookup-bump k j n m = ground (
  arith,
  lookup-insert k j (add_int64 0 n) (insert k 0 m),
  lookup-insert k j 0 m,
  lookup-insert k j (add_int64 (get_or (lookup k m) 0) n) m,
)

-- The sum over all keys, which the background agents take of a snapshot.
unfoldable pub total : Dict ℕ → ℕ
total [] = 0
total ((_, n) ∷ m) = n + total m

pub total-insert :
    (k : String) (v : ℕ) (m : Dict ℕ) → total (insert k v m) + get_or (lookup k m) 0 ≡ total m + v
unfolding total insert lookup
total-insert k v [] = omega arith
total-insert k v ((j, w) ∷ m) = ground (arith, total-insert k v m)

pub lookup-le-total : (k : String) (m : Dict ℕ) → get_or (lookup k m) 0 ≤ total m
unfolding total lookup
lookup-le-total k [] = omega arith
lookup-le-total k ((j, w) ∷ m) = ground (arith, lookup-le-total k m)

-- While the sum is in range, one more event adds one to it.
pub total-bump : (k : String) (m : Dict ℕ) → total m + 1 < 2 ^ 63 → total (bump k 1 m) ≡ total m + 1
unfolding bump
total-bump k m h = ground (
  arith,
  total-insert k (add_int64 0 1) (insert k 0 m),
  total-insert k 0 m,
  total-insert k (add_int64 (get_or (lookup k m) 0) 1) m,
  lookup-insert k k 0 m,
  eq_refl k,
  lookup-le-total k m,
)

-- One sum is kept for each count, so that the printer finds a count under every key of a sum.
pub record IsValid (h : Metrics) : Type 0 where
  pub paired : (k : String) → is_some (lookup k h.latency_sum) ≡ is_some (lookup k h.latency_count)

pub new_handler-IsValid : (now : ℕ) → IsValid (new_handler now)
unfolding new_handler lookup
new_handler-IsValid now = record { paired = λ k. refl }

paired-bump :
    (key k : String) (n : ℕ) (a b : Dict ℕ)
    → is_some (lookup k a) ≡ is_some (lookup k b)
    → is_some (lookup k (bump key n a)) ≡ is_some (lookup k (bump key 1 b))
paired-bump key k n a b e = ground (arith, lookup-bump key k n a, lookup-bump key k 1 b)

-- Recording a request keeps a latency count under exactly the keys that have a latency sum.
pub record_request-IsValid :
    (method path : String) (status duration : ℕ) (h : Metrics)
    → IsValid h
    → IsValid (record_request method path status duration h)
unfolding record_request
record_request-IsValid method path status duration h v = record {
  paired = λ k. ground (
    arith,
    paired-bump (latency_key method (normalize_path path)) k (duration / 1000000) h.latency_sum
        h.latency_count (v.paired k),
  );
}

-- `m'` is `m` with `n` added at one key.
abbrev pub AddedAt : String → ℕ → Dict ℕ → Dict ℕ → Type 0
AddedAt key n m m' =
    (k : String)
    → lookup k m'
      ≡ (if str_eq key k then some (add_int64 (get_or (lookup key m) 0) n) else lookup k m)

-- What a request with these four values adds to the metrics.
pub record IsRecorded (method path : String) (status duration : ℕ) (h h' : Metrics) : Type 0 where
  pub counted :
      AddedAt (counter_key method (normalize_path path) status) 1 h.requests_total h'.requests_total
  pub summed :
      AddedAt
        (latency_key method (normalize_path path))
        (duration / 1000000)
        h.latency_sum
        h'.latency_sum
  pub timed : AddedAt (latency_key method (normalize_path path)) 1 h.latency_count h'.latency_count
  pub limited : h'.rate_limited_total ≡ (
      if status == too_many_requests
      then add_int64 h.rate_limited_total 1
      else h.rate_limited_total)
  pub started : h'.start_time ≡ h.start_time

-- Recording a request adds one to the counter of its method, normalised path and status, and to the
-- latency count of its method and normalised path, adds its milliseconds to the latency sum there,
-- counts it as rate limited exactly if the status is 429, and leaves every other counter as it was.
pub record_request-IsRecorded :
    (method path : String) (status duration : ℕ) (h : Metrics)
    → IsRecorded method path status duration h (record_request method path status duration h)
unfolding record_request
record_request-IsRecorded method path status duration h =
    let c = counter_key method (normalize_path path) status in
    let l = latency_key method (normalize_path path) in
    record {
      counted = λ k. ground (arith, lookup-bump c k 1 h.requests_total);
      summed = λ k. ground (arith, lookup-bump l k (duration / 1000000) h.latency_sum);
      timed = λ k. ground (arith, lookup-bump l k 1 h.latency_count);
      limited = ground arith;
      started = ground arith;
    }

-- While fewer than 2^63 - 1 requests have been counted, recording a request adds one to the sum of
-- all request counters, which is what the background agents compare from one tick to the next.
pub total-record_request :
    (method path : String) (status duration : ℕ) (h : Metrics)
    → total h.requests_total + 1 < 2 ^ 63
    → total (record_request method path status duration h).requests_total
      ≡ total h.requests_total + 1
unfolding record_request
total-record_request method path status duration h bound =
    ground
      (arith, total-bump (counter_key method (normalize_path path) status) h.requests_total bound)
