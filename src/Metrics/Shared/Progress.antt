-- ===== src/Metrics/Shared/Progress.antt =====
-- What the goroutines in `RecordRequest` of internal/metrics/handler.go have done so far.
use aizen_gate.Base.{
  ℕ, ◌+◌, ◌%◌, ◌^◌, ◌≡◌, refl, List, [], ◌∷◌, ◌++◌, map, arith, if◌then◌else◌, ◌==◌,
}
use aizen_gate.Metrics.{too_many_requests}
use aizen_gate.Metrics.Shared.{
  Phase, asking, added, request_key, duration_key, elapsed_ms, Pc, at_requests, at_sums, at_counts,
  finished, Thread, System,
}
use aizen_gate.Metrics.Shared.Entries.{Entry, Accounts}

-- Where a goroutine stands at each of the three maps.
abbrev pub in_requests : Pc → Phase
in_requests (at_requests p) = p
in_requests _ = added

abbrev pub in_sums : Pc → Phase
in_sums (at_requests _) = asking
in_sums (at_sums p) = p
in_sums _ = added

abbrev pub in_counts : Pc → Phase
in_counts (at_requests _) = asking
in_counts (at_sums _) = asking
in_counts (at_counts p) = p
in_counts _ = added

abbrev pub request_entry : Thread → Entry
request_entry (j, p) = (request_key j, 1, in_requests p)

abbrev pub sum_entry : Thread → Entry
sum_entry (j, p) = (duration_key j, elapsed_ms j, in_sums p)

abbrev pub count_entry : Thread → Entry
count_entry (j, p) = (duration_key j, 1, in_counts p)

abbrev pub limit_share : Thread → ℕ
limit_share (j, finished) = if j.status == too_many_requests then 1 else 0
limit_share _ = 0

unfoldable pub limit_sum : List Thread → ℕ
limit_sum [] = 0
limit_sum (x ∷ xs) = limit_share x + limit_sum xs

-- Each map holds what the goroutines have added to it so far.
pub record IsValid (s : System) : Type 0 where
  pub requests : Accounts s.memory.requests (map request_entry s.threads)
  pub sums : Accounts s.memory.sums (map sum_entry s.threads)
  pub counts : Accounts s.memory.counts (map count_entry s.threads)
  pub limited : s.memory.limited ≡ limit_sum s.threads % 2 ^ 64

pub map-middle :
    (f : Thread → Entry) (xs : List Thread) (x : Thread) (ys : List Thread)
    → map f (xs ++ x ∷ ys) ≡ map f xs ++ f x ∷ map f ys
map-middle f [] x ys = refl
map-middle f (y ∷ xs) x ys = cc (map-middle f xs x ys)

pub limit_sum-middle :
    (xs : List Thread) (x : Thread) (ys : List Thread)
    → limit_sum (xs ++ x ∷ ys) ≡ limit_share x + limit_sum (xs ++ ys)
unfolding limit_sum
limit_sum-middle [] x ys = refl
limit_sum-middle (y ∷ xs) x ys = omega (arith, limit_sum-middle xs x ys)
