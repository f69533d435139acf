-- ===== src/Metrics.antt =====
-- internal/metrics/handler.go: the counters, their keys, and the text that Prometheus reads.
pub mod Path
pub mod Counting
pub mod Labels
pub mod Render
pub mod Shared
mod Tests
use Prim.Native.String
use Prim.Native.Nat.{compare, Ordering}
use aizen_gate.Base.{
  ℕ, ◌+◌, ◌-◌, ◌*◌, ◌/◌, ◌%◌, ◌^◌, code, Char, String, Bool, true, false, ◌&&◌, ◌||◌, not, Option,
  none, some, List, [], ◌∷◌, ltb, leb, ◌==◌, get_or, if◌then◌else◌,
}
use aizen_gate.Base.Dict.{Dict, lookup, insert}
use aizen_gate.Base.Text.{◌<>◌, split, split_n, join, contains}
use aizen_gate.Base.Decimal.{show, show_int64}

-- An `atomic.Int64` is the bit pattern of its value; times are in nanoseconds.
pub record Metrics : Type 0 where
  pub requests_total : Dict ℕ
  pub rate_limited_total : ℕ
  pub latency_sum : Dict ℕ
  pub latency_count : Dict ℕ
  pub start_time : ℕ

unfoldable pub new_handler : ℕ → Metrics
new_handler now = record {
  requests_total = [];
  rate_limited_total = 0;
  latency_sum = [];
  latency_count = [];
  start_time = now;
}

-- `atomic.Int64.Add`
abbrev pub add_int64 : ℕ → ℕ → ℕ
add_int64 a b = (a + b) % 2 ^ 64

-- The three `getOrCreate…` functions: the map with the key present, and the counter's value.
unfoldable pub get_or_create : String → Dict ℕ → Dict ℕ × ℕ
get_or_create key m = elim (lookup key m) [ none ↦ (insert key 0 m, 0) | some n ↦ (m, n) ]

-- `h.getOrCreate…(key).Add(n)`
unfoldable pub bump : String → ℕ → Dict ℕ → Dict ℕ
unfolding get_or_create
bump key n m = let (m', old) = get_or_create key m in insert key (add_int64 old n) m'

abbrev is_digit : Char → Bool
is_digit c = not (ltb (code c) b'0' || ltb b'9' (code c))

unfoldable all_digits : String → Bool
all_digits String.[] = true
all_digits (String.◌∷◌ c s) = is_digit c && all_digits s

-- `len` counts bytes.
unfoldable pub is_likely_id : String → Bool
unfolding all_digits contains
is_likely_id s =
    if all_digits s && ltb 0 (String.len s)
    then true
    else if leb 32 (String.len s) && contains s "-"
    then true
    else false

-- One round of the loop of `normalizePath`.
unfoldable pub mask : String → String
unfolding is_likely_id
mask part = if ltb 0 (String.len part) && is_likely_id part then ":id" else part

unfoldable pub mask_parts : List String → List String
unfolding mask
mask_parts [] = []
mask_parts (part ∷ parts) = mask part ∷ mask_parts parts

unfoldable pub normalize_path : String → String
unfolding split mask_parts join
normalize_path path = join (mask_parts (split path b'/')) "/"

abbrev pub colon : Char
colon = ":"

-- "%s:%s:%d" and "%s:%s"
abbrev pub counter_key : String → String → ℕ → String
counter_key method path status = method <> String.◌∷◌ colon (path <> String.◌∷◌ colon (show status))

abbrev pub latency_key : String → String → String
latency_key method path = method <> String.◌∷◌ colon path

abbrev pub too_many_requests : ℕ
too_many_requests = 429

unfoldable pub record_rate_limited : Metrics → Metrics
record_rate_limited h = record h { rate_limited_total = add_int64 h.rate_limited_total 1 }

-- The counters that `RecordRequest` touches, before the test on the status.
unfoldable pub count_request : String → String → ℕ → ℕ → Metrics → Metrics
unfolding bump
count_request method path status duration h = record h {
  requests_total = bump (counter_key method path status) 1 h.requests_total;
  latency_sum = bump (latency_key method path) (duration / 1000000) h.latency_sum;
  latency_count = bump (latency_key method path) 1 h.latency_count;
}

unfoldable pub record_request : String → String → ℕ → ℕ → Metrics → Metrics
unfolding normalize_path count_request record_rate_limited
record_request method path status duration h =
    let counted = count_request method (normalize_path path) status duration h in
    if status == too_many_requests then record_rate_limited counted else counted

pub record Snapshot : Type 0 where
  pub requests_total : Dict ℕ
  pub rate_limited_total : ℕ
  pub uptime_seconds : ℕ

unfoldable pub snapshot : ℕ → Metrics → Snapshot
snapshot now h = record {
  requests_total = h.requests_total;
  rate_limited_total = h.rate_limited_total;
  uptime_seconds = (now - h.start_time) / 1000000000;
}

-- sort.Strings, on the keys of a map
abbrev before : String → String → Bool
before s t = elim (String.compare s t) [ Ordering.gt ↦ false | _ ↦ true ]

sorted_insert : String → List String → List String
sorted_insert k [] = k ∷ []
sorted_insert k (j ∷ ks) = if before k j then k ∷ j ∷ ks else j ∷ sorted_insert k ks

unfoldable pub sorted_keys : Dict ℕ → List String
unfolding sorted_insert
sorted_keys [] = []
sorted_keys ((k, _) ∷ m) = sorted_insert k (sorted_keys m)

-- The labels of one counter line, `none` where the key does not have three parts.
unfoldable pub request_labels : String → Option (String × String × String)
unfolding split_n
request_labels key = elim (split_n 2 key b':') [ a ∷ b ∷ c ∷ [] ↦ some (a, b, c) | _ ↦ none ]

unfoldable pub latency_labels : String → Option (String × String)
unfolding split_n
latency_labels key = elim (split_n 1 key b':') [ a ∷ b ∷ [] ↦ some (a, b) | _ ↦ none ]

-- int64 division, which rounds towards zero; a count is never negative where it is used.
abbrev pub quot_int64 : ℕ → ℕ → ℕ
quot_int64 a b = if ltb a (2 ^ 63) then a / b else (2 ^ 64 - (2 ^ 64 - a) / b) % 2 ^ 64

-- `count > 0` on an int64
abbrev pub positive_int64 : ℕ → Bool
positive_int64 n = ltb 0 n && ltb n (2 ^ 63)

unfoldable pub average : ℕ → ℕ → ℕ
average sum count = if positive_int64 count then quot_int64 sum count else 0
