-- ===== src/Metrics/Shared.antt =====
-- internal/metrics/handler.go under concurrent requests: the goroutines that run `RecordRequest`, a
-- lock or an atomic operation at a time, and the scrape that may come between.
pub mod Entries
pub mod Moves
pub mod Progress
pub mod Kept
pub mod Refinement
pub mod Scrape
mod Tests
use aizen_gate.Base.{
  ℕ, suc, ◌/◌, ◌≡◌, String, Bool, true, false, Option, none, some, List, [], ◌∷◌, ◌++◌, ◌==◌,
  if◌then◌else◌,
}
use aizen_gate.Base.Dict.{Dict, lookup, insert}
use aizen_gate.Metrics.{
  Metrics, add_int64, counter_key, latency_key, normalize_path, too_many_requests, record_request,
}

-- A `map[string]*atomic.Int64`: the address under each key, and the counter at each address.
-- Addresses from `next` on are free.
pub record Table : Type 0 where
  pub index : Dict ℕ
  pub cells : ℕ → ℕ
  pub next : ℕ

abbrev pub no_counters : Table
no_counters = record { index = []; cells = λ _. 0; next = 0 }

abbrev pub set_cell : ℕ → ℕ → (ℕ → ℕ) → ℕ → ℕ
set_cell a n cells b = if a == b then n else cells b

-- Where a goroutine stands in `h.getOrCreate…(key).Add(n)`.
pub data Phase : Type 0 where
  asking : Phase  -- before the read lock
  missing : Phase  -- between the two locks
  holding : ℕ → Phase  -- with the pointer
  added : Phase

-- The look-up under the read lock.
unfoldable pub find : String → Table → Phase
find key t = elim (lookup key t.index) [ none ↦ missing | some a ↦ holding a ]

-- What is done under the write lock, the second look-up included.
unfoldable pub create : String → Table → Table × Phase
create key t = elim (lookup key t.index) [
  | some a ↦ (t, holding a)
  | none ↦ (
    record {
      index = insert key t.next t.index;
      cells = set_cell t.next 0 t.cells;
      next = suc t.next;
    },
    holding t.next,
  )
]

-- `Add` on the counter at an address.
unfoldable pub add_at : ℕ → ℕ → Table → Table
add_at a n t = record t { cells = set_cell a (add_int64 (t.cells a) n) t.cells }

-- One step of a goroutine in `h.getOrCreate…(key).Add(n)`.
unfoldable pub advance : String → ℕ → Table → Phase → Table × Phase
unfolding find create add_at
advance key n t asking = (t, find key t)
advance key n t missing = create key t
advance key n t (holding a) = (add_at a n t, added)
advance key n t added = (t, added)

-- The arguments of one call of `RecordRequest`.
pub record Job : Type 0 where
  pub method : String
  pub path : String
  pub status : ℕ
  pub duration : ℕ

abbrev pub request_key : Job → String
request_key j = counter_key j.method (normalize_path j.path) j.status

abbrev pub duration_key : Job → String
duration_key j = latency_key j.method (normalize_path j.path)

abbrev pub elapsed_ms : Job → ℕ
elapsed_ms j = j.duration / 1000000

-- The shared fields of `Handler`.
pub record Memory : Type 0 where
  pub requests : Table
  pub sums : Table
  pub counts : Table
  pub limited : ℕ

abbrev pub empty : Memory
empty = record { requests = no_counters; sums = no_counters; counts = no_counters; limited = 0 }

-- Where a goroutine stands in `RecordRequest`.
pub data Pc : Type 0 where
  at_requests : Phase → Pc
  at_sums : Phase → Pc
  at_counts : Phase → Pc
  at_limit : Pc
  finished : Pc

-- The next line of `RecordRequest` follows an `Add`.
abbrev pub then_go : (Phase → Pc) → Pc → Phase → Pc
then_go here next added = next
then_go here next p = here p

unfoldable pub step : Job → Memory → Pc → Memory × Pc
unfolding advance
step j m (at_requests p) =
    let (t, p') = advance (request_key j) 1 m.requests p in
    (record m { requests = t }, then_go at_requests (at_sums asking) p')
step j m (at_sums p) =
    let (t, p') = advance (duration_key j) (elapsed_ms j) m.sums p in
    (record m { sums = t }, then_go at_sums (at_counts asking) p')
step j m (at_counts p) =
    let (t, p') = advance (duration_key j) 1 m.counts p in
    (record m { counts = t }, then_go at_counts at_limit p')
step j m at_limit =
    if j.status == too_many_requests
    then (record m { limited = add_int64 m.limited 1 }, finished)
    else (m, finished)
step j m finished = (m, finished)

abbrev pub Thread : Type 0
Thread = Job × Pc

pub record System : Type 0 where
  pub memory : Memory
  pub threads : List Thread

-- A request comes in, or one of the goroutines makes a step.
pub data Step (s : System) : System → Type 0 where
  arrive : (j : Job) → Step s (record s { threads = (j, at_requests asking) ∷ s.threads })
  run :
      (before after : List Thread) (j : Job) (p : Pc)
      → s.threads ≡ before ++ (j, p) ∷ after
      → Step s (record {
        memory = (step j s.memory p).0;
        threads = before ++ (j, (step j s.memory p).1) ∷ after;
      })

pub data Reach : System → Type 0 where
  initial : Reach (record { memory = empty; threads = [] })
  later : {s t : System} → Reach s → Step s t → Reach t

-- The counters that are in the map, with their values.
unfoldable pub read_cells : Dict ℕ → (ℕ → ℕ) → Dict ℕ
read_cells [] cells = []
read_cells ((key, a) ∷ index) cells = (key, cells a) ∷ read_cells index cells

-- What a scrape sees: `ServeHTTP` reads the maps under the read lock.
unfoldable pub view : ℕ → Memory → Metrics
unfolding read_cells
view start_time m = record {
  requests_total = read_cells m.requests.index m.requests.cells;
  rate_limited_total = m.limited;
  latency_sum = read_cells m.sums.index m.sums.cells;
  latency_count = read_cells m.counts.index m.counts.cells;
  start_time = start_time;
}

-- The same calls one after the other, the last of the list first.
unfoldable pub record_all : List Job → Metrics → Metrics
unfolding record_request
record_all [] h = h
record_all (j ∷ js) h = record_request j.method j.path j.status j.duration (record_all js h)
