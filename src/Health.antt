-- ===== src/Health.antt =====
-- internal/health/handler.go: the counter of connections and the page of the health check.
use aizen_gate.Base.{
  ℕ, ◌+◌, ◌-◌, ◌/◌, ◌^◌, ◌<◌, ◌≡◌, refl, ap, String, List, [], ◌∷◌, arith, length,
}
use aizen_gate.Http.{Writer, Chunk, set_header, write_header, write}
use aizen_gate.Metrics.{add_int64}

-- What the handler reads of the configuration, its start and the counter.
pub record HealthHandler : Type 0 where
  pub version : String
  pub env : String
  pub start_time : ℕ
  pub conn_count : ℕ

-- The runtime's numbers at the time of a request; the memory is in bytes.
pub record Runtime : Type 0 where
  pub goroutines : ℕ
  pub alloc : ℕ

-- The page; the memory is the number of bytes, of which the code prints the mebibytes.
pub record HealthPage : Type 0 where
  pub status : String
  pub version : String
  pub uptime_seconds : ℕ
  pub active_connections : ℕ
  pub loaded_policies : ℕ
  pub go_routines : ℕ
  pub memory_alloc : ℕ
  pub environment : String

abbrev pub new_health_handler : String → String → ℕ → HealthHandler
new_health_handler version env now = record {
  version = version;
  env = env;
  start_time = now;
  conn_count = 0;
}

unfoldable pub increment_connections : HealthHandler → HealthHandler
increment_connections h = record h { conn_count = add_int64 h.conn_count 1 }

-- `Add(-1)`
unfoldable pub decrement_connections : HealthHandler → HealthHandler
decrement_connections h = record h { conn_count = add_int64 h.conn_count (2 ^ 64 - 1) }

unfoldable pub page_of : ℕ → Runtime → HealthHandler → HealthPage
page_of now runtime h = record {
  status = "healthy";
  version = h.version;
  uptime_seconds = (now - h.start_time) / 1000000000;
  active_connections = h.conn_count;
  loaded_policies = 0;
  go_routines = runtime.goroutines;
  memory_alloc = runtime.alloc;
  environment = h.env;
}

-- `ServeHTTP`; `encode` is the JSON encoder.
unfoldable pub serve_http : (HealthPage → Chunk) → ℕ → Runtime → HealthHandler → Writer → Writer
unfolding page_of
serve_http encode now runtime h w = write (encode (page_of now runtime h)) (
    write_header 200 (
      set_header "Cache-Control" "no-cache, no-store"
        (set_header "Content-Type" "application/json" w)))

-- A connection that opens or closes.
pub data Connection : Type 0 where
  opens : Connection
  closes : Connection

unfoldable pub count_connections : List Connection → HealthHandler → HealthHandler
unfolding increment_connections decrement_connections
count_connections [] h = h
count_connections (opens ∷ cs) h = count_connections cs (increment_connections h)
count_connections (closes ∷ cs) h = count_connections cs (decrement_connections h)

-- Each connection closes behind its opening.
abbrev pub IsOrderly : ℕ → List Connection → Type 0
IsOrderly n [] = Unit
IsOrderly n (opens ∷ cs) = IsOrderly (n + 1) cs
IsOrderly n (closes ∷ cs) = (0 < n) × IsOrderly (n - 1) cs

abbrev pub still_open : ℕ → List Connection → ℕ
still_open n [] = n
still_open n (opens ∷ cs) = still_open (n + 1) cs
still_open n (closes ∷ cs) = still_open (n - 1) cs

counted :
    (cs : List Connection) (h : HealthHandler) (n : ℕ)
    → h.conn_count ≡ n
    → IsOrderly n cs
    → n + length cs < 2 ^ 63
    → (count_connections cs h).conn_count ≡ still_open n cs
unfolding count_connections
counted [] h n e orderly bound = e
counted (opens ∷ cs) h n e orderly bound =
    counted cs (increment_connections h) (n + 1) (ground arith) orderly (omega arith)
counted (closes ∷ cs) h n e (some_open, orderly) bound =
    counted cs (decrement_connections h) (n - 1) (ground arith) orderly (omega arith)

unchanged :
    (cs : List Connection) (h : HealthHandler)
    → ((count_connections cs h).version ≡ h.version)
      × ((count_connections cs h).env ≡ h.env)
      × ((count_connections cs h).start_time ≡ h.start_time)
unfolding count_connections
unchanged [] h = (refl, refl, refl)
unchanged (opens ∷ cs) h = unchanged cs (increment_connections h)
unchanged (closes ∷ cs) h = unchanged cs (decrement_connections h)

-- From a new handler, over fewer than 2^63 connections of which each closes behind its opening, the
-- page shows the number of those that are still open, with the version, the environment and the
-- seconds since the start of the handler.
pub page-connections :
    (version env : String) (started now : ℕ) (runtime : Runtime) (cs : List Connection)
    → IsOrderly 0 cs
    → length cs < 2 ^ 63
    → let p = page_of now runtime (count_connections cs (new_health_handler version env started)) in
      (p.active_connections ≡ still_open 0 cs)
      × (p.version ≡ version)
      × (p.environment ≡ env)
      × (p.uptime_seconds ≡ (now - started) / 1000000000)
unfolding page_of
page-connections version env started now runtime cs orderly bound =
    let h = count_connections cs (new_health_handler version env started) in
    let kept = unchanged cs (new_health_handler version env started) in
    (
      counted cs (new_health_handler version env started) 0 refl orderly (omega arith),
      kept.0,
      kept.1,
      ap (λ s. (now - s) / 1000000000) kept.2,
    )
