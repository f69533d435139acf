-- ===== src/Proxy/RequestIds.antt =====
-- The ids that `RequestIDMiddleware` of internal/proxy/middleware.go makes: those of requests that
-- come one after another, and those of goroutines that share `requestIDCounter`.
pub mod Distinct
pub mod Sharing
mod Tests
use aizen_gate.Base.{ℕ, ◌≢◌, String, List, [], ◌∷◌, str_eq, if◌then◌else◌}
use aizen_gate.Http.{Request, get_header, Part}
use aizen_gate.Proxy.{id_of}

-- The ids that are made for requests without one, each with the clock that it reads.
unfoldable pub made_ids : {S : Type 0} → Part S ℕ → List (ℕ × Request) → S → List String
made_ids counter [] s = []
made_ids counter ((now, r) ∷ more) s =
    let (s', id) = id_of counter now r s in
    let rest = made_ids counter more s' in
    if str_eq (get_header "X-Request-Id" r.headers) "" then id ∷ rest else rest

abbrev pub Misses : String → List String → Type 0
Misses id [] = Unit
Misses id (other ∷ ids) = (id ≢ other) × Misses id ids

abbrev pub AreDistinct : List String → Type 0
AreDistinct [] = Unit
AreDistinct (id ∷ ids) = Misses id ids × AreDistinct ids
