-- ===== src/Metrics/Tests.antt =====
-- Runs of internal/metrics/handler.go at concrete inputs, and the theorems at such inputs.
use aizen_gate.Base.{◌≡◌, refl, some, arith}
use aizen_gate.Base.Decimal.{show}
use aizen_gate.Metrics.{
  Metrics, new_handler, counter_key, request_labels, normalize_path, record_request,
}
use aizen_gate.Metrics.Labels.{labels-counter_key}
use aizen_gate.Metrics.Counting.{
  IsValid, new_handler-IsValid, record_request-IsValid, IsRecorded, record_request-IsRecorded,
}

abbrev first : Metrics
first = record_request "GET" "/users/123" 200 5000000 (new_handler 0)

users_path : normalize_path "/users/123/x" ≡ "/users/:id/x"
unfolding normalize_path
users_path = refl

users_labels :
    request_labels (counter_key "GET" "/users/:id" 200) ≡ some ("GET", "/users/", "id:200")
unfolding request_labels show
users_labels = refl

labels-counter_key_example :
    request_labels (counter_key "GET" "/health" 200) ≡ some ("GET", "/health", show 200)
labels-counter_key_example = labels-counter_key "GET" "/health" 200 (omega arith) (omega arith)

record_request-IsValid_holds : IsValid first
record_request-IsValid_holds =
    record_request-IsValid "GET" "/users/123" 200 5000000 (new_handler 0) (new_handler-IsValid 0)

record_request-IsRecorded_example : IsRecorded "GET" "/users/123" 200 5000000 (new_handler 0) first
record_request-IsRecorded_example =
    record_request-IsRecorded "GET" "/users/123" 200 5000000 (new_handler 0)
