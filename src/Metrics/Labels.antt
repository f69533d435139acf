-- ===== src/Metrics/Labels.antt =====
-- The labels that `ServeHTTP` of internal/metrics/handler.go reads out of a counter's key.
use text.Mathlib.TextLemmas.{append_assoc, cons-append}
use aizen_gate.Base.{ℕ, ◌≡◌, String, some, [], ◌∷◌}
use aizen_gate.Base.Text.{◌<>◌, split_n}
use aizen_gate.Base.Text.Laws.{Free, split_n-cut}
use aizen_gate.Base.Decimal.{show}
use aizen_gate.Metrics.{colon, counter_key, latency_key, request_labels, latency_labels}

-- Two cuts at colons, whatever follows the second.
split-two :
    (p q rest : String)
    → Free b':' p
    → Free b':' q
    → split_n 2 (p <> String.◌∷◌ colon (q <> String.◌∷◌ colon rest)) b':' ≡ p ∷ q ∷ rest ∷ []
unfolding split_n
split-two p q rest hp hq = rw (split_n-cut 1 p colon _ hp, split_n-cut 0 q colon rest hq)

-- For a method and a path without a colon, the three labels of a counter are the method, the path
-- and the printed status that its key was made of.
pub labels-counter_key :
    (method path : String) (status : ℕ)
    → Free b':' method
    → Free b':' path
    → request_labels (counter_key method path status) ≡ some (method, path, show status)
unfolding request_labels
labels-counter_key method path status hm hp =
    rw (split-two method path (show status) hm hp, request_labels)

-- Where the path has a colon, the path label ends before the first one, and the rest of the path
-- stands in the status label.
pub labels_split_at_colon :
    (method before after : String) (status : ℕ)
    → Free b':' method
    → Free b':' before
    → request_labels (counter_key method (before <> String.◌∷◌ colon after) status)
      ≡ some (method, before, after <> String.◌∷◌ colon (show status))
unfolding request_labels
labels_split_at_colon method before after status hm hb = rw (
  append_assoc before _ _,
  cons-append,
  split-two method before (after <> String.◌∷◌ colon (show status)) hm hb,
  request_labels,
)

pub labels-latency_key :
    (method path : String)
    → Free b':' method
    → latency_labels (latency_key method path) ≡ some (method, path)
unfolding latency_labels split_n
labels-latency_key method path hm = rw (split_n-cut 0 method colon path hm, latency_labels)
