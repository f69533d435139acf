-- ===== src/RateLimit/Middleware.antt =====
-- internal/ratelimit/middleware.go
pub mod Verdicts
use aizen_gate.Base.{
  ℕ, ◌*◌, ◌%◌, ◌^◌, ◌≡◌, String, Bool, true, false, Option, none, some, List, [], ◌∷◌, str_eq,
  get_or, if◌then◌else◌,
}
use aizen_gate.Base.Int.{ℤ, pos, to_bits, of_bits}
use aizen_gate.Policy.{Policy}
use aizen_gate.Http.{
  Request, Writer, object, set_header, respond, Outcome, done, Handler, Middleware, Part,
}
use aizen_gate.ControlPlane.{Client, get_matching_policy}
use aizen_gate.Metrics.{Metrics, record_rate_limited}
use aizen_gate.RateLimit.Limiter.{Limiter, Answer, allowed, error}

-- A context value, "anonymous" where it is missing, empty or no string
abbrev pub or_anonymous : Option String → String
or_anonymous v = let s = get_or v "" in if str_eq s "" then "anonymous" else s

abbrev baseline : String → String → ℕ → Policy
baseline id tier limit = record {
  id = id;
  path = "*";
  method = "*";
  limit = pos limit;
  window_sec = pos 60;
  tier = tier;
}

unfoldable pub get_default_policy : String → Policy
get_default_policy tier =
    if str_eq tier "premium"
    then baseline "default-premium" "premium" 1000
    else if str_eq tier "basic"
    then baseline "default-basic" "basic" 100
    else baseline "default-anonymous" "anonymous" 20

-- `time.Duration(n) * time.Second`, an int64
abbrev pub seconds : ℤ → ℤ
seconds n = of_bits (to_bits n * 1000000000 % 2 ^ 64)

unfoldable pub policy_for : Request → Client → Policy
unfolding get_default_policy
policy_for r c =
    let tier = or_anonymous r.context.client_tier in
    get_or (get_matching_policy r.path r.method tier c) (get_default_policy tier)

module _ {S L : Type 0} (limiter : Limiter L) (limits : Part S L) (control : Part S Client)
    (metrics : Part S Metrics) where
  -- The question that is put to the limiter, with its new state.
  unfoldable pub ask_limiter : Request → S → L × Answer
  ask_limiter r s =
      let policy = policy_for r (control.get s) in
      limiter.allow (or_anonymous r.context.client_id) policy.limit (seconds policy.window_sec)
        (limits.get s)

  unfoldable pub too_many : Writer → S → Outcome S
  too_many w s =
      done
        (respond 429
          (object (
            ("error", "rate_limit_exceeded")
            ∷ ("message", "Too many requests. Please try again later.")
            ∷ []))
          (set_header "Content-Type" "application/json" w))
        (metrics.put (record_rate_limited (metrics.get s)) s)

  -- Less the lines that it writes to the default logger.
  unfoldable pub rate_limit_middleware : Middleware S
  rate_limit_middleware next r w s =
      let (l, answer) = ask_limiter r s in
      let s' = limits.put l s in
      elim answer [
        | error ↦ next r w s'
        | allowed verdict ↦ if verdict then next r w s' else too_many w s'
      ]
