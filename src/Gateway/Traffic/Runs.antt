-- ===== src/Gateway/Traffic/Runs.antt =====
-- Any number of requests through the chain of cmd/gateway/main.go, and the limiters of
-- internal/ratelimit/limiter.go behind it.
use aizen_gate.Base.{
  ℕ, ◌+◌, ◌*◌, ◌≤◌, ◌≡◌, inl, inr, refl, sym, ap, ◌∙◌, String, ◌&&◌, List, [], ◌∷◌, arith, str_eq,
  if◌then◌else◌,
}
use aizen_gate.Http.{Request, Writer, Handler, state_of}
use aizen_gate.ControlPlane.{Client}
use aizen_gate.RateLimit.Limiter.{Limiter}
use aizen_gate.RateLimit.Calls.{
  Call, elapsed, postpone, elapsed-postpone, AllMeet, AllFind, AllFind-postpone, after_calls,
  let_in, after_calls-postpone, let_in-postpone,
}
use aizen_gate.RateLimit.Middleware.{seconds, policy_for}
use aizen_gate.RateLimit.TokenBucket.{token, TokenBucketLimiter, allow, limiter_at}
use aizen_gate.RateLimit.TokenBucket.Bound.{IsPast, admitted, admitted-le}
use aizen_gate.Gateway.{Wiring, handler}
use aizen_gate.Gateway.Traffic.{client_of, Apart, CountsVisits, Served}
use aizen_gate.Gateway.Traffic.Passing.{handler-Serves}

-- A request that comes in, the time since the one before it, and what the clocks show meanwhile.
pub record Arrival : Type 0 where
  pub request : Request
  pub writer : Writer
  pub delay : ℕ
  pub now : ℕ
  pub started : ℕ
  pub took_inside : ℕ
  pub took : ℕ

-- What is asked of the limiter about a request, as a call.
abbrev pub call_of : Request → Client → ℕ → Call
call_of r ctl d =
    let policy = policy_for r ctl in
    record {
      client = client_of r;
      limit = policy.limit;
      window = seconds policy.window_sec;
      delay = d;
    }

abbrev pub span : List Arrival → ℕ
span [] = 0
span (a ∷ qs) = a.delay + span qs

-- What `Holds` of the mirror, makes the question about each request one of the kind `Meets`.
abbrev pub AllAsk : (Client → Type 0) → (Call → Type 0) → List Arrival → Type 0
AllAsk Holds Meets [] = Unit
AllAsk Holds Meets (a ∷ qs) =
    ((ctl : Client) → Holds ctl → Meets (call_of a.request ctl a.delay)) × AllAsk Holds Meets qs

ask_anything : (qs : List Arrival) → AllAsk (λ ctl. Unit) (λ k. Unit) qs
ask_anything [] = tt
ask_anything (a ∷ qs) = ((λ ctl h. tt), ask_anything qs)

module _ {S L : Type 0} (limiter_of : ℕ → Limiter L) (x : Wiring S L) (mux : Handler S) where
  -- The chain for one arrival, when the limiter's clock shows `t`.
  abbrev pub wiring_at : ℕ → Arrival → Wiring S L
  wiring_at t a = record x {
    limiter = limiter_of t;
    now = a.now;
    started = a.started;
    took_inside = a.took_inside;
    took = a.took;
  }

  -- The state of the gateway behind the arrivals, one after another.
  unfoldable pub serve_all : List Arrival → ℕ → S → S
  serve_all [] t s = s
  serve_all (a ∷ qs) t s =
      serve_all qs (t + a.delay)
        (state_of (handler (wiring_at (t + a.delay) a) mux a.request a.writer s))

  -- What each request finds as it comes: the time, the state of the limiter, and its own client.
  unfoldable pub AllFound : (ℕ → L → String → Type 0) → List Arrival → ℕ → S → Type 0
  AllFound Finds [] t s = Unit
  AllFound Finds (a ∷ qs) t s =
      Finds (t + a.delay) (x.limits.get s) (client_of a.request)
      × AllFound Finds qs (t + a.delay)
          (state_of (handler (wiring_at (t + a.delay) a) mux a.request a.writer s))

  find_anything : (qs : List Arrival) (t : ℕ) (s : S) → AllFound (λ n l client. Unit) qs t s
  unfolding AllFound
  find_anything [] t s = tt
  find_anything (a ∷ qs) t s = (tt, find_anything qs (t + a.delay) _)

  -- Calls of the limiter that lead from one state to another, and cover what the router counts.
  -- What `Holds` of the mirror, makes each of them a call of the kind `Meets`, and each finds what
  -- `Finds` says.
  pub record IsTrace (visits : S → ℕ) (c : String) (Holds : Client → Type 0) (Meets : Call → Type 0)
      (Finds : ℕ → L → String → Type 0) (t d : ℕ) (s s' : S) (ks : List Call) : Type 0 where
    pub leads : x.limits.get s' ≡ after_calls limiter_of ks t (x.limits.get s)
    pub covers : visits s' ≤ visits s + let_in limiter_of c ks t (x.limits.get s)
    pub lasts : elapsed ks ≤ d
    pub keeps : Holds (x.control.get s) → Holds (x.control.get s')
    pub meets : Holds (x.control.get s) → AllMeet Meets ks
    pub finds : AllFind limiter_of Finds ks t (x.limits.get s)

  module _ (visits : S → ℕ) (c : String) (Holds : Client → Type 0) (Meets : Call → Type 0)
      (Finds : ℕ → L → String → Type 0)
      (later : (k : Call) (d : ℕ) → Meets k → Meets (record k { delay = d }))
      (apart : Apart visits x.limits x.control x.ids x.log x.metrics)
      (counts : CountsVisits x visits c Holds mux) where
    AllMeet-postpone : (d : ℕ) (ks : List Call) → AllMeet Meets ks → AllMeet Meets (postpone d ks)
    AllMeet-postpone d [] h = tt
    AllMeet-postpone d (k ∷ ks) (h, hs) = (later k (d + k.delay) h, hs)

    prepend :
        (t d e : ℕ) (a : Arrival) (s s1 s2 : S) (ks : List Call)
        → Served (wiring_at (t + d) a) visits c Holds a.request s s1
        → ((ctl : Client) → Holds ctl → Meets (call_of a.request ctl d))
        → Finds (t + d) (x.limits.get s) (client_of a.request)
        → IsTrace visits c Holds Meets Finds (t + d) e s1 s2 ks
        → (ks' : List Call) × IsTrace visits c Holds Meets Finds t (d + e) s s2 ks'
    unfolding let_in after_calls
    prepend t d e a s s1 s2 ks (still, inl (same, no_more)) fits found h = (
      postpone d ks,
      record {
        leads =
            h.leads
            ∙ ap (after_calls limiter_of ks (t + d)) same
            ∙ sym (after_calls-postpone limiter_of d ks t (x.limits.get s));
        covers =
            let seen = rw same at h.covers in
            omega (arith, no_more, seen, let_in-postpone limiter_of c d ks t (x.limits.get s));
        lasts = omega (arith, h.lasts, elapsed-postpone d ks);
        keeps = λ holds. h.keeps (still holds);
        meets = λ holds. AllMeet-postpone d ks (h.meets (still holds));
        finds = AllFind-postpone limiter_of Finds d ks t (x.limits.get s) (rw same at h.finds);
      },
    )
    prepend t d e a s s1 s2 ks (still, inr (moved, counted)) fits found h = (
      call_of a.request (x.control.get s) d ∷ ks,
      record {
        leads = h.leads ∙ ap (after_calls limiter_of ks (t + d)) moved;
        covers = let seen = rw moved at h.covers in omega (arith, counted, seen);
        lasts = omega (arith, h.lasts);
        keeps = λ holds. h.keeps (still holds);
        meets = λ holds. (fits (x.control.get s) holds, h.meets (still holds));
        finds = (found, rw moved at h.finds);
      },
    )

    pub trace :
        (qs : List Arrival) (t : ℕ) (s : S)
        → AllAsk Holds Meets qs
        → AllFound Finds qs t s
        → (ks : List Call) × IsTrace visits c Holds Meets Finds t (span qs) s (serve_all qs t s) ks
    unfolding serve_all AllFound let_in after_calls
    trace [] t s asks found = (
      [],
      record {
        leads = refl;
        covers = omega arith;
        lasts = omega arith;
        keeps = λ holds. holds;
        meets = λ holds. tt;
        finds = tt;
      },
    )
    trace (a ∷ qs) t s (fits, asks) (found, founds) =
        let s1 = state_of (handler (wiring_at (t + a.delay) a) mux a.request a.writer s) in
        let (ks, h) = trace qs (t + a.delay) s1 asks founds in
        prepend t a.delay (span qs) a s s1 _ ks
          (handler-Serves (wiring_at (t + a.delay) a) visits c Holds apart mux counts a.request
            a.writer s)
          fits found h

let_in-admitted :
    (c : String) (ks : List Call) (now : ℕ) (l : TokenBucketLimiter)
    → let_in limiter_at c ks now l ≡ admitted c ks now l
unfolding let_in limiter_at admitted
let_in-admitted c [] now l = refl
let_in-admitted c (k ∷ ks) now l =
    let o = allow k.client k.limit k.window (now + k.delay) l in
    ap (λ n. (if str_eq k.client c && o.1 then 1 else 0) + n)
      (let_in-admitted c ks (now + k.delay) o.0)

module _ {S : Type 0} (x : Wiring S TokenBucketLimiter) (mux : Handler S) (visits : S → ℕ)
    (c : String) (apart : Apart visits x.limits x.control x.ids x.log x.metrics)
    (counts : CountsVisits x visits c (λ ctl. Unit) mux) where
  -- Behind a local limiter with no bucket refilled in the future, however many requests come one
  -- after another, of any clients, with or without a token, preflights and panics included, the
  -- router gets at most the capacity and what the rate brings in the elapsed time of one client.
  pub visits_bound :
      (qs : List Arrival) (t : ℕ) (s : S)
      → IsPast t (x.limits.get s)
      → let l = x.limits.get s in
        visits (serve_all limiter_at x mux qs t s) * token
        ≤ (visits s + l.capacity) * token + span qs * l.rate
  visits_bound qs t s past =
      let (ks, h) =
        trace limiter_at x mux visits c (λ ctl. Unit) (λ k. Unit) (λ n l client. Unit) (λ k d h. tt)
          apart counts qs t s (ask_anything qs) (find_anything limiter_at x mux qs t s) in
      let l = x.limits.get s in
      grind (arith, h.covers, h.lasts, let_in-admitted c ks t l, admitted-le c ks t l past)
