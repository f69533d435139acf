-- ===== src/Gateway/Traffic/Redis.antt =====
-- Any number of requests through the chain of cmd/gateway/main.go, with the limiter on Redis of
-- internal/ratelimit/limiter.go behind it.
use aizen_gate.Base.{
  ℕ, ◌+◌, ◌≤◌, ◌<◌, ◌≡◌, refl, none, All, String, ◌&&◌, List, [], ◌∷◌, arith, str_eq, Bool-cases,
  inl, inr, length, keep,
}
use aizen_gate.Base.Int.{ℤ, pos, pos_part}
use aizen_gate.Http.{Request, Handler}
use aizen_gate.ControlPlane.{Client, get_matching_policy, first_match}
use aizen_gate.RateLimit.Calls.{
  passes, Call, elapsed, last_time, last_time-elapsed, AllMeet, after_calls, let_in,
}
use aizen_gate.RateLimit.Middleware.{policy_for, get_default_policy}
use aizen_gate.RateLimit.SlidingWindow.{
  SortedSets, Scripts, RedisSlidingWindowLimiter, key_of, allow, limiter_at,
}
use aizen_gate.RateLimit.SlidingWindow.Window.{SortedSetLaws, recent}
use aizen_gate.RateLimit.SlidingWindow.Reload.{ScriptLaws}
use aizen_gate.RateLimit.SlidingWindow.Clients.{
  SeparateKeys, MeetsPolicy, FindsNew, HasNewDraws, times_of, times_of-Logs, times_of-logged,
}
use aizen_gate.Gateway.{Wiring}
use aizen_gate.Gateway.Traffic.{Apart, CountsVisits}
use aizen_gate.Gateway.Traffic.Runs.{Arrival, span, AllAsk, AllFound, serve_all, trace}

-- What `Holds` of the mirror, puts each request of `c` under one limit, and a window of `width`
-- milliseconds.
abbrev pub AllLimited : String → ℤ → ℕ → (Client → Type 0) → List Arrival → Type 0
AllLimited c limit width Holds qs = AllAsk Holds (MeetsPolicy c limit width) qs

-- In a stretch that is shorter than the window, each time at which `c` was let in stays in it.
let_in-times_of :
    {R : Type 0} (scripts : Scripts R) (c : String) (width until : ℕ) (ks : List Call) (now : ℕ)
    (l : RedisSlidingWindowLimiter R) (before : List ℕ)
    → until < now + width
    → length (keep (recent width until) before) + let_in (limiter_at scripts) c ks now l
      ≤ length (keep (recent width until) (times_of scripts c ks now l before))
unfolding times_of let_in limiter_at keep
let_in-times_of scripts c width until [] now l before short = omega arith
let_in-times_of scripts c width until (k ∷ ks) now l before short =
    let next = now + k.delay in
    let o = allow scripts k.client k.limit k.window next l in
    let soon : until < next + width = omega (arith, short) in
    elim (Bool-cases (str_eq k.client c && passes o.1)) [
      | inl mine ↦
          let rest = let_in-times_of scripts c width until ks next o.0 (next ∷ before) soon in
          rw mine (ground (arith, rest, soon))
      | inr other ↦
          let rest = let_in-times_of scripts c width until ks next o.0 before soon in
          rw other (omega (arith, rest))
    ]

module _ {S R : Type 0} {scripts : Scripts R} {sets : SortedSets R} (laws : SortedSetLaws sets)
    (script_laws : ScriptLaws scripts sets) (separate : SeparateKeys laws script_laws)
    (x : Wiring S (RedisSlidingWindowLimiter R)) (mux : Handler S) (visits : S → ℕ) (c : String)
    (limit : ℤ) (width : ℕ) (Holds : Client → Type 0)
    (apart : Apart visits x.limits x.control x.ids x.log x.metrics)
    (counts : CountsVisits x visits c Holds mux) where
  -- Whenever a request of `c` comes, the random suffix would make its member new.
  abbrev pub AllDrawNew : List Arrival → ℕ → S → Type 0
  AllDrawNew =
      AllFound (limiter_at scripts) x mux (FindsNew laws script_laws separate c limit width)

  -- What the router gets of `c` from calls that follow others.
  let_in-le :
      (ks1 ks2 : List Call) (t now : ℕ) (l : RedisSlidingWindowLimiter R)
      → 0 < width
      → elapsed ks2 < width
      → t + elapsed ks1 ≤ now
      → l.script_sha ≡ script_laws.sha
      → HasNewDraws laws script_laws separate c limit width ks1 t l
      → HasNewDraws laws script_laws separate c limit width ks2 now
          (after_calls (limiter_at scripts) ks1 t l)
      → AllMeet (MeetsPolicy c limit width) ks1
      → AllMeet (MeetsPolicy c limit width) ks2
      → laws.scores (key_of c) l.redis ≡ []
      → let_in (limiter_at scripts) c ks2 now (after_calls (limiter_at scripts) ks1 t l)
        ≤ pos_part limit
  unfolding keep
  let_in-le ks1 ks2 t now l wide short later knows new1 new2 meets1 meets2 empty =
      let l1 = after_calls (limiter_at scripts) ks1 t l in
      let before = times_of scripts c ks1 t l [] in
      let (u, earlier, still, logs) =
        times_of-Logs laws script_laws separate c limit width ks1 t t l [] wide knows meets1 new1
          (omega arith) (record { logged = empty; fits = omega arith }) in
      let bound =
        times_of-logged laws script_laws separate c limit width ks2 u now l1 before wide still
          meets2 new2 (omega (arith, earlier, last_time-elapsed ks1 t)) logs in
      let seen =
        let_in-times_of scripts c width (last_time ks2 now) ks2 now l1 before
          (omega (arith, last_time-elapsed ks2 now)) in
      omega (arith, bound, seen)

  -- Behind a limiter on Redis that knows the SHA of the script and whose log of a client is empty
  -- at the start, while Redis answers each EVALSHA and SCRIPT LOAD, and while the member of each
  -- request of the client would be new to its log as the request comes: if the policies put each
  -- request of the client under one limit and a window of one positive width, as long as something
  -- holds of them that the router keeps, then in any stretch of a run that is shorter than the
  -- window, the router gets at most as many requests of the client as the limit says, whatever was
  -- served before, and whatever comes of other clients, with or without a token, preflights and
  -- panics included.
  pub window_bound :
      (earlier stretch : List Arrival) (t : ℕ) (s : S)
      → 0 < width
      → span stretch < width
      → (x.limits.get s).script_sha ≡ script_laws.sha
      → AllDrawNew earlier t s
      → AllDrawNew stretch (t + span earlier) (serve_all (limiter_at scripts) x mux earlier t s)
      → Holds (x.control.get s)
      → AllLimited c limit width Holds earlier
      → AllLimited c limit width Holds stretch
      → laws.scores (key_of c) (x.limits.get s).redis ≡ []
      → let s' = serve_all (limiter_at scripts) x mux earlier t s in
        visits (serve_all (limiter_at scripts) x mux stretch (t + span earlier) s')
        ≤ visits s' + pos_part limit
  window_bound earlier stretch t s wide short knows new new' holds limited limited' empty =
      let tracing =
        trace (limiter_at scripts) x mux visits c Holds (MeetsPolicy c limit width)
          (FindsNew laws script_laws separate c limit width) (λ k d h. h) apart counts in
      let s' = serve_all (limiter_at scripts) x mux earlier t s in
      let (ks1, h1) = tracing earlier t s limited new in
      let (ks2, h2) = tracing stretch (t + span earlier) s' limited' new' in
      let covers = rw h1.leads at h2.covers in
      let bound =
        let_in-le ks1 ks2 t (t + span earlier) (x.limits.get s) wide
          (omega (arith, short, h2.lasts)) (omega (arith, h1.lasts)) knows h1.finds
          (rw h1.leads at h2.finds) (h1.meets holds) (h2.meets (h1.keeps holds)) empty in
      omega (arith, covers, bound)

-- A request as the server hands it on, with no client and no tier in its context.
abbrev pub IsBare : Request → Type 0
IsBare r = (r.context.client_id ≡ none) × (r.context.client_tier ≡ none)

abbrev pub AllBare : List Arrival → Type 0
AllBare = All (λ a. IsBare a.request)

-- No policy is cached.
abbrev pub HasNoPolicies : Client → Type 0
HasNoPolicies ctl = ctl.policies ≡ []

-- Without policies, such a request gets the limit of the anonymous tier.
limited_by_default :
    (qs : List Arrival) → AllBare qs → AllLimited "anonymous" (pos 20) 60000 HasNoPolicies qs
unfolding policy_for get_matching_policy first_match get_default_policy
limited_by_default [] bare = tt
limited_by_default (a ∷ qs) ((client, tier), bare) =
    ((λ ctl h own. rw (tier, h) (refl, refl)), limited_by_default qs bare)

module _ {S R : Type 0} {scripts : Scripts R} {sets : SortedSets R} (laws : SortedSetLaws sets)
    (script_laws : ScriptLaws scripts sets) (separate : SeparateKeys laws script_laws)
    (x : Wiring S (RedisSlidingWindowLimiter R)) (mux : Handler S) (visits : S → ℕ)
    (apart : Apart visits x.limits x.control x.ids x.log x.metrics)
    (counts : CountsVisits x visits "anonymous" HasNoPolicies mux) where
  -- Behind a limiter on Redis that knows the SHA of the script and whose log of "anonymous" is
  -- empty at the start, while Redis answers each EVALSHA and SCRIPT LOAD, and while the member of
  -- each request would be new to that log as the request comes: if no policy is cached and the
  -- router keeps it so, and requests come with no client and no tier in their contexts, so that
  -- each is one of "anonymous" whatever token it brings, then the router gets no more than 20 of
  -- them in any stretch of a run that is shorter than a minute.
  pub everyone_shares_twenty :
      (earlier stretch : List Arrival) (t : ℕ) (s : S)
      → span stretch < 60000
      → AllBare earlier
      → AllBare stretch
      → (x.limits.get s).script_sha ≡ script_laws.sha
      → AllDrawNew laws script_laws separate x mux visits "anonymous"
          (pos 20)
          60000
          HasNoPolicies
          apart
          counts
          earlier
          t
          s
      → AllDrawNew laws script_laws separate x mux visits "anonymous"
          (pos 20)
          60000
          HasNoPolicies
          apart
          counts
          stretch
          (t + span earlier)
          (serve_all (limiter_at scripts) x mux earlier t s)
      → HasNoPolicies (x.control.get s)
      → laws.scores (key_of "anonymous") (x.limits.get s).redis ≡ []
      → let s' = serve_all (limiter_at scripts) x mux earlier t s in
        visits (serve_all (limiter_at scripts) x mux stretch (t + span earlier) s') ≤ visits s' + 20
  everyone_shares_twenty earlier stretch t s short bare bare' knows new new' holds empty =
      window_bound laws script_laws separate x mux visits "anonymous" (pos 20) 60000 HasNoPolicies
        apart counts earlier stretch t s (omega arith) short knows new new' holds
        (limited_by_default earlier bare) (limited_by_default stretch bare') empty
