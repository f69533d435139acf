-- ===== src/Proxy/RequestIds/Tests.antt =====
-- The ids that internal/proxy/middleware.go makes, at concrete counters.
use aizen_gate.Base.{ℕ, ◌+◌, ◌%◌, ◌^◌, ◌≡◌, ◌⊎◌, refl, String, List, [], ◌∷◌, arith, All}
use aizen_gate.Base.Decimal.{show}
use aizen_gate.Base.Dict.{lookup}
use aizen_gate.Http.{Request, Part}
use aizen_gate.Proxy.{id_of}
use aizen_gate.Proxy.RequestIds.{made_ids, AreDistinct}
use aizen_gate.Proxy.RequestIds.Distinct.{made_ids-AreDistinct}
use aizen_gate.Proxy.RequestIds.Sharing.{
  IdState, waiting, named, run_ids, id_step, id_move, same_id_reachable,
}
use aizen_gate.Fixtures.{ask}

abbrev counter : Part ℕ ℕ
counter = record { get = λ n. n; put = λ n s. n; get-put = λ n s. refl }

abbrev named_request : Request
named_request = record (ask "GET" "/x") { headers = ("X-Request-Id", "mine") ∷ [] }

abbrev arrivals : List (ℕ × Request)
arrivals = (9, ask "GET" "/x") ∷ (9, named_request) ∷ (9, ask "GET" "/x") ∷ []

made_ids-AreDistinct_example : AreDistinct (made_ids counter arrivals 6)
made_ids-AreDistinct_example = made_ids-AreDistinct counter arrivals 6 (omega arith)

two_made : made_ids counter arrivals 6 ≡ "zg-9-7" ∷ "zg-9-8" ∷ []
unfolding made_ids id_of show lookup
two_made = refl

abbrev idle : IdState
idle = record { counter = 6; phases = λ i. waiting }

same_id_reachable_example :
    (order : List ℕ) × (id : String) × All (λ k. (k ≡ 1) ⊎ (k ≡ 2)) order
    × ((run_ids 9 order idle).counter ≡ (6 + 2) % 2 ^ 64)
    × ((run_ids 9 order idle).phases 1 ≡ named id)
    × ((run_ids 9 order idle).phases 2 ≡ named id)
same_id_reachable_example = same_id_reachable 9 1 2 idle (λ e. omega (arith, e)) refl refl

both_named :
    ((run_ids 9 (1 ∷ 1 ∷ 2 ∷ 2 ∷ 1 ∷ 2 ∷ []) idle).phases 1 ≡ named "zg-9-8")
    × ((run_ids 9 (1 ∷ 1 ∷ 2 ∷ 2 ∷ 1 ∷ 2 ∷ []) idle).phases 2 ≡ named "zg-9-8")
unfolding run_ids id_step id_move show
both_named = (refl, refl)
