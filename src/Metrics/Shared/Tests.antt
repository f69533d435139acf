-- ===== src/Metrics/Shared/Tests.antt =====
-- Runs of two goroutines in `RecordRequest` of internal/metrics/handler.go.
use mathlib.Core.List.{Permᴰ}
use aizen_gate.Base.{ℕ, zero, suc, ◌≡◌, refl, true, some, none, [], ◌∷◌, is_some, arith}
use aizen_gate.Base.Dict.{lookup, insert}
use aizen_gate.Base.Decimal.{show}
use aizen_gate.Metrics.{new_handler, normalize_path}
use aizen_gate.Metrics.Render.{serve_http}
use aizen_gate.Metrics.Shared.{
  asking, holding, Job, request_key, Memory, empty, Pc, at_requests, at_sums, finished, step,
  System, arrive, run, Reach, initial, later, view, record_all,
}
use aizen_gate.Metrics.Shared.Refinement.{Agrees, concurrent-Agrees}
use aizen_gate.Metrics.Shared.Scrape.{scrape_panics, scrape-is_some}

abbrev get_users : Job
get_users = record { method = "GET"; path = "/users"; status = 200; duration = 3000000 }

abbrev Both : Type 0
Both = Memory × Pc × Pc

abbrev two : Both → System
two (m, p, q) = record { memory = m; threads = (get_users, p) ∷ (get_users, q) ∷ [] }

-- The second goroutine makes a step, then the first.
unfoldable rounds : ℕ → Both → Both
unfolding step
rounds zero s = s
rounds (suc n) (m, p, q) =
    let (m', q') = step get_users m q in
    let (m'', p') = step get_users m' p in rounds n (m'', p', q')

rounds-Reach : (n : ℕ) (s : Both) → Reach (two s) → Reach (two (rounds n s))
unfolding rounds
rounds-Reach zero s r = r
rounds-Reach (suc n) (m, p, q) r = rounds-Reach n _ (
    later (later r (run ((get_users, p) ∷ []) [] get_users q refl))
      (run [] ((get_users, _) ∷ []) get_users p refl))

abbrev begun : Both
begun = (empty, at_requests asking, at_requests asking)

begun-Reach : Reach (two begun)
begun-Reach = later (later initial (arrive get_users)) (arrive get_users)

-- Both find no counter, and one of them makes it.
abbrev ended : Both
ended = rounds 10 begun

both_finish : (ended.1 ≡ finished) × (ended.2 ≡ finished)
unfolding rounds lookup insert normalize_path show
both_finish = (refl, refl)

both_count : lookup (request_key get_users) (view 0 ended.0).requests_total ≡ some 2
unfolding rounds view lookup insert normalize_path show
both_count = refl

concurrent-Agrees_example :
    Agrees (view 0 (two ended).memory) (record_all (get_users ∷ get_users ∷ []) (new_handler 0))
concurrent-Agrees_example =
    concurrent-Agrees 0 (get_users ∷ get_users ∷ []) (rounds-Reach 10 begun begun-Reach)
      (both_finish.0, (both_finish.1, tt)) (Permᴰ.cons refl (Permᴰ.cons refl Permᴰ.nil))

scrape_panics_example :
    (t : System) × Reach t
    × (t.threads ≡ (get_users, at_sums (holding 0)) ∷ [])
    × ((started now : ℕ) → serve_http now (view started t.memory) ≡ none)
unfolding lookup
scrape_panics_example = scrape_panics get_users initial (omega arith) refl

scrape-is_some_example : is_some (serve_http 9 (view 0 (two begun).memory)) ≡ true
scrape-is_some_example = scrape-is_some 0 9 begun-Reach (refl, (refl, tt))
