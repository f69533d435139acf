-- ===== src/ControlPlane/Tests.antt =====
-- Runs of internal/controlplane at concrete inputs, and the theorems at such inputs.
use aizen_gate.Base.{
  false, ◌≡◌, ◌↔◌, refl, String, true, some, List, [], ◌∷◌, arith, eq_iff, inl, inr,
}
use aizen_gate.Base.Dict.{Dict, lookup}
use aizen_gate.Base.Text.{◌<>◌}
use aizen_gate.Policy.{Policy, Matches}
use aizen_gate.Http.{Request, state_of, status_of}
use aizen_gate.Fixtures.{sample, sample_json, steady, offline, ask, fresh}
use aizen_gate.ControlPlane.{Client, Plane, prefix, get_policy, Event, delete, start}
use aizen_gate.ControlPlane.Watch.{
  channel_closed, watch_loop, seen, Happening, written, watch_begins, watch_ends, stopped, reported,
  all_written, IsWatched, watch_loop-start,
}
use aizen_gate.ControlPlane.Mirror.{store_events, Mirrors}
use aizen_gate.ControlPlane.Handler.{save_policy, serve_http}
use aizen_gate.ControlPlane.Handler.Saving.{IsComplete, save_policy-400_iff}
use aizen_gate.ControlPlane.Handler.Cached.{IsValid, serve_http-IsValid}

abbrev online : Client
online = record offline { connected = true }

abbrev post : Request
post = record (ask "POST" "/api/v1/policies") { body = "A" }

abbrev drop_a : Request
drop_a = record (ask "DELETE" "/api/v1/policies") { query = ("id", "a") ∷ [] }

abbrev plane : Plane (Dict String)
plane = record { client = offline; etcd = [] }

sample-IsComplete : IsComplete sample
sample-IsComplete = record {
  has_id = ground (arith, eq_iff "a" "");
  has_path = ground (arith, eq_iff "/anything" "");
  has_limit = omega arith;
  has_window = omega arith;
}

abbrev one_policy : Client
one_policy = record offline { policies = ("a", sample) ∷ [] }

sample-Matches : Matches "/anything" "GET" "basic" sample
sample-Matches = record { on_path = inr refl; on_method = inl refl; on_tier = inr refl }

only_a :
    (j : String) (q : Policy)
    → get_policy j one_policy ≡ some q
    → Matches "/anything" "GET" "basic" q
    → j ≡ "a"
unfolding get_policy lookup
only_a j q e fits = ground (arith, eq_iff "a" j)

abbrev pairs : Dict String
pairs = (prefix <> "a", "A") ∷ []

abbrev drop_event : List Event
drop_event = delete (prefix <> "a") "" ∷ []

save_policy-400_iff_example :
    (status_of (save_policy steady sample_json post fresh plane) ≡ some 400) ↔ (
      ((p : Policy) → sample_json.decode "A" ≡ some p → ¬ IsComplete p)
      × (state_of (save_policy steady sample_json post fresh plane) ≡ plane))
save_policy-400_iff_example = save_policy-400_iff steady sample_json post fresh plane refl

abbrev connected_plane : Plane (Dict String)
connected_plane = record { client = online; etcd = [] }

plane-IsValid : IsValid []
unfolding lookup
plane-IsValid = record { unique = tt; usable = λ k p e. absurd (cc) }

serve_http-IsValid_example :
    IsValid (state_of (serve_http steady sample_json post fresh plane)).client.policies
serve_http-IsValid_example = serve_http-IsValid steady sample_json post fresh plane plane-IsValid

abbrev happenings : List Happening
happenings =
    watch_begins ∷ written [] ∷ watch_ends ∷ watch_begins ∷ written drop_event ∷ stopped ∷ []

watch_loop-start_example :
    (c' : Client) × (m : Dict Policy) × (start sample_json steady pairs online ≡ some c')
    × (watch_loop sample_json (reported false happenings) c'.policies ≡ some m)
    × Mirrors sample_json (store_events (seen (reported false happenings)) pairs) m
    × (IsWatched false happenings
        → Mirrors sample_json (store_events (all_written happenings) pairs) m)
unfolding seen reported
watch_loop-start_example =
    watch_loop-start sample_json steady pairs online pairs happenings refl refl refl (tt, tt)
      ((sample, refl, refl), tt) (("a", refl), tt)

-- A deletion between two watches is not reported.
unreported :
    reported false (watch_begins ∷ watch_ends ∷ written drop_event ∷ watch_begins ∷ [])
    ≡ channel_closed ∷ []
unfolding reported
unreported = refl
