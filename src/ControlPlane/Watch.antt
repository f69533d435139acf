-- ===== src/ControlPlane/Watch.antt =====
-- `watchLoop` of internal/controlplane/client.go over the responses of its watches, their ends and
-- the shutdown.
use aizen_gate.Base.{
  ◌≡◌, refl, ap, ◌∙◌, String, Option, none, some, List, [], ◌∷◌, ◌++◌, arith, Option-cases, inl,
  inr, Bool, true, false, All, subst, if◌then◌else◌,
}
use aizen_gate.Base.Dict.{Dict, HasUniqueKeys}
use aizen_gate.Policy.{Policy}
use aizen_gate.ControlPlane.{
  Etcd, Client, start, PolicyJson, prefix, Event, apply_event, watch_events,
}
use aizen_gate.ControlPlane.Mirror.{store_events, Mirrors, WellKeyed, WellKeyedPair, watch-start}

-- What the `select` of the loop takes: a response, the end of the channel, or the shutdown.
pub data Signal : Type 0 where
  response : List Event → Signal
  channel_closed : Signal
  shutdown : Signal

module _ (json : PolicyJson) where
  -- At the end of the channel the loop asks for a new watch, and fetches nothing.
  unfoldable pub watch_loop : List Signal → Dict Policy → Option (Dict Policy)
  watch_loop [] m = some m
  watch_loop (response events ∷ signals) m = elim (watch_events json events m) [
    | none ↦ none
    | some m' ↦ watch_loop signals m'
  ]
  watch_loop (channel_closed ∷ signals) m = watch_loop signals m
  watch_loop (shutdown ∷ signals) m = some m

-- The events that the loop sees.
unfoldable pub seen : List Signal → List Event
seen [] = []
seen (response events ∷ signals) = events ++ seen signals
seen (channel_closed ∷ signals) = seen signals
seen (shutdown ∷ signals) = []

-- What happens after the pairs were read: writes under the prefix, the beginning of a watch, its
-- end, and the stop of the client.
pub data Happening : Type 0 where
  written : List Event → Happening
  watch_begins : Happening
  watch_ends : Happening
  stopped : Happening

-- What etcd documents of a watch without a revision: it reports what is written while it is there.
unfoldable pub reported : Bool → List Happening → List Signal
reported watching [] = []
reported watching (written events ∷ hs) =
    let rest = reported watching hs in if watching then response events ∷ rest else rest
reported watching (watch_begins ∷ hs) = reported true hs
reported watching (watch_ends ∷ hs) = channel_closed ∷ reported false hs
reported watching (stopped ∷ hs) = shutdown ∷ []

-- All that is written before the stop.
unfoldable pub all_written : List Happening → List Event
all_written [] = []
all_written (written events ∷ hs) = events ++ all_written hs
all_written (watch_begins ∷ hs) = all_written hs
all_written (watch_ends ∷ hs) = all_written hs
all_written (stopped ∷ hs) = []

-- Before the stop, nothing is written while there is no watch.
abbrev pub IsWatched : Bool → List Happening → Type 0
IsWatched watching [] = Unit
IsWatched watching (written events ∷ hs) = (watching ≡ true) × IsWatched watching hs
IsWatched watching (watch_begins ∷ hs) = IsWatched true hs
IsWatched watching (watch_ends ∷ hs) = IsWatched false hs
IsWatched watching (stopped ∷ hs) = Unit

seen-reported :
    (watching : Bool) (hs : List Happening)
    → IsWatched watching hs
    → seen (reported watching hs) ≡ all_written hs
unfolding seen reported all_written
seen-reported watching [] watched = refl
seen-reported watching (written events ∷ hs) (now, watched) =
    rw now (ap (λ es. events ++ es) (rw now at (seen-reported watching hs watched)))
seen-reported watching (watch_begins ∷ hs) watched = seen-reported true hs watched
seen-reported watching (watch_ends ∷ hs) watched = seen-reported false hs watched
seen-reported watching (stopped ∷ hs) watched = refl

module _ (json : PolicyJson) where
  watch_events-split :
      (es fs : List Event) (m : Dict Policy)
      → watch_events json (es ++ fs) m
        ≡ (elim (watch_events json es m) [ none ↦ none | some m' ↦ watch_events json fs m' ])
  unfolding watch_events
  watch_events-split [] fs m = refl
  watch_events-split (e ∷ es) fs m = elim (Option-cases (apply_event json e m)) [
    | inl stuck ↦ rw (stuck, watch_events) refl
    | inr (m', goes) ↦ rw (goes, watch_events) (watch_events-split es fs m')
  ]

  -- The loop does what its events do one after the other, however they are cut into responses.
  pub watch_loop-seen :
      (signals : List Signal) (m : Dict Policy)
      → watch_loop json signals m ≡ watch_events json (seen signals) m
  unfolding watch_loop seen watch_events
  watch_loop-seen [] m = refl
  watch_loop-seen (response events ∷ signals) m = elim (Option-cases (watch_events json events m)) [
    | inl stuck ↦ ground (arith, watch_events-split events (seen signals) m)
    | inr (m', goes) ↦
        ground (arith, watch_events-split events (seen signals) m, watch_loop-seen signals m')
  ]
  watch_loop-seen (channel_closed ∷ signals) m = watch_loop-seen signals m
  watch_loop-seen (shutdown ∷ signals) m = refl

  -- A new client that starts on pairs written under the prefix and the id of the policy they hold,
  -- and whose watches then come, go and report what is written while they are there, up to a
  -- shutdown, with events of the same kind, has in its cache exactly what the pairs decode to after
  -- the events that were reported. These are all events that were written since the pairs were
  -- read, if none was written before the first watch or between two of them.
  pub watch_loop-start :
      {E : Type 0} (etcd : Etcd E) (store : E) (c : Client) (kvs : Dict String)
      (hs : List Happening)
      → c.connected ≡ true
      → c.policies ≡ []
      → etcd.get_prefix prefix store ≡ some kvs
      → HasUniqueKeys kvs
      → All (WellKeyedPair json) kvs
      → All (WellKeyed json) (seen (reported false hs))
      → (c' : Client) × (m : Dict Policy) × (start json etcd store c ≡ some c')
        × (watch_loop json (reported false hs) c'.policies ≡ some m)
        × Mirrors json (store_events (seen (reported false hs)) kvs) m
        × (IsWatched false hs → Mirrors json (store_events (all_written hs) kvs) m)
  watch_loop-start etcd store c kvs hs connected new fetched u w ws =
      let signals = reported false hs in
      let (c', m, started, watched, mirrors) =
        watch-start json etcd store c kvs (seen signals) connected new fetched u w ws in
      (
        c',
        m,
        started,
        watch_loop-seen signals c'.policies ∙ watched,
        mirrors,
        λ all_seen.
            subst (λ es. Mirrors json (store_events es kvs) m) (seen-reported false hs all_seen)
              mirrors,
      )
