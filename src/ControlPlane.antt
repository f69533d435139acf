-- ===== src/ControlPlane.antt =====
-- internal/controlplane/client.go: the policy cache and how it follows etcd.
pub mod Matching
pub mod Mirror
pub mod Watch
pub mod Handler
mod Tests
use Prim.Native.String
use aizen_gate.Base.{
  ℕ, ◌≡◌, String, Bool, true, false, Option, none, some, List, [], ◌∷◌, str_eq, if◌then◌else◌,
}
use aizen_gate.Base.Dict.{Dict, lookup, insert, erase}
use aizen_gate.Base.Text.{◌<>◌, strip_prefix}
use aizen_gate.Policy.{Policy, matches}

-- What the code uses of the etcd client, whose state and failures are in `E`. `get_prefix` fails
-- with `none`, `put` says whether it succeeded, and `delete` counts what it deleted.
pub record Etcd (E : Type 0) : Type 0 where
  pub get_prefix : String → E → Option (List (String × String))
  pub put : String → String → E → E × Bool
  pub delete : String → E → E × Option ℕ

-- encoding/json at the type `Policy`, where every direction can fail: `Marshal`, `Unmarshal` of a
-- whole text, and `Decode` of the first value of a stream.
pub record PolicyJson : Type 0 where
  pub marshal : Policy → Option String
  pub unmarshal : String → Option Policy
  pub decode : String → Option Policy

-- `connected` is `cli != nil`, `has_callback` is `onUpstreamUpdate != nil`. The map is in the order
-- in which `Range` visits it, which package sync leaves open.
pub record Client : Type 0 where
  pub connected : Bool
  pub policies : Dict Policy
  pub has_callback : Bool
  pub watching : Bool

abbrev pub prefix : String
prefix = "/zengate/policies/"

-- `NewClient`; `connects` says whether `clientv3.New` succeeds for the endpoints.
unfoldable pub new_client : (List String → Bool) → List String → Option Client
new_client connects endpoints =
    if connects endpoints
    then some (record { connected = true; policies = []; has_callback = false; watching = false })
    else none

unfoldable pub get_policy : String → Client → Option Policy
get_policy id c = lookup id c.policies

unfoldable pub add_policy_to_cache : Policy → Client → Client
add_policy_to_cache p c = record c { policies = insert p.id p c.policies }

-- The values of a map, as `Range` visits them.
unfoldable pub values : Dict Policy → List Policy
values [] = []
values ((_, p) ∷ m) = p ∷ values m

unfoldable pub get_all_policies : Client → List Policy
unfolding values
get_all_policies c = values c.policies

unfoldable pub set_upstream_update_callback : Client → Client
set_upstream_update_callback c = record c { has_callback = true }

-- The target that the callback is called with, if there is a callback.
unfoldable pub update_upstream : String → Client → Option String
update_upstream target c = if c.has_callback then some target else none

-- The loop of `Range` in `GetMatchingPolicy`, which stops at the first match.
unfoldable pub first_match : String → String → String → Dict Policy → Option Policy
first_match path method tier [] = none
first_match path method tier ((_, p) ∷ m) =
    if matches path method tier p then some p else first_match path method tier m

unfoldable pub get_matching_policy : String → String → String → Client → Option Policy
unfolding first_match
get_matching_policy path method tier c = first_match path method tier c.policies

-- What a handler of package controlplane works on: the client, and the state of etcd behind it.
pub record Plane (E : Type 0) : Type 0 where
  pub client : Client
  pub etcd : E

pub data Event : Type 0 where
  put delete : String → String → Event

module _ (json : PolicyJson) where
  -- `updateLocalCache`: a value that does not decode changes nothing.
  unfoldable pub update_local_cache : String → Dict Policy → Dict Policy
  update_local_cache value m = elim (json.unmarshal value) [ none ↦ m | some p ↦ insert p.id p m ]

  -- `deleteFromLocalCache`: a key that is shorter than the prefix is a slice out of range, `none`.
  -- The watched keys begin with the prefix, so cutting by length is cutting the prefix.
  unfoldable pub delete_from_local_cache : String → Dict Policy → Option (Dict Policy)
  delete_from_local_cache key m = elim (strip_prefix key prefix) [
    | none ↦ none
    | some policy_id ↦ some (erase policy_id m)
  ]

  -- One event of a watch response; the value of a delete event is not read.
  unfoldable pub apply_event : Event → Dict Policy → Option (Dict Policy)
  unfolding update_local_cache delete_from_local_cache
  apply_event (put key value) m = some (update_local_cache value m)
  apply_event (delete key value) m = delete_from_local_cache key m

  -- The loop over the events of the responses, in order.
  unfoldable pub watch_events : List Event → Dict Policy → Option (Dict Policy)
  watch_events [] m = some m
  watch_events (e ∷ es) m = elim (apply_event e m) [ none ↦ none | some m' ↦ watch_events es m' ]

  -- The loop of `Start` over the fetched pairs.
  unfoldable pub load_all : List (String × String) → Dict Policy → Dict Policy
  load_all [] m = m
  load_all ((_, value) ∷ kvs) m = load_all kvs (update_local_cache value m)

  -- `Start`; `none` is the error of a failed fetch, which leaves the client as it was.
  unfoldable pub start : {E : Type 0} → Etcd E → E → Client → Option Client
  unfolding load_all
  start etcd store c =
      if c.connected
      then elim (etcd.get_prefix prefix store) [
        | none ↦ none
        | some kvs ↦ some (record c { policies = load_all kvs c.policies; watching = true })
      ]
      else some c
