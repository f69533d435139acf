-- ===== src/Ai/Healer/Failover.antt =====
-- When the answer of the model moves the gateway to another upstream.
use aizen_gate.Base.{
  ◌≡◌, ◌≢◌, ◌⊎◌, refl, ◌∙◌, String, true, Option, none, some, arith, eq_iff, inl, inr, Option-cases,
  if◌then◌else◌,
}
use aizen_gate.ControlPlane.{Etcd, Plane, update_upstream}
use aizen_gate.Ai.{clean_json}
use aizen_gate.Ai.Healer.{HealerResult, target_of, execute_failover, query_ai_and_recover}

target_of_sound :
    (o : Option HealerResult) (target : String)
    → target_of o ≡ some target
    → (r : HealerResult) × (o ≡ some r)
      × (r.unhealthy ≡ true)
      × (r.failover ≡ true)
      × (r.new_target ≢ "")
      × (r.new_target ≡ target)
target_of_sound none target h = absurd (ground (arith, h))
target_of_sound (some r) target h =
    (r, refl, ground arith, ground arith, ground (arith, eq_iff r.new_target ""), ground arith)

module _ {E : Type 0} (etcd : Etcd E) (read_result : String → Option HealerResult) where
  without_target :
      (text : String) (s : Plane E)
      → target_of (read_result (clean_json text)) ≡ none
      → query_ai_and_recover etcd read_result (some text) s ≡ (s, none)
  unfolding query_ai_and_recover
  without_target text s idle = ground (arith, idle)

  pub with_target :
      (text target : String) (s : Plane E)
      → target_of (read_result (clean_json text)) ≡ some target
      → query_ai_and_recover etcd read_result (some text) s ≡ execute_failover etcd target s
  unfolding query_ai_and_recover
  with_target text target s found = ground (arith, found)

  failover_lem :
      (target : String) (s : Plane E)
      → execute_failover etcd target s ≡ (
          if s.client.connected
          then (record s { etcd = (etcd.put "/zengate/upstream" target s.etcd).0 }, none)
          else (s, if s.client.has_callback then some target else none))
  unfolding execute_failover update_upstream
  failover_lem target s = ground arith

  -- A query changes nothing, unless the model's answer says both unhealthy and failover and names a
  -- target; then that target is written to etcd or, without a client, handed to the callback.
  pub query_ai_and_recover_cases :
      (answer : Option String) (s : Plane E)
      → (query_ai_and_recover etcd read_result answer s ≡ (s, none))
        ⊎ ((text : String) × (r : HealerResult) × (answer ≡ some text)
            × (read_result (clean_json text) ≡ some r)
            × (r.unhealthy ≡ true)
            × (r.failover ≡ true)
            × (r.new_target ≢ "")
            × (query_ai_and_recover etcd read_result answer s ≡ (
                if s.client.connected
                then (
                  record s { etcd = (etcd.put "/zengate/upstream" r.new_target s.etcd).0 },
                  none,
                )
                else (s, if s.client.has_callback then some r.new_target else none))))
  unfolding query_ai_and_recover
  query_ai_and_recover_cases none s = inl refl
  query_ai_and_recover_cases (some text) s =
      elim (Option-cases (target_of (read_result (clean_json text)))) [
        | inl idle ↦ inl (without_target text s idle)
        | inr (target, found) ↦
            let (r, reads, sick, move, named, same) = target_of_sound _ target found in
            inr (
              text,
              r,
              refl,
              reads,
              sick,
              move,
              named,
              with_target text target s found ∙ failover_lem target s ∙ rw same refl,
            )
      ]
