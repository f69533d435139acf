-- ===== src/Ai/Analyzer/Scaling.antt =====
-- What the scaling of internal/ai/analyzer.go does to the policies in force.
use aizen_gate.Base.{
  ◌≡◌, refl, ap, subst, String, true, false, Option, none, some, [], ◌∷◌, arith, str_eq, eq_iff,
  eq_refl,
}
use aizen_gate.Base.Dict.{Dict, lookup, lookup-insert, lookup-Lacks, lookup-tail, HasUniqueKeys}
use aizen_gate.Policy.{Policy}
use aizen_gate.ControlPlane.{
  Etcd, PolicyJson, Plane, Client, values, get_policy, get_all_policies, add_policy_to_cache,
}
use aizen_gate.ControlPlane.Handler.Cached.{IsValid}
use aizen_gate.Ai.Analyzer.{Floats, scaled, scale_cached, execute_rate_limit_scaling}

module _ {F : Type 0} (floats : Floats F) (factor : F) where
  abbrev pub scaled_if : Option Policy → Option Policy → Option Policy
  scaled_if none q = q
  scaled_if (some p) q = some (scaled floats factor p)

  -- The policies that are visited are bound once, each under its id.
  scale_cached_lem :
      (m : Dict Policy) (c : Client) (k : String)
      → HasUniqueKeys m
      → ((j : String) (p : Policy) → lookup j m ≡ some p → p.id ≡ j)
      → lookup k (scale_cached floats factor (values m) c).policies
        ≡ scaled_if (lookup k m) (lookup k c.policies)
  unfolding scale_cached values lookup add_policy_to_cache scaled
  scale_cached_lem [] c k u named = refl
  scale_cached_lem ((j, p) ∷ m) c k (lacks, u) named =
      let own : p.id ≡ j = named j p (ground (arith, eq_refl j)) in
      let behind : str_eq j k ≡ true → lookup k m ≡ none =
        λ same. subst (λ i. lookup i m ≡ none) ((eq_iff j k).0 same) (lookup-Lacks j m lacks) in
      ground (
        arith,
        scale_cached_lem m (add_policy_to_cache (scaled floats factor p) c) k u
            (λ i q e. named i q (lookup-tail j i p q m lacks e)),
        lookup-insert p.id k (scaled floats factor p) c.policies,
        behind,
        ap (λ i. str_eq i k) own,
      )

  -- Without a client and on a valid cache, scaling replaces the limit of every cached policy by the
  -- limit scaled by the factor, and changes nothing else of any policy.
  pub scaling_scales_every_policy :
      {E : Type 0} (etcd : Etcd E) (json : PolicyJson) (s : Plane E) (k : String)
      → s.client.connected ≡ false
      → IsValid s.client.policies
      → get_policy k (execute_rate_limit_scaling floats etcd json factor s).client
        ≡ elim (get_policy k s.client) [
          | none ↦ none
          | some p ↦ some (record p { limit = floats.scale p.limit factor })
        ]
  unfolding execute_rate_limit_scaling get_policy get_all_policies scaled
  scaling_scales_every_policy etcd json s k offline v =
      let c = s.client in
      let e = scale_cached_lem c.policies c k v.unique (λ j p e. (v.usable j p e).under_id) in
      ground (arith, offline, e)
