-- ===== src/ControlPlane/Matching.antt =====
-- What `GetMatchingPolicy` of internal/controlplane/client.go finds.
use aizen_gate.Base.{
  ◌≡◌, ◌↔◌, refl, String, none, some, [], ◌∷◌, All, arith, eq_refl, Bool-cases, Option-cases, inl,
  inr,
}
use aizen_gate.Base.Dict.{Dict, lookup, lookup-tail, All-lookup, HasUniqueKeys}
use aizen_gate.Policy.{Policy, matches, Matches, matches_iff}
use aizen_gate.ControlPlane.{Client, first_match, get_policy, get_matching_policy}

module _ (path method tier : String) where
  first_match-none :
      (m : Dict Policy)
      → (first_match path method tier m ≡ none) ↔ All (λ e. ¬ Matches path method tier e.1) m
  unfolding first_match
  first_match-none [] = (λ _. tt, λ _. refl)
  first_match-none ((k, p) ∷ m) = grind (arith, matches_iff path method tier p, first_match-none m)

  first_match-some :
      (m : Dict Policy) (p : Policy)
      → HasUniqueKeys m
      → first_match path method tier m ≡ some p
      → (k : String) × (lookup k m ≡ some p) × Matches path method tier p
  unfolding first_match lookup
  first_match-some [] p u e = cc
  first_match-some ((k, q) ∷ m) p (h, u) e = elim (Bool-cases (matches path method tier q)) [
    | inl hit ↦
        let same : q ≡ p = ground arith in
        (k, ground (arith, eq_refl k), rw (← same) ((matches_iff path method tier q).0 hit))
    | inr miss ↦
        let (j, found, fits) = first_match-some m p u (rw miss at e) in
        (j, lookup-tail k j q p m h found, fits)
  ]

-- No policy is found exactly if none in the cache accepts the path, the method and the tier.
pub get_matching_policy-none_iff :
    (path method tier : String) (c : Client)
    → (get_matching_policy path method tier c ≡ none)
      ↔ All (λ e. ¬ Matches path method tier e.1) c.policies
unfolding get_matching_policy
get_matching_policy-none_iff path method tier c = first_match-none path method tier c.policies

-- A policy that is found stands in the cache under some id, and accepts the path, the method and
-- the tier.
pub get_matching_policy_sound :
    (path method tier : String) (c : Client) (p : Policy)
    → HasUniqueKeys c.policies
    → get_matching_policy path method tier c ≡ some p
    → (k : String) × (get_policy k c ≡ some p) × Matches path method tier p
unfolding get_matching_policy get_policy
get_matching_policy_sound path method tier c p u e =
    first_match-some path method tier c.policies p u e

-- Where one id alone holds a policy that accepts the request, that policy is found, in whatever
-- order the map is visited.
pub get_matching_policy_unique :
    (path method tier : String) (c : Client) (k : String) (p : Policy)
    → HasUniqueKeys c.policies
    → get_policy k c ≡ some p
    → Matches path method tier p
    → ((j : String) (q : Policy) → get_policy j c ≡ some q → Matches path method tier q → j ≡ k)
    → get_matching_policy path method tier c ≡ some p
unfolding get_policy get_matching_policy
get_matching_policy_unique path method tier c k p u e fits only =
    elim (Option-cases (get_matching_policy path method tier c)) [
      | inl missed ↦ absurd (
          All-lookup (λ q. ¬ Matches path method tier q) k p c.policies
            ((get_matching_policy-none_iff path method tier c).0 missed) e fits)
      | inr (q, found) ↦
          let (j, at_j, q_fits) = get_matching_policy_sound path method tier c q u found in
          let same : j ≡ k = only j q at_j q_fits in
          let at_k : lookup k c.policies ≡ some q = rw (← same) at_j in cc
    ]

-- With two policies that both accept the request, the order in which the map is visited decides
-- which one is found.
pub get_matching_policy_by_order :
    (path method tier : String) (c : Client) (j k : String) (p q : Policy) (m : Dict Policy)
    → Matches path method tier p
    → Matches path method tier q
    → (get_matching_policy path method tier (record c { policies = (j, p) ∷ (k, q) ∷ m }) ≡ some p)
      × (get_matching_policy path method tier (record c { policies = (k, q) ∷ (j, p) ∷ m })
          ≡ some q)
unfolding get_matching_policy
get_matching_policy_by_order path method tier c j k p q m hp hq =
    ground (arith, (matches_iff path method tier p).1 hp, (matches_iff path method tier q).1 hq)
