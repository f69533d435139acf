-- ===== src/ControlPlane/Mirror.antt =====
-- The cache of internal/controlplane/client.go as a mirror of the pairs under the policy prefix.
use aizen_gate.Base.{
  ◌≡◌, ◌≢◌, refl, String, Option, none, some, List, [], ◌∷◌, All, arith, str_eq, eq_iff, eq_refl,
  Bool-cases, str_eq-ne, Option-cases, inl, inr, true,
}
use aizen_gate.Base.Dict.{
  Dict, lookup, insert, erase, lookup-insert, lookup-erase, lookup-Lacks, HasUniqueKeys,
}
use aizen_gate.Base.Text.{◌<>◌}
use aizen_gate.Base.Text.Laws.{strip_prefix-append, append_inj_right}
use aizen_gate.Policy.{Policy}
use aizen_gate.ControlPlane.{
  Etcd, PolicyJson, Client, prefix, Event, put, delete, update_local_cache, delete_from_local_cache,
  apply_event, watch_events, load_all, start,
}

-- What an event does to the pairs of etcd.
unfoldable pub store_event : Event → Dict String → Dict String
store_event (put key value) s = insert key value s
store_event (delete key value) s = erase key s

unfoldable pub store_events : List Event → Dict String → Dict String
store_events [] s = s
store_events (e ∷ es) s = store_events es (store_event e s)

same_id : (a b : String) → str_eq (prefix <> a) (prefix <> b) ≡ str_eq a b
same_id a b = elim (Bool-cases (str_eq a b)) [
  | inl same ↦ let e : a ≡ b = (eq_iff a b).0 same in rw (e, eq_refl (prefix <> b), eq_refl b)
  | inr other ↦ rw other (
      str_eq-ne _ _
        (λ (e : prefix <> a ≡ prefix <> b). cc ((eq_iff a b).1 (append_inj_right prefix a b e))))
]

head_test :
    (key : String) (p : Policy) (id : String)
    → key ≡ prefix <> p.id
    → str_eq key (prefix <> id) ≡ str_eq p.id id
head_test key p id e = rw e (same_id p.id id)

module _ (json : PolicyJson) where
  -- The policy that a stored value stands for.
  abbrev pub decoded : Option String → Option Policy
  decoded none = none
  decoded (some value) = json.unmarshal value

  -- Each id has in the cache what the value under its key decodes to.
  pub record Mirrors (s : Dict String) (m : Dict Policy) : Type 0 where
    pub same : (id : String) → lookup id m ≡ decoded (lookup (prefix <> id) s)

  -- The key is the prefix and an id, and a value that is written decodes to a policy of that id.
  abbrev pub WellKeyed : Event → Type 0
  WellKeyed (put key value) =
      (p : Policy) × (json.unmarshal value ≡ some p) × (key ≡ prefix <> p.id)
  WellKeyed (delete key value) = (id : String) × (key ≡ prefix <> id)

  apply_event-Mirrors :
      (e : Event) (s : Dict String) (m : Dict Policy)
      → WellKeyed e
      → Mirrors s m
      → (m' : Dict Policy) × (apply_event json e m ≡ some m') × Mirrors (store_event e s) m'
  unfolding apply_event store_event
  apply_event-Mirrors (put key value) s m (p, reads, at_key) h = (
    insert p.id p m,
    ground arith,
    record { same = λ id. simp (at_key, lookup-insert, same_id) (ground (arith, h.same id)) },
  )
  apply_event-Mirrors (delete key value) s m (i, at_key) h = (
    erase i m,
    rw (at_key, strip_prefix-append prefix i, delete_from_local_cache),
    record { same = λ id. simp (at_key, lookup-erase, same_id) (ground (arith, h.same id)) },
  )

  watch_events-Mirrors :
      (es : List Event) (s : Dict String) (m : Dict Policy)
      → All WellKeyed es
      → Mirrors s m
      → (m' : Dict Policy) × (watch_events json es m ≡ some m') × Mirrors (store_events es s) m'
  unfolding watch_events store_events
  watch_events-Mirrors [] s m _ h = (m, refl, h)
  watch_events-Mirrors (e ∷ es) s m (w, ws) h =
      let (m', applied, h') = apply_event-Mirrors e s m w h in
      let (m'', watched, h'') = watch_events-Mirrors es (store_event e s) m' ws h' in
      (m'', rw (applied, watch_events) watched, h'')

  -- The fetched pairs, as the events that wrote them.
  abbrev pub WellKeyedPair : String × String → Type 0
  WellKeyedPair (key, value) = WellKeyed (put key value)

  load_all-lookup :
      (kvs : Dict String) (m : Dict Policy) (id : String)
      → HasUniqueKeys kvs
      → All WellKeyedPair kvs
      → lookup (prefix <> id) kvs ≡ none
      → lookup id (load_all json kvs m) ≡ lookup id m
  unfolding load_all update_local_cache lookup
  load_all-lookup [] m id u w e = refl
  load_all-lookup ((key, value) ∷ kvs) m id (h, u) ((p, reads, at_key), w) e = ground (
    arith,
    head_test key p id at_key,
    lookup-insert p.id id p m,
    load_all-lookup kvs (insert p.id p m) id u w,
  )

  load_all-Mirrors :
      (kvs : Dict String) (m : Dict Policy) (id : String) (value : String)
      → HasUniqueKeys kvs
      → All WellKeyedPair kvs
      → lookup (prefix <> id) kvs ≡ some value
      → lookup id (load_all json kvs m) ≡ json.unmarshal value
  unfolding load_all update_local_cache lookup
  load_all-Mirrors [] m id v u w e = cc
  load_all-Mirrors ((key, value) ∷ kvs) m id v (h, u) ((p, reads, at_key), w) e = ground (
    arith,
    head_test key p id at_key,
    eq_iff key (prefix <> id),
    lookup-Lacks key kvs h,
    lookup-insert p.id id p m,
    load_all-lookup kvs (insert p.id p m) id u w,
    load_all-Mirrors kvs (insert p.id p m) id v u w,
  )

  load_all_new-Mirrors :
      (kvs : Dict String)
      → HasUniqueKeys kvs
      → All WellKeyedPair kvs
      → Mirrors kvs (load_all json kvs [])
  unfolding lookup
  load_all_new-Mirrors kvs u w = record {
    same = λ id. elim (Option-cases (lookup (prefix <> id) kvs)) [
      | inl missing ↦ rw missing (load_all-lookup kvs [] id u w missing)
      | inr (value, found) ↦ rw found (load_all-Mirrors kvs [] id value u w found)
    ];
  }

  -- A new client that starts on pairs written under the prefix and the id of the policy they hold,
  -- and then handles events of the same kind, has in its cache exactly what the pairs decode to
  -- after those events.
  pub watch-start :
      {E : Type 0} (etcd : Etcd E) (store : E) (c : Client) (kvs : Dict String) (es : List Event)
      → c.connected ≡ true
      → c.policies ≡ []
      → etcd.get_prefix prefix store ≡ some kvs
      → HasUniqueKeys kvs
      → All WellKeyedPair kvs
      → All WellKeyed es
      → (c' : Client) × (m : Dict Policy) × (start json etcd store c ≡ some c')
        × (watch_events json es c'.policies ≡ some m)
        × Mirrors (store_events es kvs) m
  unfolding start
  watch-start etcd store c kvs es connected new fetched u w ws =
      let h = load_all_new-Mirrors kvs u w in
      let (m, watched, mirrored) = watch_events-Mirrors es kvs (load_all json kvs []) ws h in
      (
        record c { policies = load_all json kvs []; watching = true },
        m,
        ground arith,
        watched,
        mirrored,
      )

  -- A value that decodes to a policy of another id than its key names stays in the cache after its
  -- key is deleted.
  pub stale_after_delete :
      (id value : String) (p : Policy) (m : Dict Policy)
      → json.unmarshal value ≡ some p
      → p.id ≢ id
      → (m' : Dict Policy) × (watch_events json
            (put (prefix <> id) value ∷ delete (prefix <> id) "" ∷ [])
            m
          ≡ some m')
        × (lookup p.id m' ≡ some p)
  unfolding watch_events apply_event
  stale_after_delete id value p m reads ne = (
    erase id (insert p.id p m),
    ground (arith, strip_prefix-append prefix id),
    ground (
      arith,
      lookup-erase id p.id (insert p.id p m),
      lookup-insert p.id p.id p m,
      eq_refl p.id,
      eq_iff id p.id,
    ),
  )
