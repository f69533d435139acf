-- ===== src/Ai/Healer/Threshold.antt =====
-- When internal/ai/healer.go starts a query, and what it counts as a failure.
use aizen_gate.Base.{
  ℕ, ◌+◌, ◌≤◌, ◌≡◌, ◌↔◌, refl, sym, ap, ◌∙◌, subst, String, code, true, false, ◌||◌, ◌==◌, ==_iff,
  arith, str_eq, str_eq-ne, eq_iff, if◌then◌else◌, Bool-cases, inl, inr,
}
use text.Mathlib.TextLemmas.{cons-append, nil-append, append_assoc}
use aizen_gate.Base.Dict.{Dict}
use aizen_gate.Base.Text.{◌<>◌, has_suffix}
use aizen_gate.Base.Text.Laws.{Free}
use aizen_gate.Base.Decimal.{show, show_inj, show-Free}
use aizen_gate.Metrics.{colon, counter_key}
use aizen_gate.Ai.Healer.{
  is_failure, count, SelfHealer, new_self_healer, since, Rates, is_breached, evaluate_health, tick,
  finish,
}

-- The runs of the loop and of the queries that it starts, with the number of queries in flight.
pub data Run {F : Type 0} (rates : Rates F) (limit : F) : SelfHealer → ℕ → Type 0 where
  begin : Run rates limit new_self_healer 0
  ticked :
      {h : SelfHealer} {n : ℕ}
      → (counters : Dict ℕ) → Run rates limit h n
      → Run rates limit
          (tick rates limit counters h).0
          (n + (if (tick rates limit counters h).1 then 1 else 0))
  finished : {h : SelfHealer} {n : ℕ} → Run rates limit h (n + 1) → Run rates limit (finish h) n

flag_counts :
    {F : Type 0} (rates : Rates F) (limit : F) (counters : Dict ℕ) (h : SelfHealer) (n : ℕ)
    → n ≡ (if h.is_failing_over then 1 else 0)
    → n + (if (tick rates limit counters h).1 then 1 else 0)
      ≡ (if (tick rates limit counters h).0.is_failing_over then 1 else 0)
unfolding tick evaluate_health
flag_counts rates limit counters h n e = ground arith

-- In every run, the flag says exactly whether a query is in flight, and there is never more than
-- one.
pub one_query_at_a_time :
    {F : Type 0} (rates : Rates F) (limit : F) (h : SelfHealer) (n : ℕ)
    → Run rates limit h n
    → (n ≡ (if h.is_failing_over then 1 else 0)) × (n ≤ 1)
one_query_at_a_time rates limit _ _ begin = (refl, omega arith)
one_query_at_a_time rates limit _ _ (ticked counters run) =
    let (e, _) = one_query_at_a_time rates limit _ _ run in
    let now = flag_counts rates limit counters _ _ e in (now, ground (arith, now))
one_query_at_a_time rates limit _ _ (finished run) =
    let (e, le) = one_query_at_a_time rates limit _ _ run in
    (ground (arith, e, le), ground (arith, e, le))

-- A tick starts a query exactly if none is in flight, at least 10 requests came since the last
-- tick, and the rate of the failed ones, as float64 has it, is at least the limit.
pub tick_iff :
    {F : Type 0} (rates : Rates F) (limit : F) (counters : Dict ℕ) (h : SelfHealer)
    → let c = since h.last (count counters) in
      ((tick rates limit counters h).1 ≡ true)
      ↔ ((h.is_failing_over ≡ false) × (10 ≤ c.total) × (is_breached rates limit c ≡ true))
unfolding tick evaluate_health
tick_iff rates limit counters h = ground arith

abbrev head_code : String → ℕ
head_code String.[] = 0
head_code (String.◌∷◌ c s) = code c

abbrev tail : String → String
tail String.[] = ""
tail (String.◌∷◌ c s) = s

-- A text in front of a separator is not free of it.
Free-append-ne : (m d : String) → Free (code colon) (m <> String.◌∷◌ colon d) → ⊥
Free-append-ne String.[] d h = (rw nil-append at h).0 refl
Free-append-ne (String.◌∷◌ c m) d h = Free-append-ne m d (rw cons-append at h).1

suffix_of_Free : (d t : String) → Free (code colon) d → has_suffix d (String.◌∷◌ colon t) ≡ false
unfolding has_suffix
suffix_of_Free String.[] t h = str_eq-ne _ _ (λ e. omega (arith, ap head_code e))
suffix_of_Free (String.◌∷◌ c d) t h =
    let other : str_eq (String.◌∷◌ c d) (String.◌∷◌ colon t) ≡ false =
      str_eq-ne _ _ (λ e. h.0 (ap head_code e)) in
    ground (arith, other, suffix_of_Free d t h.1)

digits-Free : (n : ℕ) → Free (code colon) (show n)
digits-Free n = show-Free n (code colon) (inr (omega arith))

str_eq-cons : (d t : String) → str_eq (String.◌∷◌ colon d) (String.◌∷◌ colon t) ≡ str_eq d t
str_eq-cons d t = elim (Bool-cases (str_eq d t)) [
  | inl same ↦
      (eq_iff _ _).1 (ap (λ (u : String). String.◌∷◌ colon u) ((eq_iff d t).0 same)) ∙ sym same
  | inr other ↦
      str_eq-ne _ _ (λ e. absurd (ground (arith, other, (eq_iff d t).1 (ap tail e)))) ∙ sym other
]

suffix_behind_colon :
    (m d t : String)
    → Free (code colon) d
    → Free (code colon) t
    → has_suffix (m <> String.◌∷◌ colon d) (String.◌∷◌ colon t) ≡ str_eq d t
unfolding has_suffix
suffix_behind_colon String.[] d t hd ht =
    rw nil-append (ground (arith, str_eq-cons d t, suffix_of_Free d t hd))
suffix_behind_colon (String.◌∷◌ c m) d t hd ht =
    let other : str_eq (String.◌∷◌ c (m <> String.◌∷◌ colon d)) (String.◌∷◌ colon t) ≡ false =
      str_eq-ne _ _
        (λ e. Free-append-ne m d (subst (λ u. Free (code colon) u) (sym (ap tail e)) ht)) in
    rw cons-append (ground (arith, other, suffix_behind_colon m d t hd ht))

show_eq : (n m : ℕ) → str_eq (show n) (show m) ≡ (n == m)
show_eq n m = elim (Bool-cases (n == m)) [
  | inl same ↦ (eq_iff _ _).1 (ap show ((==_iff n m).0 same)) ∙ sym same
  | inr other ↦
      str_eq-ne _ _
        (λ (e : show n ≡ show m). absurd (ground (arith, other, (==_iff n m).1 (show_inj n m e))))
      ∙ sym other
]

key_ends :
    (method path : String) (status wanted : ℕ)
    → has_suffix (counter_key method path status) (String.◌∷◌ colon (show wanted))
      ≡ (status == wanted)
key_ends method path status wanted =
    ap (λ k. has_suffix k (String.◌∷◌ colon (show wanted)))
      (sym (
        append_assoc method (String.◌∷◌ colon path) (String.◌∷◌ colon (show status))
        ∙ rw cons-append refl))
    ∙ suffix_behind_colon _ (show status) (show wanted) (digits-Free status) (digits-Free wanted)
    ∙ show_eq status wanted

-- Of the statuses that the metrics count, the healer takes exactly 500, 502 and 504 for failures,
-- and no other server error.
pub is_failure-counter_key :
    (method path : String) (status : ℕ)
    → is_failure (counter_key method path status)
      ≡ (status == 502 || status == 504 || status == 500)
unfolding show
is_failure-counter_key method path status =
    let ends = key_ends method path status in ground (arith, ends 502, ends 504, ends 500)
