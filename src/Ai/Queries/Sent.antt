-- ===== src/Ai/Queries/Sent.antt =====
-- Which requests a completion of internal/ai/brain.go sends, and in which order.
use aizen_gate.Base.{
  ◌≡◌, refl, String, Option, none, some, List, [], ◌∷◌, ◌++◌, arith, str_eq, if◌then◌else◌, inl,
  inr, Bool-cases, Option-cases, is_some, ap, sym,
}
use mathlib.Core.List.{append-nil}
use aizen_gate.Ai.{Reply, read_choices, read_candidates, generate_completion}
use aizen_gate.Ai.Queries.{
  QueryLibrary, HttpQuery, BrainConfig, Sends, Reads, deepseek_query, gemini_query, send_query,
  try_gemini, run_completion,
}

-- A client that keeps what it has sent.
abbrev pub traced : {W : Type 0} → Sends W → Sends (W × List HttpQuery)
traced sends q (w, sent) = let (w', reply) = sends q w in ((w', sent ++ q ∷ []), reply)

abbrev pub to_list : Option HttpQuery → List HttpQuery
to_list none = []
to_list (some q) = q ∷ []

-- The requests of one model.
abbrev pub asked : String → Option HttpQuery → List HttpQuery
asked key q = if str_eq key "" then [] else to_list q

module _ {W : Type 0} (read : Reads) (sends : Sends W) where
  query-traced :
      (q : Option HttpQuery) (w : W) (sent : List HttpQuery)
      → (send_query read (traced sends) q (w, sent)).0
        ≡ ((send_query read sends q w).0, sent ++ to_list q)
  unfolding send_query
  query-traced none w sent = ap (λ (l : List HttpQuery). (w, l)) (sym (append-nil sent))
  query-traced (some q) w sent = refl

  answer-traced :
      (q : Option HttpQuery) (w : W) (sent : List HttpQuery)
      → (send_query read (traced sends) q (w, sent)).1 ≡ (send_query read sends q w).1
  unfolding send_query
  answer-traced none w sent = refl
  answer-traced (some q) w sent = refl

module _ (lib : QueryLibrary) (cfg : BrainConfig) {W : Type 0} (sends : Sends W)
    (system prompt : String) where
  -- What DeepSeek answers, if it is asked.
  abbrev pub first_answer : W → Option String
  first_answer w =
      if str_eq cfg.keys.deepseek ""
      then none
      else (send_query read_choices sends (deepseek_query lib cfg system prompt) w).1

  try_gemini-sent :
      (w : W) (sent : List HttpQuery)
      → (try_gemini lib cfg (traced sends) system prompt (w, sent)).0.1
        ≡ sent ++ asked cfg.keys.gemini (gemini_query lib cfg system prompt)
  unfolding try_gemini
  try_gemini-sent w sent = elim (Bool-cases (str_eq cfg.keys.gemini "")) [
    | inl none_set ↦ rw none_set (sym (append-nil sent))
    | inr set ↦
        rw set (ap (λ (s : W × List HttpQuery). s.1) (query-traced read_candidates sends _ w sent))
  ]

  -- A completion sends the request for DeepSeek if its key is set and the request can be built,
  -- and behind it, unless DeepSeek gave a text, the one for Gemini under the same condition. It
  -- sends nothing else.
  pub run_completion-sent :
      (w : W)
      → (run_completion lib cfg (traced sends) system prompt (w, [])).0.1
        ≡ asked cfg.keys.deepseek (deepseek_query lib cfg system prompt)
          ++ (if is_some (first_answer w)
              then []
              else asked cfg.keys.gemini (gemini_query lib cfg system prompt))
  unfolding run_completion
  run_completion-sent w =
      let q = deepseek_query lib cfg system prompt in
      let same : (send_query read_choices (traced sends) q (w, [])).1
          ≡ (send_query read_choices sends q w).1 =
        answer-traced read_choices sends q w [] in
      let sent : (send_query read_choices (traced sends) q (w, [])).0
          ≡ ((send_query read_choices sends q w).0, to_list q) =
        query-traced read_choices sends q w [] in
      elim (Bool-cases (str_eq cfg.keys.deepseek "")) [
        | inl unset ↦ ground (arith, try_gemini-sent w [])
        | inr set ↦ elim (Option-cases (send_query read_choices sends q w).1) [
          | inl failed ↦
              ground (arith, try_gemini-sent (send_query read_choices sends q w).0 (to_list q))
          | inr (answer, told) ↦ ground (arith, append-nil (to_list q))
        ]
      ]

-- The reply to a request that could be built.
abbrev pub reply_to : (HttpQuery → Option Reply) → Option HttpQuery → Option Reply
reply_to f none = none
reply_to f (some q) = f q

module _ (lib : QueryLibrary) (cfg : BrainConfig) (f : HttpQuery → Option Reply) where
  query_lem :
      {W : Type 0} (read : Reads) (q : Option HttpQuery) (w : W)
      → read none ≡ none
      → ◌≡◌ {A = W × Option String} (send_query read (λ q w. (w, f q)) q w) (w, read (reply_to f q))
  unfolding send_query
  query_lem read none w missing = rw missing refl
  query_lem read (some q) w missing = refl

  -- Over a client whose replies depend on the request alone, the requests and the fall-back give
  -- what the completion over two black boxes gives.
  pub complete_lem :
      {W : Type 0} (system prompt : String) (w : W)
      → ◌≡◌ {A = W × Option String} (run_completion lib cfg (λ q w. (w, f q)) system prompt w) (
        w,
        generate_completion
            (λ s p. reply_to f (deepseek_query lib cfg s p))
            (λ s p. reply_to f (gemini_query lib cfg s p))
            cfg.keys
            system
            prompt,
      )
  unfolding run_completion try_gemini generate_completion
  complete_lem system prompt w = ground (
    arith,
    query_lem read_choices (deepseek_query lib cfg system prompt) w refl,
    query_lem read_candidates (gemini_query lib cfg system prompt) w refl,
  )
