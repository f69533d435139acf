-- ===== src/Ai/Brain.antt =====
-- When internal/ai/brain.go answers, and with what.
use aizen_gate.Base.{◌≡◌, ◌≢◌, ◌↔◌, ◌⊎◌, String, Option, none, arith, eq_iff}
use aizen_gate.Ai.{Keys, Reply, read_choices, read_candidates, generate_completion}

module _ (deepseek gemini : String → String → Option Reply) where
  -- A completion fails exactly if a key is set, and each model either has no key or gives no text.
  pub generate_completion-none_iff :
      (keys : Keys) (system prompt : String)
      → (generate_completion deepseek gemini keys system prompt ≡ none) ↔ (
          ((keys.deepseek ≢ "") ⊎ (keys.gemini ≢ ""))
          × ((keys.deepseek ≡ "") ⊎ (read_choices (deepseek system prompt) ≡ none))
          × ((keys.gemini ≡ "") ⊎ (read_candidates (gemini system prompt) ≡ none)))
  unfolding generate_completion
  generate_completion-none_iff keys system prompt =
      ground (arith, eq_iff keys.deepseek "", eq_iff keys.gemini "")
