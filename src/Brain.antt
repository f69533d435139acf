-- ===== src/Brain.antt =====
-- internal/brain: a client for Gemini, with its two versions, client.go and brain.go, which declare
-- the same names. The package is imported by no other. What the SDK gives is a parameter.
pub mod Client
pub mod Gemini
pub mod Versions
mod Tests
use aizen_gate.Base.{ℕ, ◌%◌, ◌^◌, String, Option, none, some, List, [], ◌∷◌, if◌then◌else◌}
use aizen_gate.Base.Int.{ℤ, nonpos, to_bits}
use aizen_gate.Base.Text.{◌<>◌}

-- `TokenUsage` and `LLMResponse`
pub record TokenUsage : Type 0 where
  pub prompt_tokens : ℕ
  pub completion_tokens : ℕ

pub record LlmResponse : Type 0 where
  pub content : String
  pub usage : TokenUsage

-- A part of a candidate: a text, or anything else.
pub data Part : Type 0 where
  text : String → Part
  blob : Part

-- The candidates, each with the parts of its content or no content, and the usage.
pub record GenerateContentResponse : Type 0 where
  pub candidates : List (Option (List Part))
  pub usage_metadata : Option TokenUsage

-- The errors of the package, with the message of what they wrap.
pub data LlmError : Type 0 where
  quota_exceeded : String → LlmError
  api_error : String → LlmError
  client_error : String → LlmError
  empty_response : LlmError  -- "gemini returned an empty response"
  invalid_response : LlmError  -- `ErrInvalidResponse`

pub data Result : Type 0 where
  ok : LlmResponse → Result
  failed : LlmError → Result

-- The builder over the parts: those that are no text are skipped.
unfoldable pub joined_texts : List Part → String
joined_texts [] = ""
joined_texts (text s ∷ parts) = s <> joined_texts parts
joined_texts (blob ∷ parts) = joined_texts parts

-- The parts of the first candidate.
abbrev pub first_content : GenerateContentResponse → Option (List Part)
first_content r = elim r.candidates [ [] ↦ none | c ∷ _ ↦ c ]

abbrev pub no_usage : TokenUsage
no_usage = record { prompt_tokens = 0; completion_tokens = 0 }

-- What the request sets on the model: the temperature in the units of the caller, and the limit of
-- tokens, an int32; none is a setting that is left alone.
pub record ModelSettings (T : Type 0) : Type 0 where
  pub temperature : Option T
  pub max_output_tokens : Option ℕ

pub record LlmRequest (T : Type 0) : Type 0 where
  pub prompt : String
  pub temperature : T
  pub max_tokens : ℤ

-- A limit of tokens that is positive, cut to 32 bits.
abbrev pub tokens_limit : ℤ → Option ℕ
tokens_limit n = if nonpos n then none else some (to_bits n % 2 ^ 32)

-- What the SDK gives for a request: an error with its message, or a response.
pub data SdkReply : Type 0 where
  refused : String → SdkReply
  answered : GenerateContentResponse → SdkReply
