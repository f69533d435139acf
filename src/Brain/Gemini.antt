-- ===== src/Brain/Gemini.antt =====
-- internal/brain/brain.go
use aizen_gate.Base.{String, ◌||◌, none, some, if◌then◌else◌}
use aizen_gate.Base.Text.{contains}
use aizen_gate.Brain.{
  LlmError, quota_exceeded, api_error, invalid_response, Result, ok, failed,
  GenerateContentResponse, joined_texts, first_content, no_usage, ModelSettings, LlmRequest,
  tokens_limit, SdkReply, refused, answered,
}

unfoldable pub handle_api_error : String → LlmError
unfolding contains
handle_api_error message =
    if contains message "429" || contains message "quota exceeded"
    then quota_exceeded message
    else api_error message

unfoldable pub parse_response : GenerateContentResponse → Result
unfolding joined_texts
parse_response r = elim (first_content r) [
  | none ↦ failed invalid_response
  | some parts ↦ ok (record { content = joined_texts parts; usage = no_usage })
]

module _ {T : Type 0} (generate : ModelSettings T → String → SdkReply) where
  abbrev settings : LlmRequest T → ModelSettings T
  settings r = record {
    temperature = some r.temperature;
    max_output_tokens = tokens_limit r.max_tokens;
  }

  unfoldable pub generate_content : LlmRequest T → Result
  unfolding handle_api_error parse_response
  generate_content r = elim (generate (settings r) r.prompt) [
    | refused message ↦ failed (handle_api_error message)
    | answered response ↦ parse_response response
  ]
