-- ===== src/Brain/Client.antt =====
-- internal/brain/client.go
use aizen_gate.Base.{String, Bool, ◌||◌, Option, none, some, if◌then◌else◌}
use aizen_gate.Base.Text.{contains}
use aizen_gate.Brain.{
  LlmError, quota_exceeded, api_error, client_error, empty_response, Result, ok, failed,
  GenerateContentResponse, joined_texts, first_content, no_usage, ModelSettings, LlmRequest,
  tokens_limit, SdkReply, refused, answered,
}

unfoldable pub handle_api_error : String → LlmError
unfolding contains
handle_api_error message =
    if contains message "429" || contains message "quota"
    then quota_exceeded message
    else api_error message

unfoldable pub parse_response : GenerateContentResponse → Result
unfolding joined_texts
parse_response r = elim (first_content r) [
  | none ↦ failed empty_response
  | some parts ↦ ok (record {
    content = joined_texts parts;
    usage = elim r.usage_metadata [ none ↦ no_usage | some u ↦ u ];
  })
]

unfoldable pub configure_model : {T : Type 0} → (T → Bool) → LlmRequest T → ModelSettings T
configure_model is_positive r = record {
  temperature = if is_positive r.temperature then some r.temperature else none;
  max_output_tokens = tokens_limit r.max_tokens;
}

-- `unreachable` is the error of a client that cannot be made.
module _ {T : Type 0} (is_positive : T → Bool) (unreachable : Option String)
    (generate : ModelSettings T → String → SdkReply) where
  unfoldable pub generate_content : LlmRequest T → Result
  unfolding handle_api_error parse_response configure_model
  generate_content r = elim unreachable [
    | some message ↦ failed (client_error message)
    | none ↦ elim (generate (configure_model is_positive r) r.prompt) [
      | refused message ↦ failed (handle_api_error message)
      | answered response ↦ parse_response response
    ]
  ]
