-- ===== src/Server/Inference/Handling.antt =====
-- `handleInference` of internal/server/inference.go from the body on: what is forwarded to the model
-- server. The body is given as it was decoded; `none` is a body that is not one JSON object.
pub mod Forwarded
use llm_file_gateway.Prelude.{
  ℕ, ◌+◌, Bool, true, false, not, ◌&&◌, ◌||◌, Option, none, some, ◌⊎◌, inl, inr, if◌then◌else◌,
}
use llm_file_gateway.Prelude.Text.{String, ◌=ˢ◌, ◌+ˢ◌}
use llm_file_gateway.ApiError.{Error, Fault, gateway, new}
use llm_file_gateway.Server.Json.{
  Json, null, boolean, number, text, array, object, Items, end, item, Fields, no_fields, field,
  lookup, set, text_of, is_text, items_of,
}
use llm_file_gateway.Server.Inference.{
  Endpoint, responses, chat_completions, Source, document_instruction, items_key,
  has_file_reference, expand_items,
}
use llm_file_gateway.Server.Inference.Documents.{Document}

pub data Forward : Type 0 where
  -- The body as it came, with the flag for a stream.
  original : Bool → Forward
  expanded : Fields → Forward
  -- An error that is written at once.
  refused : Error → Forward
  -- Why the file references cannot be expanded.
  unexpanded : Fault → Forward

abbrev pub is_stream : Json → Bool
is_stream (boolean b) = b
is_stream _ = false

abbrev pub put_items : String → Fields → Fault ⊎ (Items × Bool) → Fault ⊎ (Fields × Bool)
put_items key payload (inl fault) = inl fault
put_items key payload (inr (items, changed)) = inr (set key (array items) payload, changed)

abbrev pub instruction_message : Json
instruction_message =
    object (field "role" (text "system") (field "content" (text document_instruction) no_fields))

-- The document instruction, in front of the client's own.
unfoldable pub instruct : Endpoint → Fields → Fields
instruct responses payload =
    let existing = text_of (lookup "instructions" payload) in
    set "instructions"
      (text
        (if existing =ˢ "" then document_instruction else document_instruction +ˢ "\n" +ˢ existing))
      payload
instruct chat_completions payload =
    set "messages" (array (item instruction_message (items_of (lookup "messages" payload)))) payload

abbrev pub forward : Endpoint → Fault ⊎ (Fields × Bool) → Forward
forward endpoint (inl fault) = unexpanded fault
forward endpoint (inr (payload, changed)) =
    expanded (if changed then instruct endpoint payload else payload)

module _ (max_pages : ℕ) (encode : String → String)
    (obtain : ℕ → ℕ → Source → Fault ⊎ Document) where
  -- `expandResponses` and `expandChat`.
  unfoldable pub expand : Endpoint → Fields → Fault ⊎ (Fields × Bool)
  expand responses payload = elim (lookup "input" payload) as (λ _. Fault ⊎ (Fields × Bool)) [
    | text s ↦ inr (payload, false)
    | array items ↦
        put_items "input" payload (expand_items max_pages encode obtain responses 0 items)
    | _ ↦ inl (gateway (new 400 "invalid_request" "input must be a string or array." "input"))
  ]
  expand chat_completions payload =
      elim (lookup "messages" payload) as (λ _. Fault ⊎ (Fields × Bool)) [
        | array items ↦
            put_items "messages" payload
              (expand_items max_pages encode obtain chat_completions 0 items)
        | _ ↦ inl (gateway (new 400 "invalid_request" "messages must be an array." "messages"))
      ]

  unfoldable pub handle_inference : Endpoint → String → Option Fields → Forward
  unfolding has_file_reference expand
  handle_inference endpoint model none = original false
  handle_inference endpoint model (some payload) =
      if not (has_file_reference endpoint payload)
      then original (is_stream (lookup "stream" payload))
      else if not (is_text model (lookup "model" payload))
      then refused (new 404 "model_not_found" "The requested model is not available." "model")
      else forward endpoint (expand endpoint payload)
