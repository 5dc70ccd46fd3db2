-- ===== src/Server/Inference/Serving.antt =====
-- `handleInference` of internal/server/inference.go as a whole: from the header Authorization and the reading of the
-- body to the request that the model server gets (Server/Proxy/Forward.antt). The codec of JSON is given, and so is
-- what the references lead to, for each tenant.
pub mod Guarded
pub mod Tests
use llm_file_gateway.Prelude.{ℕ, Bool, Option, none, some, List, [], ◌∷◌, ◌⊎◌, inl, inr}
use llm_file_gateway.Prelude.Text.{String}
use llm_file_gateway.ApiError.{
  Fault, deadline_exceeded, Ended, new, request_body_too_large, write_any_error,
}
use llm_file_gateway.Files.Disk.{Bytes}
use llm_file_gateway.Server.Json.{Fields, lookup}
use llm_file_gateway.Server.FileApi.Handlers.{Settings, tenant_of}
use llm_file_gateway.Server.Inference.{Endpoint, responses, chat_completions, Source}
use llm_file_gateway.Server.Inference.Documents.{Document}
use llm_file_gateway.Server.Inference.Handling.{
  Forward, original, expanded, refused, unexpanded, is_stream, handle_inference,
}
use llm_file_gateway.Server.Proxy.Bodies.{Body}
use llm_file_gateway.Server.Proxy.Forward.{
  Request, Reply, silent, Http, Course, Exchange, unsent, context_fault, value_of, forward_request,
  forward_json,
}

-- How io.ReadAll of the body ends: beyond the limit of http.MaxBytesReader, at the deadline of the connection, by
-- another error, or with the body.
pub data Reading : Type 0 where
  too_large : ℕ → Reading
  past_deadline : Reading
  unreadable : Reading
  whole : Bytes → Reading

-- How the context has ended after the body is read, before the original is forwarded, and after the expansion.
pub record Moments : Type 0 where
  pub after_body : Ended
  pub before_original : Ended
  pub after_expansion : Ended

abbrev pub path_of : Endpoint → String
path_of responses = "responses"
path_of chat_completions = "chat/completions"

-- `writeAnyError`, in place of a forwarded request.
abbrev pub failure : Ended → Fault → Exchange
failure ended fault =
    unsent (elim (write_any_error ended fault) [ none ↦ silent | some error ↦ Reply.refused error ])

-- An error if the context has ended.
abbrev pub unless_ended : Ended → Exchange → Exchange
unless_ended ended exchange = elim (context_fault ended) [
  | some fault ↦ failure ended fault
  | none ↦ exchange
]

module _ (http : Http) (base api_key : String) (settings : Settings) (model : String)
    (max_pages : ℕ) (encode : String → String) (decode : Bytes → Option Fields)
    (marshal : Fields → Bytes) (obtain : String → ℕ → ℕ → Source → Fault ⊎ Document) where
  abbrev pub decide : Endpoint → String → Bytes → Forward
  decide endpoint tenant body =
      handle_inference max_pages encode (obtain tenant) endpoint model (decode body)

  -- What is done with the body by the decision on it.
  abbrev pub act : Endpoint → Moments → Course → Request → Bytes → Forward → Exchange
  act endpoint moments course request body (original stream) =
      unless_ended moments.before_original (
        forward_request http base api_key stream course (record request {
          path = path_of endpoint;
          body = record { pieces = body ∷ []; error = none };
        }))
  act endpoint moments course request body (refused error) = unsent (Reply.refused error)
  act endpoint moments course request body (unexpanded fault) =
      unless_ended moments.after_expansion (failure moments.after_expansion fault)
  act endpoint moments course request body (expanded payload) =
      unless_ended moments.after_expansion (
        forward_json http base api_key (is_stream (lookup "stream" payload)) course request
          (path_of endpoint) (marshal payload))

  abbrev pub after_reading : Endpoint → String → Moments → Course → Request → Reading → Exchange
  after_reading endpoint tenant moments course request (too_large limit) =
      unsent (Reply.refused (request_body_too_large limit))
  after_reading endpoint tenant moments course request past_deadline =
      failure moments.after_body deadline_exceeded
  after_reading endpoint tenant moments course request unreadable =
      unless_ended moments.after_body
        (unsent (Reply.refused (new 400 "invalid_request" "Request body must be valid JSON." "")))
  after_reading endpoint tenant moments course request (whole body) =
      act endpoint moments course request body (decide endpoint tenant body)

  unfoldable pub serve : Endpoint → Moments → Course → Request → Reading → Exchange
  unfolding handle_inference forward_request forward_json write_any_error
  serve endpoint moments course request reading =
      elim (tenant_of settings (value_of "Authorization" request.header)) [
        | inl error ↦ unsent (Reply.refused error)
        | inr tenant ↦ after_reading endpoint tenant moments course request reading
      ]
