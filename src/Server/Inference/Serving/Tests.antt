-- ===== src/Server/Inference/Serving/Tests.antt =====
-- Runs of whole requests for inference of internal/server/inference.go.
use llm_file_gateway.Prelude.{◌≡◌, refl, Option, none, some, [], ◌∷◌}
use llm_file_gateway.ApiError.{running, client_gone, new, write_any_error}
use llm_file_gateway.Files.Disk.{Bytes}
use llm_file_gateway.Server.Json.{Fields}
use llm_file_gateway.Server.FileApi.{tenant_id}
use llm_file_gateway.Server.Inference.{
  responses, has_file_reference, expand_items, expand_item, expand_content, expand_part,
  reference_parts, reference_source,
}
use llm_file_gateway.Server.Inference.Documents.{document_parts, artifact_parts}
use llm_file_gateway.Server.Inference.Handling.{handle_inference, expand, instruct}
use llm_file_gateway.Server.Inference.Tests
use llm_file_gateway.Server.Inference.Tests.{obtain, encode, reference}
use llm_file_gateway.Server.Proxy.{upstream_headers, copy_headers}
use llm_file_gateway.Server.Proxy.Forward.{Reply, silent, UpstreamRequest, exchange, forward_json}
use llm_file_gateway.Server.Proxy.Forward.Tests.{http, course, settings, request}
use llm_file_gateway.Server.Inference.Serving.{Moments, whole, too_large, serve}
use llm_file_gateway.Server.Inference.Serving.Guarded.{IsServed, inference_carries_no_reference}

abbrev decode : Bytes → Option Fields
decode body = some (Tests.request reference)

abbrev marshal : Fields → Bytes
marshal payload = 123 ∷ 125 ∷ []

abbrev moments : Moments
moments = record { after_body = running; before_original = running; after_expansion = running }

abbrev body : Bytes
body = 123 ∷ []

abbrev sent : UpstreamRequest
sent = record {
  method = "POST";
  url = "http://model/v1/responses";
  header =
      ("Authorization", "Bearer vllm" ∷ [])
      ∷ ("Content-Type", "application/json" ∷ [])
      ∷ ("Accept", "text/plain" ∷ [])
      ∷ [];
  body = record { pieces = (123 ∷ 125 ∷ []) ∷ []; error = none };
}

served :
    (serve http "http://model/v1" "vllm" settings "m" 50 encode decode marshal
      (λ tenant. obtain)
      responses
      moments
      course
      request
      (whole body)).upstream_request
    ≡ some sent
unfolding serve handle_inference has_file_reference expand expand_items expand_item expand_content
    expand_part reference_parts reference_source document_parts artifact_parts instruct tenant_id
    forward_json exchange upstream_headers copy_headers
served = refl

oversized :
    (serve http "http://model/v1" "vllm" settings "m" 50 encode decode marshal
      (λ tenant. obtain)
      responses
      moments
      course
      request
      (too_large 9)).reply
    ≡ Reply.refused
        (new 400 "request_too_large" "Request body exceeds the configured limit of 9 bytes." "")
unfolding serve tenant_id
oversized = refl

abandoned :
    (serve http "http://model/v1" "vllm" settings "m" 50 encode
      (λ b. none)
      marshal
      (λ tenant. obtain)
      responses
      (record moments { before_original = client_gone })
      course
      request
      (whole body)).reply
    ≡ silent
unfolding serve handle_inference tenant_id write_any_error
abandoned = refl

inference_carries_no_reference_example :
    IsServed http "http://model/v1" "vllm" settings "m" 50 encode decode marshal
      (λ tenant. obtain)
      responses
      moments
      course
      request
      sent
      (whole body)
inference_carries_no_reference_example =
    inference_carries_no_reference http "http://model/v1" "vllm" settings "m" 50 encode decode
      marshal (λ tenant. obtain) responses moments course request sent (whole body) served
