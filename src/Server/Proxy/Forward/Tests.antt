-- ===== src/Server/Proxy/Forward/Tests.antt =====
-- Runs of requests that internal/server/proxy.go passes on.
use llm_file_gateway.Prelude.{ℕ, ◌≡◌, refl, true, false, inr, none, some, [], ◌∷◌, if◌then◌else◌}
use llm_file_gateway.Prelude.Int.{pos}
use llm_file_gateway.Prelude.Text.{String, ◌=ˢ◌}
use llm_file_gateway.ApiError.{running, deadline_passed, new}
use llm_file_gateway.Server.FileApi.{tenant_id}
use llm_file_gateway.Server.FileApi.Handlers.{Settings}
use llm_file_gateway.Server.Proxy.{copy_headers, upstream_headers}
use llm_file_gateway.Server.Proxy.Bodies.{
  Upstream, Write, chunk, flushed, log_upstream_error_response,
}
use llm_file_gateway.Server.Proxy.Forward.{
  Request, UpstreamRequest, upstream_error, refused, answered, Http, Course, exchange,
  forward_request, forward_json, passthrough,
}
use llm_file_gateway.Server.Proxy.Forward.Faithful.{IsPassedOn, replies-IsPassedOn}
use llm_file_gateway.Server.Proxy.Forward.Guarded.{IsAllowed, passthrough_guarded}

abbrev same : String → String
same s = s

abbrev model_reply : Upstream
model_reply = record {
  status = 503;
  header = ("Content-Type", "text/event-stream; charset=utf-8" ∷ []) ∷ ("Trailer", "x" ∷ []) ∷ [];
  body = record { pieces = (1 ∷ 2 ∷ []) ∷ [] ∷ (3 ∷ []) ∷ []; error = none };
}

abbrev pub http : Http
http = record {
  to_lower = λ name. if name =ˢ "Trailer" then "trailer" else name;
  trim_space = same;
  canonical = same;
  equal_fold = λ a b. a =ˢ b;
  is_valid = λ method url. true;
  call = λ sent. inr model_reply;
  unmarshal = λ preview. none;
  reads = λ pieces. pieces;
}

abbrev taken : ℕ → Write
taken n = record { ok = true; taken = 0; flush_ok = true }

abbrev pub course : Course
course = record { before_call = running; after_call = running; at_start = running; writes = taken }

abbrev pub settings : Settings
settings = record {
  digest = λ token. "d1";
  auth_required = true;
  api_key = "key";
  max_file_bytes = 3;
  file_ttl = pos 0;
}

abbrev pub request : Request
request = record {
  method = "GET";
  path = "models";
  raw_query = "a=b";
  header = ("Authorization", "Bearer key" ∷ []) ∷ ("Accept", "text/plain" ∷ []) ∷ [];
  body = record { pieces = []; error = none };
}

abbrev sent : UpstreamRequest
sent = record {
  method = "GET";
  url = "http://model/v1/models?a=b";
  header = ("Authorization", "Bearer vllm" ∷ []) ∷ ("Accept", "text/plain" ∷ []) ∷ [];
  body = record { pieces = []; error = none };
}

passed_on :
    (passthrough http "http://model/v1//" "vllm" settings course request).upstream_request
    ≡ some sent
unfolding passthrough forward_request exchange tenant_id upstream_headers copy_headers
passed_on = refl

-- The preview of an error is one write, as long as the read that follows it is another.
streamed :
    (passthrough http "http://model/v1//" "vllm" settings course request).reply
    ≡ answered 503
        (("Content-Type", "text/event-stream; charset=utf-8" ∷ []) ∷ [])
        (chunk (1 ∷ 2 ∷ 3 ∷ []) ∷ flushed ∷ [])
unfolding passthrough forward_request exchange tenant_id upstream_headers copy_headers
    log_upstream_error_response
streamed = refl

late :
    (forward_json http "http://model/v1" "vllm" false
      (record course { at_start = deadline_passed })
      request
      "responses"
      []).reply
    ≡ refused (new 504 "request_timeout" "The request to upstream model timeout." "")
unfolding forward_json exchange upstream_error
late = refl

files_path :
    (passthrough http "http://model/v1" "vllm" settings course
      (record request { path = "files/x" })).upstream_request
    ≡ none
unfolding passthrough tenant_id
files_path = refl

passthrough_guarded_example : IsAllowed http "http://model/v1//" "vllm" settings request sent
passthrough_guarded_example =
    passthrough_guarded http "http://model/v1//" "vllm" (λ name. refl) settings course request sent
      passed_on

replies-IsPassedOn_example :
    let passed = passthrough http "http://model/v1//" "vllm" settings course request in
    let original = forward_request http "http://model/v1//" "vllm" true course request in
    let expanded =
      forward_json http "http://model/v1//" "vllm" true course request "responses" (1 ∷ []) in
    IsPassedOn http course.writes passed.upstream_request passed.reply
    × IsPassedOn http course.writes original.upstream_request original.reply
    × IsPassedOn http course.writes expanded.upstream_request expanded.reply
replies-IsPassedOn_example =
    replies-IsPassedOn http "http://model/v1//" "vllm" (λ pieces. refl) settings true course request
      "responses" (1 ∷ [])
