-- ===== src/Server/Proxy/Forward.antt =====
-- Requests that are passed on to the model server (internal/server/proxy.go): `passthrough`, `forwardRequest`,
-- `forwardJSON` and `upstreamError`. The model server, the client's connection, package net/http and
-- strings.EqualFold are given.
pub mod Faithful
pub mod Guarded
pub mod Tests
use llm_file_gateway.Prelude.{
  ℕ, ◌+◌, ◌-◌, Bool, true, false, not, ◌&&◌, ◌||◌, Option, none, some, List, [], ◌∷◌, ◌++◌, ◌⊎◌,
  inl, inr, length, take, drop, ltb, leb, ◌==◌, if◌then◌else◌,
}
use llm_file_gateway.Prelude.Text.{String, code, ◌=ˢ◌, ◌+ˢ◌, has_prefix}
use llm_file_gateway.ApiError.{
  Error, Fault, deadline_exceeded, canceled, Ended, running, deadline_passed, client_gone, new,
  write_any_error,
}
use llm_file_gateway.Files.Disk.{Bytes}
use llm_file_gateway.Server.FileApi.Handlers.{Settings, tenant_of}
use llm_file_gateway.Server.Proxy.Bodies.{
  Body, Upstream, Write, Sent, Log, log_upstream_error_response, copy,
}
use llm_file_gateway.Server.Proxy.{
  Header, values_of, set_value, remove_key, copy_headers, upstream_headers,
}

-- A request of a client, with the path below /v1/.
pub record Request : Type 0 where
  pub method : String
  pub path : String
  pub raw_query : String
  pub header : Header
  pub body : Body

pub record UpstreamRequest : Type 0 where
  pub method : String
  pub url : String
  pub header : Header
  pub body : Body

-- Why `client.Do` or `startResponse` fails: a context, or an error of the network, which may be a timeout.
pub data RequestError : Type 0 where
  context_deadline context_canceled : RequestError
  network_error : Bool → RequestError

-- errors.As for a net.Error, and its `Timeout`
abbrev pub is_timeout : RequestError → Bool
is_timeout context_deadline = true
is_timeout context_canceled = false
is_timeout (network_error timeout) = timeout

unfoldable pub upstream_error : RequestError → Error
upstream_error e =
    if is_timeout e
    then new 504 "request_timeout" "The request to upstream model timeout." ""
    else new 502 "model_upstream_error" "Unable to reach the model server." ""

-- `request.Context().Err()`
abbrev pub context_error : Ended → Option RequestError
context_error running = none
context_error deadline_passed = some context_deadline
context_error client_gone = some context_canceled

abbrev pub context_fault : Ended → Option Fault
context_fault running = none
context_fault deadline_passed = some deadline_exceeded
context_fault client_gone = some canceled

pub data Reply : Type 0 where
  silent : Reply
  refused : Error → Reply
  answered : ℕ → Header → List Sent → Reply

-- strings.TrimRight(url, "/"); '/' is 47.
abbrev pub trim_slashes : String → String
trim_slashes String.[] = String.[]
trim_slashes (String.◌∷◌ c s) =
    let rest = trim_slashes s in if code c == 47 && rest =ˢ "" then String.[] else String.◌∷◌ c rest

abbrev pub upstream_url : String → String → String → String
upstream_url base path raw_query =
    trim_slashes base +ˢ "/" +ˢ path +ˢ (if raw_query =ˢ "" then "" else "?" +ˢ raw_query)

-- header.Get
abbrev pub value_of : String → Header → String
value_of key header = elim (values_of key header) [ [] ↦ "" | value ∷ values ↦ value ]

-- strings.SplitN at ';', which is 59: the part before the first one.
abbrev before_semicolon : String → String
before_semicolon String.[] = String.[]
before_semicolon (String.◌∷◌ c s) =
    let rest = before_semicolon s in if code c == 59 then String.[] else String.◌∷◌ c rest

-- The code that is called: package net/http and the model server.
pub record Http : Type 0 where
  pub to_lower : String → String
  pub trim_space : String → String
  pub canonical : String → String
  pub equal_fold : String → String → Bool
  -- Whether http.NewRequestWithContext takes a method and a URL.
  pub is_valid : String → String → Bool
  pub call : UpstreamRequest → RequestError ⊎ Upstream
  pub unmarshal : Bytes → Option (List String)
  -- The reads that io.Copy makes of a reader.
  pub reads : List Bytes → List Bytes

-- How the context of the request has ended before the call, after it, and when the reply starts, and the writes
-- to the client.
pub record Course : Type 0 where
  pub before_call : Ended
  pub after_call : Ended
  pub at_start : Ended
  pub writes : ℕ → Write

-- What is sent to the model server, the reply to the client, and what is logged of an error of the model server.
pub record Exchange : Type 0 where
  pub upstream_request : Option UpstreamRequest
  pub reply : Reply
  pub log : Option Log

abbrev pub unsent : Reply → Exchange
unsent reply = record { upstream_request = none; reply = reply; log = none }

module _ (http : Http) (base api_key : String) where
  abbrev pub is_event_stream : Header → Bool
  is_event_stream header =
      http.equal_fold (http.trim_space (before_semicolon (value_of "Content-Type" header)))
        "text/event-stream"

  -- After the reply is allowed to start.
  abbrev start : Bool → Course → Upstream → List Bytes → Reply
  start stream course upstream pieces = elim (context_error course.at_start) [
    | some e ↦ refused (upstream_error e)
    | none ↦
        answered upstream.status
          (copy_headers http.to_lower http.trim_space http.canonical [] upstream.header)
          (copy stream course.writes 0 (http.reads pieces))
  ]

  -- The error of the context, if it has ended, is the one that counts.
  abbrev pub or_context : Ended → RequestError → RequestError
  or_context ended e = elim (context_error ended) [ none ↦ e | some c ↦ c ]

  -- The call of the model server, and the reply. Whether the reply is flushed after every write depends on the
  -- header of the model server's reply.
  unfoldable pub exchange : (Header → Bool) → Course → UpstreamRequest → Exchange
  unfolding log_upstream_error_response upstream_error copy_headers
  exchange stream course sent = elim (http.call sent) [
    | inl e ↦ record {
      upstream_request = some sent;
      reply = refused (upstream_error (or_context course.after_call e));
      log = none;
    }
    | inr upstream ↦
        let (body, log) = log_upstream_error_response http.unmarshal upstream in
        record {
          upstream_request = some sent;
          reply = start (stream upstream.header) course upstream body.pieces;
          log = log;
        }
  ]

  unfoldable pub forward_request : Bool → Course → Request → Exchange
  unfolding exchange upstream_headers
  forward_request stream course request =
      let url = upstream_url base request.path request.raw_query in
      if not (http.is_valid request.method url)
      then unsent (refused (new 500 "internal_error" "Internal server error." ""))
      else exchange (λ header. stream || is_event_stream header) course
          (record {
            method = request.method;
            url = url;
            header =
                upstream_headers http.to_lower http.trim_space http.canonical api_key
                  request.header;
            body = request.body;
          })

  -- `forwardJSON` of a payload as it is encoded. The payload says whether the reply is a stream.
  unfoldable pub forward_json : Bool → Course → Request → String → Bytes → Exchange
  unfolding exchange upstream_headers
  forward_json stream course request endpoint encoded = elim (context_fault course.before_call) [
    | some fault ↦ unsent (elim (write_any_error course.before_call fault) [
      | none ↦ silent
      | some error ↦ refused error
    ])
    | none ↦
        exchange (λ header. stream) course
          (record {
            method = "POST";
            url = upstream_url base endpoint "";
            header = set_value "Authorization" ("Bearer " +ˢ api_key) (
                set_value "Content-Type" "application/json" (
                  remove_key "Authorization"
                    (copy_headers http.to_lower http.trim_space http.canonical [] request.header)));
            body = record { pieces = encoded ∷ []; error = none };
          })
  ]

  unfoldable pub passthrough : Settings → Course → Request → Exchange
  unfolding forward_request
  passthrough settings course request =
      elim (tenant_of settings (value_of "Authorization" request.header)) [
        | inl error ↦ unsent (refused error)
        | inr tenant ↦
            if request.path =ˢ "files" || has_prefix request.path "files/"
            then unsent
                (refused (new 405 "method_not_allowed" "Method not allowed for the Files API." ""))
            else forward_request false course request
      ]
