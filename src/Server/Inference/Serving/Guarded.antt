-- ===== src/Server/Inference/Serving/Guarded.antt =====
-- Which requests for inference reach the model server, and as what (internal/server/inference.go).
use llm_file_gateway.Prelude.{
  ℕ, ◌≡◌, refl, sym, ap, subst, ◌∙◌, false, ◌⊎◌, inl, inr, Option, none, some, [], ◌∷◌,
}
use llm_file_gateway.Prelude.Text.{String}
use llm_file_gateway.ApiError.{Error, Fault, Ended, running, deadline_passed, client_gone}
use llm_file_gateway.Files.Disk.{Bytes}
use llm_file_gateway.Server.Json.{Fields, lookup}
use llm_file_gateway.Server.FileApi.Handlers.{Settings, tenant_of}
use llm_file_gateway.Server.Inference.{Endpoint, Source, has_file_reference}
use llm_file_gateway.Server.Inference.Documents.{Document}
use llm_file_gateway.Server.Inference.Handling.{
  Forward, original, expanded, refused, unexpanded, is_stream, handle_inference,
}
use llm_file_gateway.Server.Inference.Handling.Forwarded.{
  IsInstructed, forwarded_is_expanded, original_without_file,
}
use llm_file_gateway.Server.Proxy.Forward.{
  Request, UpstreamRequest, Http, Course, Exchange, value_of, upstream_url,
}
use llm_file_gateway.Server.Proxy.Forward.Guarded.{forward_request-request, forward_json-request}
use llm_file_gateway.Server.Inference.Serving.{
  Reading, too_large, past_deadline, unreadable, whole, Moments, path_of, failure, unless_ended,
  decide, act, after_reading, serve,
}

unless_ended-request :
    (ended : Ended) (x : Exchange) (sent : UpstreamRequest)
    → (unless_ended ended x).upstream_request ≡ some sent
    → x.upstream_request ≡ some sent
unless_ended-request running x sent e = e
unless_ended-request deadline_passed x sent e = absurd (cc e)
unless_ended-request client_gone x sent e = absurd (cc e)

module _ (http : Http) (base api_key : String) (settings : Settings) (model : String)
    (max_pages : ℕ) (encode : String → String) (decode : Bytes → Option Fields)
    (marshal : Fields → Bytes) (obtain : String → ℕ → ℕ → Source → Fault ⊎ Document) where
  -- A body as it came, which refers to no file; or a payload that refers to none any more, with the instruction.
  abbrev pub IsClean : Endpoint → Request → Bytes → UpstreamRequest → Type 0
  IsClean endpoint request body sent =
      ((sent.method ≡ request.method)
        × (sent.url ≡ upstream_url base (path_of endpoint) request.raw_query)
        × (sent.body.pieces ≡ body ∷ [])
        × ((payload : Fields)
            → decode body ≡ some payload
            → has_file_reference endpoint payload ≡ false))
      ⊎ ((payload : Fields) × (sent.method ≡ "POST")
          × (sent.url ≡ upstream_url base (path_of endpoint) "")
          × (sent.body.pieces ≡ marshal payload ∷ [])
          × (has_file_reference endpoint payload ≡ false)
          × IsInstructed endpoint payload)

  module _ (endpoint : Endpoint) (moments : Moments) (course : Course) (request : Request)
      (sent : UpstreamRequest) where
    act-IsClean :
        (tenant : String) (body : Bytes) (decision : Forward)
        → decide http base api_key settings model max_pages encode decode marshal obtain endpoint
            tenant body
          ≡ decision
        → (act http base api_key settings model max_pages encode decode marshal obtain endpoint
            moments course request body decision).upstream_request
          ≡ some sent
        → IsClean endpoint request body sent
    act-IsClean tenant body (original stream) d e =
        subst (IsClean endpoint request body)
          (sym (
            forward_request-request http base api_key stream course
              (record request {
                path = path_of endpoint;
                body = record { pieces = body ∷ []; error = none };
              })
              sent (unless_ended-request moments.before_original _ sent e)))
          (inl (
            refl,
            refl,
            refl,
            λ payload p.
                original_without_file max_pages encode (obtain tenant) endpoint model payload stream
                  (subst
                    (λ o.
                      handle_inference max_pages encode (obtain tenant) endpoint model o
                      ≡ original stream)
                    p d),
          ))
    act-IsClean tenant body (refused error) d e = absurd (cc e)
    act-IsClean tenant body (unexpanded fault) d e = absurd (
        cc (
          unless_ended-request moments.after_expansion (failure moments.after_expansion fault) sent
            e))
    act-IsClean tenant body (expanded payload) d e =
        let (clean, instructed) =
          forwarded_is_expanded max_pages encode (obtain tenant) endpoint model (decode body)
            payload d in
        subst (IsClean endpoint request body)
          (sym (
            forward_json-request http base api_key (is_stream (lookup "stream" payload)) course
              request (path_of endpoint) (marshal payload) sent
              (unless_ended-request moments.after_expansion _ sent e)))
          (inr (payload, refl, refl, refl, clean, instructed))

    abbrev pub IsServed : Reading → Type 0
    IsServed reading =
        (tenant : String) × (body : Bytes) × (tenant_of settings
            (value_of "Authorization" request.header)
          ≡ inr tenant)
        × (reading ≡ whole body)
        × IsClean endpoint request body sent

    after_reading-IsServed :
        (tenant : String) (reading : Reading)
        → tenant_of settings (value_of "Authorization" request.header) ≡ inr tenant
        → (after_reading http base api_key settings model max_pages encode decode marshal obtain
            endpoint tenant moments course request reading).upstream_request
          ≡ some sent
        → IsServed reading
    after_reading-IsServed tenant (too_large limit) w e = absurd (cc e)
    after_reading-IsServed tenant past_deadline w e = absurd (cc e)
    after_reading-IsServed tenant unreadable w e =
        absurd (cc (unless_ended-request moments.after_body _ sent e))
    after_reading-IsServed tenant (whole body) w e =
        (tenant, body, w, refl, act-IsClean tenant body _ refl e)

    serve-tenant :
        (tenant : String) (reading : Reading)
        → tenant_of settings (value_of "Authorization" request.header) ≡ inr tenant
        → serve http base api_key settings model max_pages encode decode marshal obtain endpoint
            moments course request reading
          ≡ after_reading http base api_key settings model max_pages encode decode marshal obtain
              endpoint tenant moments course request reading
    unfolding serve
    serve-tenant tenant reading w = rw (serve, w) refl

    -- A request for inference reaches the model server only if its sender is a tenant and its body
    -- was read. What the model server gets is the body as it came, with the client's method and
    -- query, if that is no JSON object or has no file part among the parts of its items; or a
    -- payload without such parts that carries the document instruction first.
    pub inference_carries_no_reference :
        (reading : Reading)
        → (serve http base api_key settings model max_pages encode decode marshal obtain endpoint
            moments course request reading).upstream_request
          ≡ some sent
        → IsServed reading
    unfolding serve
    inference_carries_no_reference reading =
        by_tenant (tenant_of settings (value_of "Authorization" request.header)) refl
      where
        by_tenant :
            (who : Error ⊎ String)
            → tenant_of settings (value_of "Authorization" request.header) ≡ who
            → (serve http base api_key settings model max_pages encode decode marshal obtain
                endpoint moments course request reading).upstream_request
              ≡ some sent
            → IsServed reading
        by_tenant (inl error) w = rw (serve, w) λ e. absurd (cc e)
        by_tenant (inr tenant) w = λ e.
            after_reading-IsServed tenant reading w
              (ap (λ x. x.upstream_request) (sym (serve-tenant tenant reading w)) ∙ e)
