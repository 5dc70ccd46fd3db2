-- ===== src/Server/Proxy/Forward/Guarded.antt =====
-- Which requests internal/server/proxy.go passes on to the model server, and as what.
use llm_file_gateway.Prelude.{
  ◌≡◌, refl, sym, subst, ap, ◌∙◌, Bool, true, false, ◌||◌, ◌⊎◌, inl, inr, none, some, [], ◌∷◌,
  Bool-cases, All, select, arith,
}
use llm_file_gateway.Prelude.Text.{String, ◌=ˢ◌, ◌+ˢ◌, has_prefix}
use llm_file_gateway.ApiError.{Error, Ended, running, deadline_passed, client_gone}
use llm_file_gateway.Files.Disk.{Bytes}
use llm_file_gateway.Server.FileApi.Handlers.{Settings, tenant_of}
use llm_file_gateway.Server.Proxy.{
  set_value, remove_key, copy_headers, Header, connection_headers, upstream_headers,
}
use llm_file_gateway.Server.Proxy.Headers.{IsEndToEnd, upstream_headers_clean}
use llm_file_gateway.Server.Proxy.Bodies.{Upstream}
use llm_file_gateway.Server.Proxy.Forward.{
  Request, UpstreamRequest, RequestError, Http, Course, value_of, upstream_url, exchange,
  forward_request, forward_json, passthrough,
}

module _ (http : Http) (base api_key : String) where
  exchange-request :
      (stream : Header → Bool) (course : Course) (sent : UpstreamRequest)
      → (exchange http base api_key stream course sent).upstream_request ≡ some sent
  unfolding exchange
  exchange-request stream course sent = called (http.call sent) refl
    where
      called :
          (outcome : RequestError ⊎ Upstream)
          → http.call sent ≡ outcome
          → (exchange http base api_key stream course sent).upstream_request ≡ some sent
      called (inl e) c = rw (exchange, c) refl
      called (inr upstream) c = rw (exchange, c) refl

  -- The request to the model server.
  abbrev pub passed_request : Request → UpstreamRequest
  passed_request request = record {
    method = request.method;
    url = upstream_url base request.path request.raw_query;
    header = upstream_headers http.to_lower http.trim_space http.canonical api_key request.header;
    body = request.body;
  }

  pub forward_request-request :
      (stream : Bool) (course : Course) (request : Request) (sent : UpstreamRequest)
      → (forward_request http base api_key stream course request).upstream_request ≡ some sent
      → sent ≡ passed_request request
  unfolding forward_request
  forward_request-request stream course request sent =
      elim (Bool-cases
        (http.is_valid request.method (upstream_url base request.path request.raw_query))) [
          | inr v ↦ rw (forward_request, v) λ e. absurd (cc e)
          | inl v ↦
              rw (forward_request, v)
                λ e. cc (e, exchange-request _ course (passed_request request))
        ]

  -- The request to the model server, for a payload.
  abbrev pub json_request : Request → String → Bytes → UpstreamRequest
  json_request request endpoint encoded = record {
    method = "POST";
    url = upstream_url base endpoint "";
    header = set_value "Authorization" ("Bearer " +ˢ api_key) (
        set_value "Content-Type" "application/json" (
          remove_key "Authorization"
            (copy_headers http.to_lower http.trim_space http.canonical [] request.header)));
    body = record { pieces = encoded ∷ []; error = none };
  }

  pub forward_json-request :
      (stream : Bool) (course : Course) (request : Request) (endpoint : String) (encoded : Bytes)
      (sent : UpstreamRequest)
      → (forward_json http base api_key stream course request endpoint encoded).upstream_request
        ≡ some sent
      → sent ≡ json_request request endpoint encoded
  unfolding forward_json
  forward_json-request stream course request endpoint encoded sent =
      by_context course.before_call refl
    where
      by_context :
          (ended : Ended)
          → course.before_call ≡ ended
          → (forward_json http base api_key stream course request endpoint encoded).upstream_request
            ≡ some sent
          → sent ≡ json_request request endpoint encoded
      by_context running c =
          rw (forward_json, c)
            λ e. cc (e, exchange-request _ course (json_request request endpoint encoded))
      by_context deadline_passed c = rw (forward_json, c) λ e. absurd (cc e)
      by_context client_gone c = rw (forward_json, c) λ e. absurd (cc e)

  module _ (settings : Settings) (course : Course) (request : Request) (tenant : String)
      (who : tenant_of settings (value_of "Authorization" request.header) ≡ inr tenant) where
    passthrough-refused :
        (request.path =ˢ "files" || has_prefix request.path "files/") ≡ true
        → (passthrough http base api_key settings course request).upstream_request ≡ none
    unfolding passthrough
    passthrough-refused f = rw (passthrough, who, f) refl

    passthrough-passed :
        (request.path =ˢ "files" || has_prefix request.path "files/") ≡ false
        → passthrough http base api_key settings course request
          ≡ forward_request http base api_key false course request
    unfolding passthrough
    passthrough-passed f = rw (passthrough, who, f) refl

  -- Who sent the request, and what is passed on of it.
  abbrev pub IsAllowed : Settings → Request → UpstreamRequest → Type 0
  IsAllowed settings request sent =
      (tenant : String) × (tenant_of settings (value_of "Authorization" request.header)
        ≡ inr tenant)
      × ((request.path =ˢ "files") ≡ false)
      × (has_prefix request.path "files/" ≡ false)
      × (sent.method ≡ request.method)
      × (sent.url ≡ upstream_url base request.path request.raw_query)
      × (sent.body ≡ request.body)
      × (select (λ entry. "Authorization" =ˢ entry.0) sent.header
          ≡ ("Authorization", ("Bearer " +ˢ api_key) ∷ []) ∷ [])
      × All
          (λ entry.
            IsEndToEnd http.to_lower
              (connection_headers http.to_lower http.trim_space http.canonical request.header)
              entry.0
            ⊎ (entry.0 ≡ "Authorization"))
          sent.header

  module _
      (case_only : (name : String) → http.to_lower (http.canonical name) ≡ http.to_lower name) where
    -- A request that the gateway does not handle itself reaches the model server only if its sender is a tenant
    -- and its path is not one of the Files API. Its method, its query and its body are those of the client; the
    -- only Authorization is the gateway's own key, and no header of one hop is passed on, whether it is a known one
    -- or one that the header Connection names. The canonical form of a key differs in its case only.
    pub passthrough_guarded :
        (settings : Settings) (course : Course) (request : Request) (sent : UpstreamRequest)
        → (passthrough http base api_key settings course request).upstream_request ≡ some sent
        → IsAllowed settings request sent
    unfolding passthrough
    passthrough_guarded settings course request sent =
        by_tenant (tenant_of settings (value_of "Authorization" request.header)) refl
      where
        by_tenant :
            (who : Error ⊎ String)
            → tenant_of settings (value_of "Authorization" request.header) ≡ who
            → (passthrough http base api_key settings course request).upstream_request ≡ some sent
            → IsAllowed settings request sent
        by_tenant (inl error) w = rw (passthrough, w) λ e. absurd (cc e)
        by_tenant (inr tenant) w = λ e.
            elim (Bool-cases (request.path =ˢ "files" || has_prefix request.path "files/")) [
              | inl f ↦ absurd (cc (e, (passthrough-refused settings course request tenant w f)))
              | inr f ↦
                  let clean =
                    upstream_headers_clean http.to_lower http.trim_space http.canonical case_only
                      api_key request.header in
                  subst (IsAllowed settings request)
                    (sym (
                      forward_request-request false course request sent (
                        ap (λ x. x.upstream_request)
                          (sym (passthrough-passed settings course request tenant w f))
                        ∙ e)))
                    (
                      tenant,
                      w,
                      ground (arith, f),
                      ground (arith, f),
                      refl,
                      refl,
                      refl,
                      clean.0,
                      clean.1,
                    )
            ]
