-- ===== src/Server/Proxy/Forward/Faithful.antt =====
-- What a client gets of the model server's reply, by internal/server/proxy.go.
use llm_file_gateway.Prelude.{
  ℕ, ◌≡◌, refl, subst, ◌∙◌, Bool, false, ◌||◌, ◌⊎◌, inl, inr, Option, none, some, List, [],
  Bool-cases,
}
use llm_file_gateway.Prelude.Text.{String, ◌=ˢ◌, has_prefix}
use llm_file_gateway.ApiError.{Error, Ended, running, deadline_passed, client_gone}
use llm_file_gateway.Files.Disk.{Bytes}
use llm_file_gateway.Server.FileApi.Handlers.{Settings, tenant_of}
use llm_file_gateway.Server.Proxy.{Header, copy_headers}
use llm_file_gateway.Server.Proxy.Bodies.{Upstream, Write, log_upstream_error_response, copy}
use llm_file_gateway.Server.Proxy.Forward.{
  Request, UpstreamRequest, RequestError, context_deadline, context_canceled, upstream_error, Reply,
  silent, refused, answered, Http, Course, or_context, value_of, upstream_url, exchange,
  forward_request, forward_json, passthrough,
}
use llm_file_gateway.Server.Proxy.Bodies.Copied.{
  joined, received, IsWritable, IsPart, copy-IsPart, replay-joined,
}

module _ (http : Http) where
  -- After a call, the reply is the model server's own, or says why there is none.
  abbrev pub AfterCall : (ℕ → Write) → UpstreamRequest → Reply → Type 0
  AfterCall writes sent (answered status header out) =
      (upstream : Upstream) × (http.call sent ≡ inr upstream)
      × (status ≡ upstream.status)
      × (header ≡ copy_headers http.to_lower http.trim_space http.canonical [] upstream.header)
      × IsPart (IsWritable writes) (received out) (joined upstream.body.pieces)
  AfterCall writes sent (refused error) = (e : RequestError) × (error ≡ upstream_error e)
  AfterCall writes sent silent = ⊥

  abbrev pub IsPassedOn : (ℕ → Write) → Option UpstreamRequest → Reply → Type 0
  IsPassedOn writes (some sent) reply = AfterCall writes sent reply
  IsPassedOn writes none (answered status header out) = ⊥
  IsPassedOn writes none _ = Unit

module _ (http : Http) (base api_key : String)
    (all_read : (pieces : List Bytes) → joined (http.reads pieces) ≡ joined pieces) where
  -- What is read of the model server's body.
  abbrev replay : Upstream → List Bytes
  replay upstream = (log_upstream_error_response http.unmarshal upstream).0.pieces

  copy-replay :
      (flush : Bool) (writes : ℕ → Write) (upstream : Upstream)
      → IsPart
          (IsWritable writes)
          (received (copy flush writes 0 (http.reads (replay upstream))))
          (joined upstream.body.pieces)
  copy-replay flush writes upstream =
      subst
        (IsPart (IsWritable writes) (received (copy flush writes 0 (http.reads (replay upstream)))))
        (all_read (replay upstream) ∙ replay-joined http.unmarshal upstream)
        (copy-IsPart flush writes 0 (http.reads (replay upstream)))

  exchange-IsPassedOn :
      (stream : Header → Bool) (course : Course) (sent : UpstreamRequest)
      → IsPassedOn http course.writes
          (exchange http base api_key stream course sent).upstream_request
          (exchange http base api_key stream course sent).reply
  unfolding exchange
  exchange-IsPassedOn stream course sent = called (http.call sent) refl
    where
      called :
          (outcome : RequestError ⊎ Upstream)
          → http.call sent ≡ outcome
          → IsPassedOn http course.writes
              (exchange http base api_key stream course sent).upstream_request
              (exchange http base api_key stream course sent).reply
      called (inl e) c = rw (exchange, c) (or_context http base api_key course.after_call e, refl)
      called (inr upstream) c = starts course.at_start refl
        where
          starts :
              (ended : Ended)
              → course.at_start ≡ ended
              → IsPassedOn http course.writes
                  (exchange http base api_key stream course sent).upstream_request
                  (exchange http base api_key stream course sent).reply
          starts running s =
              rw (exchange, c, s)
                (
                  upstream,
                  c,
                  refl,
                  refl,
                  copy-replay (stream upstream.header) course.writes upstream,
                )
          starts deadline_passed s = rw (exchange, c, s) (context_deadline, refl)
          starts client_gone s = rw (exchange, c, s) (context_canceled, refl)

  or_silent-IsPassedOn :
      (writes : ℕ → Write) (error : Option Error)
      → IsPassedOn http writes none (elim error [ none ↦ silent | some e ↦ refused e ])
  or_silent-IsPassedOn writes none = tt
  or_silent-IsPassedOn writes (some error) = tt

  forward_request-IsPassedOn :
      (stream : Bool) (course : Course) (request : Request)
      → let x = forward_request http base api_key stream course request in
        IsPassedOn http course.writes x.upstream_request x.reply
  unfolding forward_request
  forward_request-IsPassedOn stream course request =
      elim (Bool-cases
        (http.is_valid request.method (upstream_url base request.path request.raw_query))) [
          | inr v ↦ rw (forward_request, v) tt
          | inl v ↦ rw (forward_request, v) (exchange-IsPassedOn _ course _)
        ]

  forward_json-IsPassedOn :
      (stream : Bool) (course : Course) (request : Request) (endpoint : String) (encoded : Bytes)
      → let x = forward_json http base api_key stream course request endpoint encoded in
        IsPassedOn http course.writes x.upstream_request x.reply
  unfolding forward_json
  forward_json-IsPassedOn stream course request endpoint encoded =
      by_context course.before_call refl
    where
      by_context :
          (ended : Ended)
          → course.before_call ≡ ended
          → let x = forward_json http base api_key stream course request endpoint encoded in
            IsPassedOn http course.writes x.upstream_request x.reply
      by_context running e = rw (forward_json, e) (exchange-IsPassedOn _ course _)
      by_context deadline_passed e = rw (forward_json, e) (or_silent-IsPassedOn course.writes _)
      by_context client_gone e = rw (forward_json, e) (or_silent-IsPassedOn course.writes _)

  passthrough-IsPassedOn :
      (settings : Settings) (course : Course) (request : Request)
      → let x = passthrough http base api_key settings course request in
        IsPassedOn http course.writes x.upstream_request x.reply
  unfolding passthrough
  passthrough-IsPassedOn settings course request =
      by_tenant (tenant_of settings (value_of "Authorization" request.header)) refl
    where
      by_tenant :
          (who : Error ⊎ String)
          → tenant_of settings (value_of "Authorization" request.header) ≡ who
          → let x = passthrough http base api_key settings course request in
            IsPassedOn http course.writes x.upstream_request x.reply
      by_tenant (inl error) e = rw (passthrough, e) tt
      by_tenant (inr tenant) e =
          elim (Bool-cases (request.path =ˢ "files" || has_prefix request.path "files/")) [
            | inl f ↦ rw (passthrough, e, f) tt
            | inr f ↦ rw (passthrough, e, f) (forward_request-IsPassedOn false course request)
          ]

  -- Whichever of the three handlers passes a request on: a client is answered only if the model server answered,
  -- with its status, its headers but those of one hop, and the bytes of its body from the first one on, which are
  -- all of them if every write to the client succeeds; and otherwise it gets an error, and after a call one of the
  -- two errors of the model server. The preview that is logged of an error takes nothing away.
  pub replies-IsPassedOn :
      (settings : Settings) (stream : Bool) (course : Course) (request : Request)
      (endpoint : String) (encoded : Bytes)
      → let passed = passthrough http base api_key settings course request in
        let original = forward_request http base api_key stream course request in
        let expanded = forward_json http base api_key stream course request endpoint encoded in
        IsPassedOn http course.writes passed.upstream_request passed.reply
        × IsPassedOn http course.writes original.upstream_request original.reply
        × IsPassedOn http course.writes expanded.upstream_request expanded.reply
  replies-IsPassedOn settings stream course request endpoint encoded = (
    passthrough-IsPassedOn settings course request,
    forward_request-IsPassedOn stream course request,
    forward_json-IsPassedOn stream course request endpoint encoded,
  )
