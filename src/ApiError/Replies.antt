-- ===== src/ApiError/Replies.antt =====
-- What a client may learn from the error replies of internal/server/server.go.
use llm_file_gateway.Prelude.{◌≡◌, ◌⊎◌, inl, inr, some}
use llm_file_gateway.ApiError.{
  Error, new, Fault, gateway, deadline_exceeded, canceled, failed, Ended, running, deadline_passed,
  client_gone, write_any_error,
}

-- The fault is an error that was made for the client.
abbrev pub IsGateway : Fault → Error → Type 0
IsGateway fault error = fault ≡ gateway error

-- An error reply is either one that the gateway made for the client, or one of the two fixed replies
-- 504 and 500: no text of an internal failure reaches the client.
write_any_error_opaque :
    (ended : Ended) (fault : Fault) (error : Error)
    → write_any_error ended fault ≡ some error
    → IsGateway fault error
      ⊎ ((error ≡ new 504 "request_timeout" "Document conversion timeout." "")
          ⊎ (error ≡ new 500 "internal_error" "Internal server error." ""))
unfolding write_any_error
write_any_error_opaque deadline_passed fault error h = inr (inl (cc h))
write_any_error_opaque running deadline_exceeded error h = inr (inl (cc h))
write_any_error_opaque client_gone deadline_exceeded error h = inr (inl (cc h))
write_any_error_opaque client_gone canceled error h = absurd (cc h)
write_any_error_opaque client_gone (gateway other) error h = absurd (cc h)
write_any_error_opaque client_gone (failed text) error h = absurd (cc h)
write_any_error_opaque running canceled error h = absurd (cc h)
write_any_error_opaque running (gateway other) error h = inl (cc h)
write_any_error_opaque running (failed text) error h = inr (inr (cc h))
