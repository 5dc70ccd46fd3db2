-- ===== src/ApiError.antt =====
-- internal/apierror/errors.go: the errors that a client sees, and the errors of the gateway in general
-- as internal/server/server.go tells them apart (`writeAnyError`, `writeError`).
pub mod Replies
pub mod Tests
use llm_file_gateway.Prelude.{
  ℕ, Bool, true, false, ◌||◌, Option, none, some, leb, ◌==◌, if◌then◌else◌,
}
use llm_file_gateway.Prelude.Text.{String, decimal, ◌=ˢ◌, ◌+ˢ◌}

pub record Error : Type 0 where
  pub status : ℕ
  pub code : String
  pub message : String
  pub param : String

abbrev pub new : ℕ → String → String → String → Error
new status code message param = record {
  status = status;
  code = code;
  message = message;
  param = param;
}

abbrev pub request_body_too_large : ℕ → Error
request_body_too_large max_bytes =
    new 400 "request_too_large"
      ("Request body exceeds the configured limit of " +ˢ decimal max_bytes +ˢ " bytes.") ""

-- An error value: one for the client, the two errors of a context, or any other.
pub data Fault : Type 0 where
  gateway : Error → Fault
  deadline_exceeded canceled : Fault
  failed : String → Fault

-- How the context of a request has ended, if it has.
pub data Ended : Type 0 where
  running deadline_passed client_gone : Ended

abbrev pub passed : Ended → Fault → Bool
passed deadline_passed fault = true
passed _ deadline_exceeded = true
passed _ fault = false

abbrev pub gone : Ended → Fault → Bool
gone client_gone fault = true
gone _ canceled = true
gone _ fault = false

-- The error that `writeAnyError` writes, if it writes one.
unfoldable pub write_any_error : Ended → Fault → Option Error
write_any_error ended fault =
    let internal = some (new 500 "internal_error" "Internal server error." "") in
    if passed ended fault
    then some (new 504 "request_timeout" "Document conversion timeout." "")
    else if gone ended fault
    then none
    else elim fault [
      | gateway error ↦ some error
      | deadline_exceeded ↦ internal
      | canceled ↦ internal
      | failed text ↦ internal
    ]

-- The body of an error reply.
pub record ErrorBody : Type 0 where
  pub message : String
  pub error_type : String
  pub param : Option String
  pub code : String

unfoldable pub write_error : Error → ℕ × ErrorBody
write_error error = (
  error.status,
  record {
    message = error.message;
    error_type =
        if leb 500 error.status
        then "server_error"
        else if error.status == 429
        then "rate_limit_error"
        else "invalid_request_error";
    param = if error.param =ˢ "" then none else some error.param;
    code = error.code;
  },
)
