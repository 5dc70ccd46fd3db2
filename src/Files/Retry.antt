-- ===== src/Files/Retry.antt =====
-- The retry policy of the conversion workers (internal/files/service.go, `handleErr` and what it
-- calls) and the errors that it classifies (internal/converter/errors.go). Each attempt of a job ends
-- with an error or without; between attempts others may change the table at will. Durations are
-- numbers of nanoseconds.
pub mod Bounded
pub mod Outcome
pub mod Tests
use llm_file_gateway.Prelude.{
  ℕ, ◌+◌, ◌*◌, ◌^◌, Bool, true, false, not, Option, none, some, List, [], ◌∷◌, leb, is_some,
  if◌then◌else◌,
}
use llm_file_gateway.Prelude.Text.{String, decimal, take_str, ◌+ˢ◌}
use llm_file_gateway.Prelude.Map.{Map, put, remove}
use llm_file_gateway.Store
use llm_file_gateway.Store.{File, Table}

-- An error of a conversion. `wrapped` is fmt.Errorf with %w.
pub data Failure : Type 0 where
  page_limit text_limit : ℕ → Failure
  validation other : String → Failure
  wrapped : String → Failure → Failure

abbrev pub error_text : Failure → String
error_text (page_limit limit) = "document exceeds the " +ˢ decimal limit +ˢ "-page limit"
error_text (text_limit limit) = "document exceeds the " +ˢ decimal limit +ˢ "-character text limit"
error_text (validation text) = text
error_text (other text) = text
error_text (wrapped prefix failure) = prefix +ˢ ": " +ˢ error_text failure

-- errors.As looks through the errors that are wrapped.
unfoldable pub is_retryable : Failure → Bool
is_retryable (page_limit limit) = false
is_retryable (text_limit limit) = false
is_retryable (validation text) = false
is_retryable (other text) = true
is_retryable (wrapped prefix failure) = is_retryable failure

abbrev pub max_retries : ℕ
max_retries = 3

abbrev pub second : ℕ
second = 1000000000

abbrev pub backoff_delay : ℕ → ℕ
backoff_delay retry = 2 ^ retry * second

-- `retryCount` and the store.
pub record Jobs : Type 0 where
  pub retry_count : Map ℕ
  pub table : Table

-- A missing key reads as 0.
abbrev pub retries : String → Jobs → ℕ
retries id jobs = elim (jobs.retry_count id) [ none ↦ 0 | some n ↦ n ]

abbrev pub forget : String → Jobs → Jobs
forget id jobs = record jobs { retry_count = remove jobs.retry_count id }

-- The count of `enqueueAfter`; its timer is the delay that `handle_err` returns.
abbrev pub count_retry : String → Jobs → Jobs
count_retry id jobs = record jobs { retry_count = put jobs.retry_count id (retries id jobs + 1) }

abbrev pub truncate : String → ℕ → String
truncate value limit = take_str limit value

-- The update may fail; then the status stays.
unfoldable pub mark_failed : Bool → String → Failure → Jobs → Jobs
mark_failed update_ok id failure jobs =
    if update_ok
    then record jobs {
      table =
          (Store.update_status id "failed" [] (truncate (error_text failure) 1000) jobs.table).1;
    }
    else jobs

unfoldable pub file_active : Bool → String → Jobs → Bool
file_active lookup_ok id jobs =
    if lookup_ok
    then elim (Store.get_internal id jobs.table) [
      | none ↦ false
      | some row ↦ not (is_some row.deleted_at)
    ]
    else false

-- How an attempt ends, and which of the calls of the store succeed then.
pub record Attempt : Type 0 where
  pub error : Option Failure
  pub lookup_ok : Bool
  pub update_ok : Bool

abbrev pub drop_job : Attempt → String → Failure → Jobs → Jobs
drop_job attempt id failure jobs = forget id (mark_failed attempt.update_ok id failure jobs)

-- The jobs afterwards, and the delay after which the job is queued again, if it is.
unfoldable pub handle_err : Attempt → String → Jobs → Jobs × Option ℕ
unfolding is_retryable file_active
handle_err attempt id jobs = elim attempt.error [
  | none ↦ (forget id jobs, none)
  | some failure ↦
      if not (is_retryable failure)
      then (drop_job attempt id failure jobs, none)
      else if leb max_retries (retries id jobs)
      then (drop_job attempt id failure jobs, none)
      else if not (file_active attempt.lookup_ok id jobs)
      then (forget id jobs, none)
      else (count_retry id jobs, some (backoff_delay (retries id jobs)))
]

-- The delays of a job from one attempt to the last: each attempt comes after what others did to the
-- table meanwhile. With no attempt left, the process has stopped.
unfoldable pub retry_job : List (Attempt × (Table → Table)) → String → Jobs → List ℕ × Jobs
retry_job [] id jobs = ([], jobs)
retry_job ((attempt, meanwhile) ∷ attempts) id jobs =
    let (after, delay) = handle_err attempt id (record jobs { table = meanwhile jobs.table }) in
    let rest = retry_job attempts id after in
    elim delay [ none ↦ ([], after) | some d ↦ (d ∷ rest.0, rest.1) ]
