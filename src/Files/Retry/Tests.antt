-- ===== src/Files/Retry/Tests.antt =====
-- Runs of the retry policy of internal/files/service.go on the table of three uploads.
use llm_file_gateway.Prelude.{
  ℕ, ◌≡◌, ◌≤◌, ◌<◌, refl, true, none, some, List, [], ◌∷◌, ◌++◌, map, arith, length, take,
}
use llm_file_gateway.Prelude.Map.{no_entries}
use llm_file_gateway.Store.{Table, get_internal}
use llm_file_gateway.Store.Tests.{uploads, second_upload, uploads-IsKeyed, second_there}
use llm_file_gateway.Files.Retry.{
  Failure, page_limit, other, wrapped, Attempt, Jobs, second, backoff_delay, error_text,
  is_retryable, file_active, handle_err, retry_job,
}
use llm_file_gateway.Files.Retry.Bounded.{three_delays, retry_job_bounded, retry_job_ends}
use llm_file_gateway.Files.Retry.Outcome.{IsHandled, failed_attempt-IsHandled}

abbrev fails : Failure → Attempt
fails failure = record { error = some failure; lookup_ok = true; update_ok = true }

abbrev unreachable : Failure
unreachable = wrapped "document conversion" (other "no renderer")

abbrev too_long : Failure
too_long = wrapped "document conversion" (page_limit 50)

abbrev jobs : Jobs
jobs = record { retry_count = no_entries; table = uploads }

abbrev undisturbed : Table → Table
undisturbed table = table

abbrev five_failures : List (Attempt × (Table → Table))
five_failures =
    map (λ failure. (fails failure, undisturbed))
      (unreachable ∷ unreachable ∷ unreachable ∷ unreachable ∷ unreachable ∷ [])

too_long_text : error_text too_long ≡ "document conversion: document exceeds the 50-page limit"
too_long_text = refl

delays_five :
    (retry_job five_failures "file_b" jobs).0 ≡ second ∷ backoff_delay 1 ∷ backoff_delay 2 ∷ []
unfolding retry_job handle_err is_retryable file_active get_internal
delays_five = refl

retry_job_bounded_example :
    let delays : List ℕ = (retry_job five_failures "file_b" jobs).0 in
    (delays ≡ take (length delays) three_delays) × (length delays ≤ 3)
retry_job_bounded_example = retry_job_bounded five_failures "file_b" jobs refl

retry_job_ends_example :
    (length (retry_job five_failures "file_b" jobs).0 < 5)
    × ((more : List (Attempt × (Table → Table)))
        → retry_job (five_failures ++ more) "file_b" jobs ≡ retry_job five_failures "file_b" jobs)
    × ((retry_job five_failures "file_b" jobs).1.retry_count "file_b" ≡ none)
retry_job_ends_example = retry_job_ends five_failures "file_b" jobs refl (omega arith)

failed_attempt-IsHandled_example :
    IsHandled
      (fails too_long)
      too_long
      second_upload
      jobs
      (handle_err (fails too_long) "file_b" jobs)
failed_attempt-IsHandled_example =
    failed_attempt-IsHandled (fails too_long) too_long second_upload jobs uploads-IsKeyed
      second_there refl refl
