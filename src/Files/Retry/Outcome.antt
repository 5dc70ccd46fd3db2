-- ===== src/Files/Retry/Outcome.antt =====
-- What a dropped conversion job of internal/files/service.go leaves in the table.
use llm_file_gateway.Prelude.{
  ℕ, ◌+◌, ◌*◌, ◌^◌, ◌<◌, ◌≤◌, ◌≡◌, refl, sym, subst, ◌∙◌, ◌⊎◌, inl, inr, Bool, true, false, not,
  Option, none, some, [], leb, arith, Bool-cases, if◌then◌else◌,
}
use llm_file_gateway.Prelude.Text.{take_str, eq_refl}
use llm_file_gateway.Store.{File, get_internal, null_if_empty, update_status}
use llm_file_gateway.Store.Rows.{Has, IsKeyed}
use llm_file_gateway.Store.Status.{update_status_exact, get_internal_keyed}
use llm_file_gateway.Files.Retry.{
  Failure, Attempt, Jobs, max_retries, retries, truncate, error_text, is_retryable, mark_failed,
  drop_job, handle_err, forget, count_retry, file_active, backoff_delay,
}

-- The row of a file whose conversion failed for good: the text of the error is cut to 1000 bytes.
abbrev pub failed_row : Failure → File → File
failed_row failure row = record row {
  status = "failed";
  manifest_path = none;
  error_message = null_if_empty (take_str 1000 (error_text failure));
}

-- The jobs after a failed attempt, and the delay after which it is repeated.
abbrev pub IsHandled : Attempt → Failure → File → Jobs → Jobs × Option ℕ → Type 0
IsHandled attempt failure row jobs (after, delay) =
    (((is_retryable failure ≡ false) ⊎ (3 ≤ retries row.id jobs))
      × (delay ≡ none)
      × (get_internal row.id after.table
          ≡ some (if attempt.update_ok then failed_row failure row else row))
      × (after.retry_count row.id ≡ none))
    ⊎ ((is_retryable failure ≡ true)
        × (retries row.id jobs < 3)
        × (delay
            ≡ (if attempt.lookup_ok then some (2 ^ retries row.id jobs * 1000000000) else none))
        × (after.table ≡ jobs.table)
        × (after.retry_count row.id
            ≡ (if attempt.lookup_ok then some (retries row.id jobs + 1) else none)))

module _ (attempt : Attempt) (failure : Failure) (row : File) (jobs : Jobs)
    (keyed : IsKeyed jobs.table) (there : Has row jobs.table) (alive : row.deleted_at ≡ none) where
  exact :
      get_internal row.id
        (update_status row.id "failed" [] (truncate (error_text failure) 1000) jobs.table).1
      ≡ some (failed_row failure row)
  exact =
      let (updated, found) =
        update_status_exact "failed" [] (truncate (error_text failure) 1000) jobs.table row keyed
          there in
      found ∙ rw (updated, alive) refl

  dropped :
      (is_retryable failure ≡ false) ⊎ (3 ≤ retries row.id jobs)
      → IsHandled attempt failure row jobs (drop_job attempt row.id failure jobs, none)
  unfolding mark_failed
  dropped final = inl (final, refl, found attempt.update_ok, rw (eq_refl row.id) refl)
    where
      found :
          (ok : Bool)
          → get_internal row.id (mark_failed ok row.id failure jobs).table
            ≡ some (if ok then failed_row failure row else row)
      found true = exact
      found false = get_internal_keyed jobs.table row keyed there

  file_active-alive : (ok : Bool) → file_active ok row.id jobs ≡ ok
  unfolding file_active
  file_active-alive true = rw (get_internal_keyed jobs.table row keyed there, alive) refl
  file_active-alive false = refl

  retried :
      (ok : Bool)
      → attempt.lookup_ok ≡ ok
      → is_retryable failure ≡ true
      → retries row.id jobs < 3
      → IsHandled attempt failure row jobs (
          if not ok
          then (forget row.id jobs, none)
          else (count_retry row.id jobs, some (backoff_delay (retries row.id jobs))))
  retried true k retryable few = inr (retryable, few, rw k refl, refl, rw (k, eq_refl row.id) refl)
  retried false k retryable few = inr (retryable, few, rw k refl, refl, rw (k, eq_refl row.id) refl)

  handle_err-drops :
      attempt.error ≡ some failure
      → (is_retryable failure ≡ false) ⊎ (leb max_retries (retries row.id jobs) ≡ true)
      → handle_err attempt row.id jobs ≡ (drop_job attempt row.id failure jobs, none)
  unfolding handle_err
  handle_err-drops e (inl final) = rw (e, final) refl
  handle_err-drops e (inr late) = elim (Bool-cases (is_retryable failure)) [
    | inl r ↦ rw (e, r, late) refl
    | inr r ↦ rw (e, r) refl
  ]

  handle_err-retries :
      attempt.error ≡ some failure
      → is_retryable failure ≡ true
      → leb max_retries (retries row.id jobs) ≡ false
      → handle_err attempt row.id jobs ≡ (
          if not attempt.lookup_ok
          then (forget row.id jobs, none)
          else (count_retry row.id jobs, some (backoff_delay (retries row.id jobs))))
  unfolding handle_err
  handle_err-retries e r late = rw (e, r, late, file_active-alive attempt.lookup_ok) refl

  -- What follows a failed attempt to convert a file that is not deleted. A deterministic error, or any error after
  -- three retries, drops the job: it is not repeated, and unless the store refuses the update the row of the file
  -- says that it failed, with the error's text cut to 1000 bytes and without the path of a manifest, and is otherwise
  -- as it was. Any other error leaves the table as it is and is counted, and the job is repeated after 2^n seconds,
  -- n being the number of its retries so far; only if the file cannot be looked up, the job is forgotten instead.
  pub failed_attempt-IsHandled :
      attempt.error ≡ some failure
      → IsHandled attempt failure row jobs (handle_err attempt row.id jobs)
  failed_attempt-IsHandled e = elim (Bool-cases (is_retryable failure)) [
    | inr r ↦
        subst (IsHandled attempt failure row jobs) (sym (handle_err-drops e (inl r)))
          (dropped (inl r))
    | inl r ↦ elim (Bool-cases (leb max_retries (retries row.id jobs))) [
      | inl m ↦
          subst (IsHandled attempt failure row jobs) (sym (handle_err-drops e (inr m)))
            (dropped (inr (ground (arith, m))))
      | inr m ↦
          subst (IsHandled attempt failure row jobs) (sym (handle_err-retries e r m))
            (retried attempt.lookup_ok refl r (ground (arith, m)))
    ]
  ]
