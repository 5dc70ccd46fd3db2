-- ===== src/Files/Retry/Bounded.antt =====
-- A conversion job of internal/files/service.go is retried a bounded number of times.
use llm_file_gateway.Prelude.{
  ℕ, zero, suc, ◌+◌, ◌≤◌, ◌<◌, ◌≡◌, refl, ap, ◌∙◌, ◌⊎◌, inl, inr, Bool, true, false, not, Option,
  none, some, List, [], ◌∷◌, ◌++◌, map, arith, length, take, leb, leb-lt, Bool-cases, if◌then◌else◌,
}
use llm_file_gateway.Prelude.Text.{String, eq_refl}
use llm_file_gateway.Prelude.Map.{remove}
use llm_file_gateway.Store.{Table}
use llm_file_gateway.Files.Retry.{
  Failure, Attempt, Jobs, max_retries, backoff_delay, retries, is_retryable, forget, count_retry,
  mark_failed, file_active, handle_err, retry_job,
}

-- The numbers from one on, so many of them.
abbrev pub count_up : ℕ → ℕ → List ℕ
count_up from zero = []
count_up from (suc n) = from ∷ count_up (from + 1) n

-- Either the job is dropped and its count forgotten, or it is counted and queued again.
abbrev Goes : String → Jobs → Jobs × Option ℕ → Type 0
Goes id jobs (after, delay) =
    ((delay ≡ none) × (after.retry_count id ≡ none))
    ⊎ ((delay ≡ some (backoff_delay (retries id jobs)))
        × (retries id jobs < max_retries)
        × (retries id after ≡ retries id jobs + 1))

module _ (id : String) (jobs : Jobs) where
  drops :
      (after : Jobs)
      → Goes id jobs (record after { retry_count = remove after.retry_count id }, none)
  drops after = inl (refl, rw (eq_refl id) refl)

  again :
      (b : Bool)
      → leb max_retries (retries id jobs) ≡ b
      → (active : Bool) (failed : Jobs)
      → Goes id jobs (
          if b
          then (forget id failed, none)
          else if not active
          then (forget id jobs, none)
          else (count_retry id jobs, some (backoff_delay (retries id jobs))))
  again true h active failed = drops failed
  again false h false failed = drops jobs
  again false h true failed =
      inr (refl, leb-lt max_retries (retries id jobs) h, rw (retries, eq_refl id) refl)

  handle_err-Goes : (attempt : Attempt) → Goes id jobs (handle_err attempt id jobs)
  unfolding handle_err
  handle_err-Goes attempt = by_error attempt.error
    where
      by_error :
          (error : Option Failure)
          → Goes id jobs (handle_err (record attempt { error = error }) id jobs)
      by_error none = drops jobs
      by_error (some failure) = elim (Bool-cases (is_retryable failure)) [
        | inl e ↦ rw e (
            again (leb max_retries (retries id jobs)) refl (file_active attempt.lookup_ok id jobs)
              (mark_failed attempt.update_ok id failure jobs))
        | inr e ↦ rw e (drops (mark_failed attempt.update_ok id failure jobs))
      ]

-- The delays from a number of retries on, and the retries left.
abbrev Backs : ℕ → List ℕ → Type 0
Backs n delays =
    (delays ≡ map backoff_delay (count_up n (length delays))) × (n + length delays ≤ max_retries)

-- One attempt and the attempts that follow it.
abbrev followed_by : Jobs × Option ℕ → List ℕ × Jobs → List ℕ × Jobs
followed_by (after, delay) rest = elim delay [ none ↦ ([], after) | some d ↦ (d ∷ rest.0, rest.1) ]

module _ (id : String) (jobs : Jobs) (r : Jobs × Option ℕ) (rest : List ℕ × Jobs)
    (goes : Goes id jobs r) where
  followed-Backs :
      retries id jobs ≤ max_retries
      → (retries id r.0 ≤ max_retries → Backs (retries id r.0) rest.0)
      → Backs (retries id jobs) (followed_by r rest).0
  followed-Backs h k = elim goes [
    | inl (e, gone) ↦ rw e (refl, omega (arith, h))
    | inr (e, more, counted) ↦ rw e (
        let (same, bound) = k (omega (arith, counted, more)) in
        (
          ap (◌∷◌ (backoff_delay (retries id jobs)))
              (same ∙ ap (λ n. map backoff_delay (count_up n (length rest.0))) counted),
          omega (arith, bound, counted),
        ))
  ]

  followed_ends :
      (n : ℕ)
      → max_retries < retries id jobs + suc n
      → (max_retries < retries id r.0 + n
          → retries id r.0 ≤ max_retries
          → rest.1.retry_count id ≡ none)
      → (followed_by r rest).1.retry_count id ≡ none
  followed_ends n h k = elim goes [
    | inl (e, gone) ↦ rw e gone
    | inr (e, more, counted) ↦ rw e (k (omega (arith, counted, h)) (omega (arith, counted, more)))
  ]

  followed_over :
      (longer : List ℕ × Jobs) (n : ℕ)
      → max_retries < retries id jobs + suc n
      → (max_retries < retries id r.0 + n → retries id r.0 ≤ max_retries → longer ≡ rest)
      → followed_by r longer ≡ followed_by r rest
  followed_over longer n h k = elim goes [
    | inl (e, gone) ↦ rw e refl
    | inr (e, more, counted) ↦
        ap (followed_by r) (k (omega (arith, counted, h)) (omega (arith, counted, more)))
  ]

retry_job-Backs :
    (attempts : List (Attempt × (Table → Table))) (id : String) (jobs : Jobs)
    → retries id jobs ≤ max_retries
    → Backs (retries id jobs) (retry_job attempts id jobs).0
unfolding retry_job
retry_job-Backs [] id jobs h = (refl, omega (arith, h))
retry_job-Backs ((attempt, meanwhile) ∷ attempts) id jobs h =
    let now : Jobs = record jobs { table = meanwhile jobs.table } in
    followed-Backs id now (handle_err attempt id now)
      (retry_job attempts id (handle_err attempt id now).0) (handle_err-Goes id now attempt) h
      (retry_job-Backs attempts id (handle_err attempt id now).0)

run_ends :
    (attempts : List (Attempt × (Table → Table))) (id : String) (jobs : Jobs)
    → max_retries < retries id jobs + length attempts
    → retries id jobs ≤ max_retries
    → (retry_job attempts id jobs).1.retry_count id ≡ none
unfolding retry_job
run_ends [] id jobs h k = absurd (omega (arith, h, k))
run_ends ((attempt, meanwhile) ∷ attempts) id jobs h k =
    let now : Jobs = record jobs { table = meanwhile jobs.table } in
    followed_ends id now (handle_err attempt id now)
      (retry_job attempts id (handle_err attempt id now).0) (handle_err-Goes id now attempt)
      (length attempts) h (run_ends attempts id (handle_err attempt id now).0)

-- More attempts than these make no difference.
abbrev IsOver : List (Attempt × (Table → Table)) → String → Jobs → Type 0
IsOver attempts id jobs =
    (more : List (Attempt × (Table → Table)))
    → retry_job (attempts ++ more) id jobs ≡ retry_job attempts id jobs

run-IsOver :
    (attempts : List (Attempt × (Table → Table))) (id : String) (jobs : Jobs)
    → max_retries < retries id jobs + length attempts
    → retries id jobs ≤ max_retries
    → IsOver attempts id jobs
unfolding retry_job
run-IsOver [] id jobs h k more = absurd (omega (arith, h, k))
run-IsOver ((attempt, meanwhile) ∷ attempts) id jobs h k more =
    let now : Jobs = record jobs { table = meanwhile jobs.table } in
    followed_over id now (handle_err attempt id now)
      (retry_job attempts id (handle_err attempt id now).0) (handle_err-Goes id now attempt)
      (retry_job (attempts ++ more) id (handle_err attempt id now).0) (length attempts) h
      λ l m. run-IsOver attempts id (handle_err attempt id now).0 l m more

-- One, two and four seconds.
abbrev pub three_delays : List ℕ
three_delays = 1000000000 ∷ 2000000000 ∷ 4000000000 ∷ []

backs_off : (n : ℕ) → n ≤ max_retries → map backoff_delay (count_up 0 n) ≡ take n three_delays
backs_off zero h = refl
backs_off (suc zero) h = refl
backs_off (suc (suc zero)) h = refl
backs_off (suc (suc (suc zero))) h = refl
backs_off (suc (suc (suc (suc n)))) h = absurd (omega (arith, h))

module _ (attempts : List (Attempt × (Table → Table))) (id : String) (jobs : Jobs)
    (unfailed : jobs.retry_count id ≡ none) where
  first : retries id jobs ≡ 0
  first = rw (retries, unfailed) refl

  -- A job that has not failed before is retried at most three times, after 1, 2 and 4 seconds in this order,
  -- whatever its attempts end with and whatever others do to the table in between.
  pub retry_job_bounded :
      let delays : List ℕ = (retry_job attempts id jobs).0 in
      (delays ≡ take (length delays) three_delays) × (length delays ≤ 3)
  retry_job_bounded =
      let (delays, bound) = retry_job-Backs attempts id jobs (omega (arith, first)) in
      let few : length (retry_job attempts id jobs).0 ≤ max_retries = omega (arith, bound) in
      (
        delays
            ∙ ap (λ n. map backoff_delay (count_up n (length (retry_job attempts id jobs).0))) first
            ∙ backs_off (length (retry_job attempts id jobs).0) few,
        few,
      )

  -- If there is time for four attempts, a job that has not failed before comes to its end, by success or by being
  -- dropped: one of these attempts is not retried, no attempt after them would be made, and no retry count is left
  -- behind.
  pub retry_job_ends :
      4 ≤ length attempts
      → (length (retry_job attempts id jobs).0 < length attempts)
        × ((more : List (Attempt × (Table → Table)))
            → retry_job (attempts ++ more) id jobs ≡ retry_job attempts id jobs)
        × ((retry_job attempts id jobs).1.retry_count id ≡ none)
  retry_job_ends enough = (
    omega (arith, retry_job_bounded.1, enough),
    run-IsOver attempts id jobs (omega (arith, first, enough)) (omega (arith, first)),
    run_ends attempts id jobs (omega (arith, first, enough)) (omega (arith, first)),
  )
