-- ===== src/Files/Resolve/Waiting.antt =====
-- How long `Resolve` of internal/files/service.go waits, and what for.
use llm_file_gateway.Prelude.{
  ℕ, suc, ◌+◌, ◌≤◌, ◌<◌, ◌≡◌, refl, ap, ◌⊎◌, Option, none, some, List, [], ◌∷◌, ◌++◌, arith, All,
  length,
}
use llm_file_gateway.Prelude.Text.{String}
use llm_file_gateway.ApiError.{Fault}
use llm_file_gateway.Store.{File}
use llm_file_gateway.Files.Resolve.{
  Poll, Wake, timer, context_done, stopping, look_up, after_poll, next_delay, await_conversion,
  resolve_poll_initial, resolve_poll_max, resolve_poll_jitter,
}

-- The extra of a timer is below the jitter, as Int64N promises.
abbrev pub Jitters : Wake → Type 0
Jitters (timer jitter) = jitter < resolve_poll_jitter
Jitters _ = Unit

abbrev pub IsJittered : Poll → Type 0
IsJittered poll = Jitters poll.wake

module _ (id tenant_id param : String) where
  abbrev IsPaced : ℕ → Type 0
  IsPaced wait = (resolve_poll_initial ≤ wait) × (wait < resolve_poll_max + resolve_poll_jitter)

  after_poll-IsPaced :
      (delay : ℕ) (looked : Option (Fault ⊎ File)) (wake : Wake)
      (rest : List ℕ × Option (Fault ⊎ File))
      → resolve_poll_initial ≤ delay
      → delay ≤ resolve_poll_max
      → Jitters wake
      → All IsPaced rest.0
      → All IsPaced (after_poll param delay looked wake rest).0
  after_poll-IsPaced delay (some result) wake rest low high jitters paced = tt
  after_poll-IsPaced delay none (timer jitter) rest low high jitters paced =
      ((omega arith, omega arith), paced)
  after_poll-IsPaced delay none (context_done fault) rest low high jitters paced = tt
  after_poll-IsPaced delay none stopping rest low high jitters paced = tt

  waits_from :
      (delay : ℕ) (polls : List Poll)
      → resolve_poll_initial ≤ delay
      → delay ≤ resolve_poll_max
      → All IsJittered polls
      → All IsPaced (await_conversion id tenant_id param delay polls).0
  unfolding await_conversion
  waits_from delay [] low high jittered = tt
  waits_from delay (poll ∷ polls) low high jittered =
      after_poll-IsPaced delay (look_up id tenant_id param poll) poll.wake _ low high jittered.0
        (waits_from (next_delay delay) polls (ground arith) (ground arith) jittered.1)

  -- Every pause between two polls is at least 100 ms and less than 2.5 s long, however many polls a
  -- conversion takes.
  await_conversion_paced :
      (polls : List Poll)
      → All IsJittered polls
      → All
          (λ wait. (resolve_poll_initial ≤ wait) × (wait < resolve_poll_max + resolve_poll_jitter))
          (await_conversion id tenant_id param resolve_poll_initial polls).0
  await_conversion_paced polls = waits_from resolve_poll_initial polls (omega arith) (omega arith)

  -- A poll that finds the file unconverted, and whose timer fires.
  abbrev pub IsRepeated : Poll → Type 0
  IsRepeated poll =
      (look_up id tenant_id param poll ≡ none) × ((jitter : ℕ) × (poll.wake ≡ timer jitter))

  -- `Resolve` polls on as long as the conversion is pending and returns with the first poll that finds
  -- it ended, or finds no file, or fails, after one pause for each poll before.
  await_conversion_ends :
      (before behind : List Poll) (last : Poll) (delay : ℕ) (result : Fault ⊎ File)
      → All IsRepeated before
      → look_up id tenant_id param last ≡ some result
      → let (waits, ended) = await_conversion id tenant_id param delay (before ++ last ∷ behind) in
        (ended ≡ some result) × (length waits ≡ length before)
  unfolding await_conversion
  await_conversion_ends [] behind last delay result repeated e =
      rw (e, await_conversion) (refl, refl)
  await_conversion_ends (poll ∷ before) behind last delay result repeated e =
      let (pending, (jitter, fires)) = repeated.0 in
      let (ended, count) =
        await_conversion_ends before behind last (next_delay delay) result repeated.1 e in
      rw (pending, fires, await_conversion) (ended, ap suc count)
