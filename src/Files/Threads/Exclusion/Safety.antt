-- ===== src/Files/Threads/Exclusion/Safety.antt =====
-- What the locks of internal/files/service.go guarantee for every interleaving.
use mathlib.Core.List.{append_assoc}
use llm_file_gateway.Prelude.{
  ℕ, ◌+◌, ◌≤◌, ◌<◌, ◌≡◌, ◌≢◌, refl, sym, ap, subst, ◌∙◌, ◌⊎◌, inl, inr, true, Option, none, some,
  List, [], ◌∷◌, ◌++◌, arith, All, ◌==◌, Bool-cases, Option-cases, ==→eq,
}
use llm_file_gateway.Prelude.Text.{String, eq_refl}
use llm_file_gateway.Store.{File}
use llm_file_gateway.Files.Disk.{Bytes}
use llm_file_gateway.Files.Threads.{
  World, Thread, Phase, Origin, reading, cleanup, finished, removing, awaiting_lease, step,
  step_cleanup, run,
}
use llm_file_gateway.Files.Threads.Counting.{sum_over, sum_over-split}
use llm_file_gateway.Files.Threads.Exclusion.{reads, claims, count_of, Safe}
use llm_file_gateway.Files.Threads.Exclusion.Soundness.{
  Sound, run-Sound, IsInitial, IsUnlocked, initial-Sound,
}

-- A thread stands in a list.
abbrev pub Among : Thread → List Thread → Type 0
Among t [] = ⊥
Among t (u ∷ us) = (t ≡ u) ⊎ Among t us

pub Among-All : (P : Thread → Type 0) (t : Thread) (ts : List Thread) → All P ts → Among t ts → P t
Among-All P t [] h k = elim k [ ]
Among-All P t (u ∷ us) h (inl e) = subst P (sym e) h.0
Among-All P t (u ∷ us) h (inr k) = Among-All P t us h.1 k

-- Either a thread reads under the lease at an address, or it does not count for it.
reads-cases :
    (address : ℕ) (t : Thread) → ((row : File) × (t ≡ reading row address)) ⊎ (reads address t ≡ 0)
reads-cases address (reading row held) = elim (Bool-cases (held == address)) [
  | inl e ↦ inl (row, ap (reading row) (omega (arith, ==→eq held address e)))
  | inr e ↦ inr (rw e refl)
]
reads-cases address _ = inr refl

sum_over-positive :
    (address : ℕ) (ts : List Thread)
    → 0 < sum_over (reads address) ts
    → (row : File) × Among (reading row address) ts
sum_over-positive address [] h = absurd (omega arith)
sum_over-positive address (t ∷ ts) h = elim (reads-cases address t) [
  | inl (row, e) ↦ (row, inl (sym e))
  | inr e ↦ let (row, there) = sum_over-positive address ts (omega arith) in (row, inr there)
]

count_of-le : (o : Option ℕ) → count_of o ≤ 1
count_of-le none = omega arith
count_of-le (some channel) = omega arith

count_of-none : (o : Option ℕ) → count_of o ≡ 0 → o ≡ none
count_of-none none h = refl
count_of-none (some channel) h = absurd (omega arith)

finished_counts :
    (f : Thread → ℕ)
    → f finished ≡ 0
    → (ts : List Thread) → All (λ t. t ≡ finished) ts
    → sum_over f ts ≡ 0
finished_counts f zero_at [] h = refl
finished_counts f zero_at (t ∷ ts) h =
    omega (arith, ap f h.0, zero_at, finished_counts f zero_at ts h.1)

module _ (schedule : List (Option Bytes × ℕ)) (ts : List Thread) (w : World)
    (initial : All IsInitial ts) (unlocked : IsUnlocked w) where
  abbrev pub threads_after : List Thread
  threads_after = (run schedule ts w).0

  abbrev pub world_after : World
  world_after = (run schedule ts w).1

  sound : Sound threads_after world_after
  sound = run-Sound schedule ts w (initial-Sound ts w initial unlocked)

  -- However the goroutines are interleaved, and whichever of their calls fail: while a cleanup is
  -- about to remove a file's directory, no request holds a lease on that file, so nobody reads
  -- artifacts that are being removed.
  pub removal_excludes_readers :
      (origin : Origin) (row other : File) (channel address : ℕ)
      → Among (cleanup origin row channel removing) threads_after
      → Among (reading other address) threads_after
      → row.id ≢ other.id
  removal_excludes_readers origin row other channel address removes reads_it same = cc (
    (Among-All (Safe world_after.locks) _ threads_after sound.safe removes).1,
    Among-All (Safe world_after.locks) _ threads_after sound.safe reads_it,
    ap world_after.locks.leases same,
  )

  -- Two cleanups at different places among the threads never have the same file in hand between
  -- `beginDeletion` and `endDeletion`.
  pub cleanup_is_exclusive :
      (before middle behind : List Thread) (origin origin' : Origin) (row row' : File)
      (channel channel' : ℕ) (phase phase' : Phase)
      → threads_after
        ≡ before
          ++ cleanup origin row channel phase
            ∷ (middle ++ cleanup origin' row' channel' phase' ∷ behind)
      → row.id ≢ row'.id
  cleanup_is_exclusive before middle behind origin origin' row row' channel channel' phase phase' e
        same =
      absurd (
        omega (
          arith,
          twice,
          sound.claimed row.id,
          count_of-le (world_after.locks.deleting row.id),
          first,
          second,
        ))
    where
      first : claims row.id (cleanup origin row channel phase) ≡ 1
      first = rw (eq_refl row.id) refl

      second : claims row.id (cleanup origin' row' channel' phase') ≡ 1
      second = rw (sym same, eq_refl row.id) refl

      twice :
          claims row.id (cleanup origin row channel phase)
            + (claims row.id (cleanup origin' row' channel' phase')
                + sum_over (claims row.id) ((before ++ middle) ++ behind))
          ≡ sum_over (claims row.id) threads_after
      twice =
          ap (λ n. claims row.id (cleanup origin row channel phase) + n)
            (sym (
                sum_over-split (claims row.id) (before ++ middle)
                  (cleanup origin' row' channel' phase') behind)
              ∙ ap (sum_over (claims row.id)) (append_assoc before middle _))
          ∙ sym (sum_over-split (claims row.id) before (cleanup origin row channel phase) _)
          ∙ ap (sum_over (claims row.id)) (sym e)

  -- A cleanup that waits for a lease waits for a request which is reading that very file: the wait
  -- of a blocked cleanup is never in vain, since that request is there and its next step gives the
  -- lease back.
  pub lease_wait_has_reader :
      (outcome : Option Bytes) (origin : Origin) (row : File) (channel address : ℕ)
      → Among (cleanup origin row channel (awaiting_lease address)) threads_after
      → step outcome (cleanup origin row channel (awaiting_lease address)) world_after ≡ none
      → (other : File) × Among (reading other address) threads_after × (other.id ≡ row.id)
  unfolding step step_cleanup
  lease_wait_has_reader outcome origin row channel address waits blocked =
      let waiting = Among-All (Safe world_after.locks) _ threads_after sound.safe waits in
      let leases_it = still_leased waiting.1.1 in
      let lease = sound.leased row.id address leases_it in
      let (other, there) =
        sum_over-positive address threads_after (omega (arith, sound.counted address, lease.1)) in
      (
        other,
        there,
        sound.separate other.id row.id address
            (Among-All (Safe world_after.locks) _ threads_after sound.safe there) leases_it,
      )
    where
      goes_on :
          (world_after.locks.lease_at address).closed ≡ true
          → step outcome (cleanup origin row channel (awaiting_lease address)) world_after ≢ none
      goes_on closed = rw closed (λ k. cc k)

      still_leased :
          (world_after.locks.leases row.id ≡ some address)
            ⊎ ((world_after.locks.leases row.id ≡ none)
                × ((world_after.locks.lease_at address).closed ≡ true))
          → world_after.locks.leases row.id ≡ some address
      still_leased (inl e) = e
      still_leased (inr (gone, closed)) = absurd (goes_on closed blocked)

  -- When all goroutines have ended, no lease and no deletion mark is left behind. The janitor ends when
  -- its context does, a worker with the job that it has.
  pub nothing_left_locked :
      All (λ t. t ≡ finished) threads_after
      → (id : String)
      → (world_after.locks.leases id ≡ none) × (world_after.locks.deleting id ≡ none)
  nothing_left_locked ended id = (
    elim (Option-cases (world_after.locks.leases id)) [
      | inl e ↦ e
      | inr (address, e) ↦ absurd (
          omega (
            arith,
            (sound.leased id address e).1,
            sound.counted address,
            finished_counts (reads address) refl threads_after ended,
          ))
    ],
    count_of-none (world_after.locks.deleting id)
        (sym (sound.claimed id) ∙ finished_counts (claims id) refl threads_after ended),
  )
