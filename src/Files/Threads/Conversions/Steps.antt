-- ===== src/Files/Threads/Conversions/Steps.antt =====
-- Every step of a thread of internal/files/service.go leads to a guarded state.
use llm_file_gateway.Prelude.{
  ℕ, ◌+◌, ◌≡◌, refl, ◌⊎◌, inl, inr, false, Option, none, some, List, [], ◌∷◌, arith, Option-cases,
}
use llm_file_gateway.Prelude.Text.{String}
use llm_file_gateway.Prelude.Map.{put, store}
use llm_file_gateway.Store
use llm_file_gateway.Store.{File, Table, get_internal}
use llm_file_gateway.Store.Gone.{expired-IsGone}
use llm_file_gateway.Files.Disk.{Bytes}
use llm_file_gateway.Files.Locks.{Locks, acquire_lease, release_lease, begin_deletion}
use llm_file_gateway.Files.Threads.{
  World, Thread, Origin, reader, leasing, reading, deleter, sweeper, sweeping, claiming, cleanup,
  worker, looking_up, starting, converting, recording, ending_conversion, dropping, finished,
  marking, handler, janitor, after_deletion, step,
}
use llm_file_gateway.Files.Threads.Conversions.{Clear, Respects, Guarded}
use llm_file_gateway.Files.Threads.Conversions.Moves.{
  everyone, unminded, moved, start_job-Guarded, finish_job-Guarded,
}
use llm_file_gateway.Files.Threads.Conversions.Waits.{Leads}
use llm_file_gateway.Files.Threads.Conversions.Phases.{cleanup-Leads}
use llm_file_gateway.Files.Threads.Conversions.Jobs.{
  SameConversions, plain, same, to_finished, looking_up-Leads, starting-Leads, converting-Leads,
  recording-Leads, failing-Guarded,
}

acquire_lease-cases :
    (id : String) (locks : Locks)
    → (acquire_lease id locks ≡ none)
      ⊎ ((v : ℕ × Locks) × (acquire_lease id locks ≡ some v) × SameConversions locks v.1)
unfolding acquire_lease
acquire_lease-cases id locks = elim (Option-cases (locks.deleting id)) [
  | inr (channel, e) ↦ inl (ground (arith, e))
  | inl e ↦ elim (Option-cases (locks.leases id)) [
    | inl k ↦ inr (
      (
        locks.next,
        record locks {
          leases = put locks.leases id locks.next;
          lease_at = store locks.lease_at locks.next (record { refs = 1; closed = false });
          next = locks.next + 1;
        },
      ),
      ground (arith, e, k),
      (refl, refl, omega arith),
    )
    | inr (a, k) ↦ inr (
      (
        a,
        record locks {
          lease_at =
              store locks.lease_at a
                (record (locks.lease_at a) { refs = (locks.lease_at a).refs + 1 });
        },
      ),
      ground (arith, e, k),
      (refl, refl, omega arith),
    )
  ]
]

release_lease_same :
    (id : String) (address : ℕ) (locks : Locks)
    → SameConversions locks (release_lease id address locks)
unfolding release_lease
release_lease_same id address locks = (ground arith, ground arith, ground arith)

begin_deletion-cases :
    (id : String) (locks : Locks)
    → (begin_deletion id locks ≡ none)
      ⊎ ((v : ℕ × Locks) × (begin_deletion id locks ≡ some v) × SameConversions locks v.1)
unfolding begin_deletion
begin_deletion-cases id locks = elim (Option-cases (locks.deleting id)) [
  | inr (channel, e) ↦ inl (ground (arith, e))
  | inl e ↦ inr (
    (
      locks.next,
      record locks { deleting = put locks.deleting id locks.next; next = locks.next + 1 },
    ),
    ground (arith, e),
    (refl, refl, omega arith),
  )
]

module _ (w : World) (others : List Thread) where
  deletion_refused :
      (origin : Origin) (row : File)
      → Guarded w (claiming origin row) others
      → Guarded w (after_deletion origin) others
  unfolding after_deletion
  deletion_refused handler row h = to_finished w others (claiming handler row) h
  deletion_refused (janitor rows) row h =
      plain w others (claiming (janitor rows) row) (sweeping rows) w.locks (same w others)
        (λ p i. tt) (λ u. tt) (λ id. omega arith) h.fact.0 h

  -- Readers and deletions up to their claim.
  leasing-Leads :
      (outcome : Option Bytes) (row : File)
      → Guarded w (leasing row) others
      → Leads others (step outcome (leasing row) w)
  unfolding step
  leasing-Leads outcome row h = elim (acquire_lease-cases row.id w.locks) [
    | inl e ↦ rw (Leads, e) (to_finished w others (leasing row) h)
    | inr (v, e, kept) ↦
        rw (Leads, e)
          (plain w others (leasing row) (reading row v.0) v.1 kept (λ p i. tt) (λ u. tt)
            (λ id. omega arith) tt h)
  ]

  minds_nothing : (id : String) (u : Thread) → Clear marking id u
  minds_nothing id (converting row a) = tt
  minds_nothing id (recording row a) = tt
  minds_nothing id _ = tt

  claiming-Leads :
      (outcome : Option Bytes) (origin : Origin) (row : File)
      → Guarded w (claiming origin row) others
      → Leads others (step outcome (claiming origin row) w)
  unfolding step
  claiming-Leads outcome origin row h = elim (begin_deletion-cases row.id w.locks) [
    | inl e ↦ rw (Leads, e) (deletion_refused origin row h)
    | inr (v, e, kept) ↦ rw (Leads, e) (claimed v kept)
  ]
    where
      claimed :
          (v : ℕ × Locks)
          → SameConversions w.locks v.1
          → Guarded (record w { locks = v.1 }) (cleanup origin row v.0 marking) others
      claimed v kept =
          moved w (record w { locks = v.1 }) (claiming origin row) (cleanup origin row v.0 marking)
            others h h.keyed (λ id k. k) kept.0 kept.1 kept.2 (λ id. omega arith)
            (h.fact.0, h.fact.1, tt)
            (everyone (Respects (cleanup origin row v.0 marking)) (minds_nothing row.id) others)
            (unminded (cleanup origin row v.0 marking) (λ p i. tt) others)

  looked_up-Leads :
      (t : Thread) (next : File → Thread) (row : Option File)
      → ((r : File) → Guarded w (next r) others)
      → Guarded w t others
      → Leads others (elim row [ none ↦ some (finished, w) | some r ↦ some (next r, w) ])
  looked_up-Leads t next none k h = to_finished w others t h
  looked_up-Leads t next (some r) k h = k r

  pub step-Leads :
      (outcome : Option Bytes) (t : Thread) → Guarded w t others → Leads others (step outcome t w)
  unfolding step
  step-Leads none (reader id tenant_id) h = to_finished w others (reader id tenant_id) h
  step-Leads (some content) (reader id tenant_id) h =
      looked_up-Leads (reader id tenant_id) leasing (Store.get w.now id tenant_id w.table)
        (λ row.
          plain w others (reader id tenant_id) (leasing row) w.locks (same w others) (λ p i. tt)
            (λ u. tt) (λ i. omega arith) tt h)
        h
  step-Leads outcome (leasing row) h = leasing-Leads outcome row h
  step-Leads outcome (reading row address) h =
      plain w others (reading row address) finished (release_lease row.id address w.locks)
        (release_lease_same row.id address w.locks) (λ p i. tt) (λ u. tt) (λ i. omega arith) tt h
  step-Leads none (deleter id tenant_id) h = to_finished w others (deleter id tenant_id) h
  step-Leads (some content) (deleter id tenant_id) h =
      looked_up-Leads (deleter id tenant_id) (claiming handler)
        (Store.get w.now id tenant_id w.table)
        (λ row.
          plain w others (deleter id tenant_id) (claiming handler row) w.locks (same w others)
            (λ p i. tt) (λ u. tt) (λ i. omega arith) (tt, tt) h)
        h
  step-Leads none sweeper h =
      plain w others sweeper (sweeping []) w.locks (same w others) (λ p i. tt) (λ u. tt)
        (λ i. omega arith) tt h
  step-Leads (some content) sweeper h =
      plain w others sweeper (sweeping (Store.expired w.now w.table)) w.locks (same w others)
        (λ p i. tt) (λ u. tt) (λ i. omega arith) (expired-IsGone w.now w.table h.keyed) h
  step-Leads none (sweeping []) h = to_finished w others (sweeping []) h
  step-Leads (some content) (sweeping []) h =
      plain w others (sweeping []) sweeper w.locks (same w others) (λ p i. tt) (λ u. tt)
        (λ i. omega arith) tt h
  step-Leads outcome (sweeping (row ∷ rows)) h =
      plain w others (sweeping (row ∷ rows)) (claiming (janitor rows) row) w.locks (same w others)
        (λ p i. tt) (λ u. tt) (λ i. omega arith) (h.fact.1, h.fact.0) h
  step-Leads outcome (claiming origin row) h = claiming-Leads outcome origin row h
  step-Leads outcome (cleanup origin row channel phase) h =
      cleanup-Leads w others origin row channel outcome phase h
  step-Leads outcome (worker id) h = start_job-Guarded w others id h
  step-Leads outcome (looking_up id address) h = looking_up-Leads w others outcome id address h
  step-Leads outcome (starting row address) h = starting-Leads w others outcome row address h
  step-Leads outcome (converting row address) h = converting-Leads w others outcome row address h
  step-Leads outcome (recording row address) h = recording-Leads w others outcome row address h
  step-Leads none (ending_conversion id address) h =
      finish_job-Guarded w others id address (worker id) (λ p i. tt) (λ u. tt) (λ i. omega arith) tt
        h
  step-Leads (some []) (ending_conversion id address) h =
      finish_job-Guarded w others id address finished (λ p i. tt) (λ u. tt) (λ i. omega arith) tt h
  step-Leads (some (byte ∷ text)) (ending_conversion id address) h =
      finish_job-Guarded w others id address (dropping id) (λ p i. tt) (λ u. tt) (λ i. omega arith)
        tt h
  step-Leads none (dropping id) h = to_finished w others (dropping id) h
  step-Leads (some content) (dropping id) h = failing-Guarded w others id h
  step-Leads outcome finished h = tt
