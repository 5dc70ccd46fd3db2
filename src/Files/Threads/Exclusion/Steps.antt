-- ===== src/Files/Threads/Exclusion/Steps.antt =====
-- Every step of every thread keeps the locks coherent.
use llm_file_gateway.Prelude.{
  ℕ, ◌≡◌, refl, subst, inl, inr, Bool, true, false, Option, none, some, List, [], ◌∷◌, arith,
  is_some, Option-cases, if◌then◌else◌,
}
use llm_file_gateway.Prelude.Text.{String}
use llm_file_gateway.Store
use llm_file_gateway.Store.{File, Table}
use llm_file_gateway.Files.Disk.{Bytes}
use llm_file_gateway.Files.Locks.{acquire_lease, begin_deletion, begin_conversion, end_conversion}
use llm_file_gateway.Files.Threads.{
  World, Thread, Origin, reader, leasing, reading, deleter, sweeper, sweeping, claiming, cleanup,
  worker, looking_up, starting, converting, recording, ending_conversion, dropping, finished,
  handler, janitor, after_deletion, step,
}
use llm_file_gateway.Files.Threads.Exclusion.{reads, claims, Safe, Coherent}
use llm_file_gateway.Files.Threads.Exclusion.Leases.{acquire-Coherent, release-Coherent}
use llm_file_gateway.Files.Threads.Exclusion.Claims.{begin-Coherent}
use llm_file_gateway.Files.Threads.Exclusion.Frame.{frame-Coherent}
use llm_file_gateway.Files.Threads.Exclusion.Kept.{Leads, no_counts, quiet}
use llm_file_gateway.Files.Threads.Exclusion.Removals.{cleanup-Leads}

module _ (w : World) (others : List Thread) where
  reader-Leads :
      (outcome : Option Bytes) (id tenant_id : String)
      → Coherent w.locks (reader id tenant_id) others
      → Leads others (step outcome (reader id tenant_id) w)
  unfolding step
  reader-Leads none id tenant_id h = quiet w others (no_counts (λ a. refl) (λ id. refl)) tt h
  reader-Leads (some content) id tenant_id h =
      elim (Option-cases (Store.get w.now id tenant_id w.table)) [
        | inl e ↦ rw (e, step) (quiet w others (no_counts (λ a. refl) (λ id. refl)) tt h)
        | inr (row, e) ↦ rw (e, step) (quiet w others (no_counts (λ a. refl) (λ id. refl)) tt h)
      ]

  deleter-Leads :
      (outcome : Option Bytes) (id tenant_id : String)
      → Coherent w.locks (deleter id tenant_id) others
      → Leads others (step outcome (deleter id tenant_id) w)
  unfolding step
  deleter-Leads none id tenant_id h = quiet w others (no_counts (λ a. refl) (λ id. refl)) tt h
  deleter-Leads (some content) id tenant_id h =
      elim (Option-cases (Store.get w.now id tenant_id w.table)) [
        | inl e ↦ rw (e, step) (quiet w others (no_counts (λ a. refl) (λ id. refl)) tt h)
        | inr (row, e) ↦ rw (e, step) (quiet w others (no_counts (λ a. refl) (λ id. refl)) tt h)
      ]

  leasing-Leads :
      (outcome : Option Bytes) (row : File)
      → Coherent w.locks (leasing row) others
      → Leads others (step outcome (leasing row) w)
  unfolding step
  leasing-Leads outcome row h = elim (Option-cases (acquire_lease row.id w.locks)) [
    | inl e ↦ rw (e, Leads) (quiet w others (no_counts (λ a. refl) (λ id. refl)) tt h)
    | inr ((address, locks), e) ↦
        rw (e, Leads) (acquire-Coherent row w.locks locks address others e h)
  ]

  claiming-Leads :
      (outcome : Option Bytes) (origin : Origin) (row : File)
      → Coherent w.locks (claiming origin row) others
      → Leads others (step outcome (claiming origin row) w)
  unfolding step after_deletion
  claiming-Leads outcome origin row h = elim (Option-cases (begin_deletion row.id w.locks)) [
    | inl e ↦ rw (e, Leads) (by_origin origin)
    | inr ((channel, locks), e) ↦
        rw (e, Leads) (begin-Coherent origin row w.locks locks channel others e h)
  ]
    where
      by_origin : (o : Origin) → Coherent w.locks (after_deletion o) others
      by_origin handler = quiet w others (no_counts (λ a. refl) (λ id. refl)) tt h
      by_origin (janitor rows) = quiet w others (no_counts (λ a. refl) (λ id. refl)) tt h

  looking_up-Leads :
      (outcome : Option Bytes) (id : String) (address : ℕ)
      → Coherent w.locks (looking_up id address) others
      → Leads others (step outcome (looking_up id address) w)
  unfolding step
  looking_up-Leads none id address h = quiet w others (no_counts (λ a. refl) (λ id. refl)) tt h
  looking_up-Leads (some content) id address h =
      elim (Option-cases (Store.get_internal id w.table)) [
        | inl e ↦ rw (e, step) (quiet w others (no_counts (λ a. refl) (λ id. refl)) tt h)
        | inr (row, e) ↦ rw (e, step) (by_deletion row (is_some row.deleted_at))
      ]
    where
      by_deletion :
          (row : File) (b : Bool)
          → Leads others
              (if b then some (ending_conversion id address, w) else some (starting row address, w))
      by_deletion row true = quiet w others (no_counts (λ a. refl) (λ id. refl)) tt h
      by_deletion row false = quiet w others (no_counts (λ a. refl) (λ id. refl)) tt h

  starting-Leads :
      (outcome : Option Bytes) (row : File) (address : ℕ)
      → Coherent w.locks (starting row address) others
      → Leads others (step outcome (starting row address) w)
  unfolding step
  starting-Leads none row address h = quiet w others (no_counts (λ a. refl) (λ id. refl)) tt h
  starting-Leads (some content) row address h =
      by_update (Store.update_status row.id "processing" [] "" w.table).0
    where
      by_update :
          (b : Bool)
          → Coherent w.locks
              (if b then converting row address else ending_conversion row.id address)
              others
      by_update true = quiet w others (no_counts (λ a. refl) (λ id. refl)) tt h
      by_update false = quiet w others (no_counts (λ a. refl) (λ id. refl)) tt h

  worker-Leads :
      (outcome : Option Bytes) (id : String)
      → Coherent w.locks (worker id) others
      → Leads others (step outcome (worker id) w)
  unfolding step begin_conversion
  worker-Leads outcome id h =
      frame-Coherent w.locks _ _ _ others refl refl refl (omega arith)
        (no_counts (λ a. refl) (λ other. refl)) tt h

  conversion_ended :
      (t' : Thread) (id : String) (address : ℕ)
      → ((a : ℕ) → reads a t' ≡ 0)
      → ((other : String) → claims other t' ≡ 0)
      → Safe (end_conversion id address w.locks) t'
      → Coherent w.locks (ending_conversion id address) others
      → Coherent (end_conversion id address w.locks) t' others
  unfolding end_conversion
  conversion_ended t' id address no_reads no_claims safe h =
      frame-Coherent w.locks (end_conversion id address w.locks) _ t' others (ground arith)
        (ground arith) (ground arith) (ground arith) (no_counts no_reads no_claims) safe h

  ending_conversion-Leads :
      (outcome : Option Bytes) (id : String) (address : ℕ)
      → Coherent w.locks (ending_conversion id address) others
      → Leads others (step outcome (ending_conversion id address) w)
  unfolding step
  ending_conversion-Leads none id address h =
      conversion_ended (worker id) id address (λ a. refl) (λ other. refl) tt h
  ending_conversion-Leads (some []) id address h =
      conversion_ended finished id address (λ a. refl) (λ other. refl) tt h
  ending_conversion-Leads (some (byte ∷ text)) id address h =
      conversion_ended (dropping id) id address (λ a. refl) (λ other. refl) tt h

  dropping-Leads :
      (outcome : Option Bytes) (id : String)
      → Coherent w.locks (dropping id) others
      → Leads others (step outcome (dropping id) w)
  unfolding step
  dropping-Leads none id h = quiet w others (no_counts (λ a. refl) (λ id. refl)) tt h
  dropping-Leads (some content) id h = quiet w others (no_counts (λ a. refl) (λ id. refl)) tt h

  converting-Leads :
      (outcome : Option Bytes) (row : File) (address : ℕ)
      → Coherent w.locks (converting row address) others
      → Leads others (step outcome (converting row address) w)
  unfolding step
  converting-Leads none row address h = quiet w others (no_counts (λ a. refl) (λ id. refl)) tt h
  converting-Leads (some content) row address h =
      quiet w others (no_counts (λ a. refl) (λ id. refl)) tt h

  recording-Leads :
      (outcome : Option Bytes) (row : File) (address : ℕ)
      → Coherent w.locks (recording row address) others
      → Leads others (step outcome (recording row address) w)
  unfolding step
  recording-Leads none row address h = quiet w others (no_counts (λ a. refl) (λ id. refl)) tt h
  recording-Leads (some content) row address h =
      quiet w others (no_counts (λ a. refl) (λ id. refl)) tt h

  sweeper-Leads :
      (outcome : Option Bytes)
      → Coherent w.locks sweeper others
      → Leads others (step outcome sweeper w)
  unfolding step
  sweeper-Leads none h = quiet w others (no_counts (λ a. refl) (λ id. refl)) tt h
  sweeper-Leads (some content) h = quiet w others (no_counts (λ a. refl) (λ id. refl)) tt h

-- Every step keeps the locks coherent.
step-Leads :
    (outcome : Option Bytes) (t : Thread) (w : World) (others : List Thread)
    → Coherent w.locks t others
    → Leads others (step outcome t w)
unfolding step
step-Leads outcome (reader id tenant_id) w others h = reader-Leads w others outcome id tenant_id h
step-Leads outcome (leasing row) w others h = leasing-Leads w others outcome row h
step-Leads outcome (reading row address) w others h = release-Coherent row w.locks address others h
step-Leads outcome (deleter id tenant_id) w others h = deleter-Leads w others outcome id tenant_id h
step-Leads outcome sweeper w others h = sweeper-Leads w others outcome h
step-Leads none (sweeping []) w others h = quiet w others (no_counts (λ a. refl) (λ id. refl)) tt h
step-Leads (some content) (sweeping []) w others h =
    quiet w others (no_counts (λ a. refl) (λ id. refl)) tt h
step-Leads outcome (sweeping (row ∷ rows)) w others h =
    quiet w others (no_counts (λ a. refl) (λ id. refl)) tt h
step-Leads outcome (claiming origin row) w others h = claiming-Leads w others outcome origin row h
step-Leads outcome (cleanup origin row channel at) w others h =
    cleanup-Leads w others outcome origin row channel at h
step-Leads outcome (worker id) w others h = worker-Leads w others outcome id h
step-Leads outcome (looking_up id address) w others h =
    looking_up-Leads w others outcome id address h
step-Leads outcome (starting row address) w others h = starting-Leads w others outcome row address h
step-Leads outcome (converting row address) w others h =
    converting-Leads w others outcome row address h
step-Leads outcome (recording row address) w others h =
    recording-Leads w others outcome row address h
step-Leads outcome (ending_conversion id address) w others h =
    ending_conversion-Leads w others outcome id address h
step-Leads outcome (dropping id) w others h = dropping-Leads w others outcome id h
step-Leads outcome finished w others h = tt

-- The same with the step's result at hand.
pub step-Coherent :
    (outcome : Option Bytes) (t t' : Thread) (w w' : World) (others : List Thread)
    → step outcome t w ≡ some (t', w')
    → Coherent w.locks t others
    → Coherent w'.locks t' others
step-Coherent outcome t t' w w' others e h =
    subst (Leads others) e (step-Leads outcome t w others h)
