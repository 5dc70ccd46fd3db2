-- ===== src/Files/Threads/Exclusion/Removals.antt =====
-- The steps of a cleanup keep the locks coherent.
use llm_file_gateway.Prelude.{
  ℕ, ◌≡◌, refl, inl, inr, Bool, true, false, Option, none, some, List, arith, is_some, Bool-cases,
  Option-cases, if◌then◌else◌,
}
use llm_file_gateway.Prelude.Text.{String}
use llm_file_gateway.Store.{File}
use llm_file_gateway.Files.Disk.{Bytes}
use llm_file_gateway.Files.Locks.{Locks, lease_to_await, conversion_to_await}
use llm_file_gateway.Files.Threads.{
  World, Thread, Phase, Origin, cleanup, marking, handler, janitor, checking_conversion,
  checking_lease, removing, erasing, ending, awaiting_conversion, awaiting_lease, step_cleanup,
}
use llm_file_gateway.Files.Threads.Exclusion.{LeaseFact, Coherent}
use llm_file_gateway.Files.Threads.Exclusion.Claims.{end-Coherent}
use llm_file_gateway.Files.Threads.Exclusion.Frame.{frame-Coherent}
use llm_file_gateway.Files.Threads.Exclusion.Kept.{Leads, no_counts, phase}

module _ (w : World) (others : List Thread) where
  -- What follows from not having to wait for a lease.
  no_lease :
      (id : String) (t : Thread)
      → Coherent w.locks t others
      → lease_to_await id w.locks ≡ none
      → w.locks.leases id ≡ none
  unfolding lease_to_await
  no_lease id t h e = elim (Option-cases (w.locks.leases id)) [
    | inl none_there ↦ none_there
    | inr (address, there) ↦ ground (arith, h.leased id address, there)
  ]

  lease_waited :
      (id : String) (address : ℕ)
      → lease_to_await id w.locks ≡ some address
      → w.locks.leases id ≡ some address
  unfolding lease_to_await
  lease_waited id address e = ground arith

  closed_free :
      (id : String) (address : ℕ) (t : Thread)
      → Coherent w.locks t others
      → LeaseFact w.locks id (awaiting_lease address)
      → (w.locks.lease_at address).closed ≡ true
      → w.locks.leases id ≡ none
  closed_free id address t h fact closed = ground (arith, h.leased id address)

  marked-Leads :
      (origin : Origin) (row : File) (channel : ℕ) (b : Bool)
      → Coherent w.locks (cleanup origin row channel marking) others
      → Coherent w.locks
          (if b
            then cleanup origin row channel checking_conversion
            else cleanup origin row channel ending)
          others
  marked-Leads origin row channel true h = phase w others checking_conversion tt h
  marked-Leads origin row channel false h = phase w others ending tt h

  awaited-Leads :
      (origin : Origin) (row : File) (channel address : ℕ) (locks : Locks)
      → conversion_to_await row.id w.locks ≡ some (address, locks)
      → Coherent w.locks (cleanup origin row channel checking_conversion) others
      → Coherent locks (cleanup origin row channel (awaiting_conversion address)) others
  unfolding conversion_to_await
  awaited-Leads origin row channel address locks e h =
      let leases_same : locks.leases ≡ w.locks.leases = ground arith in
      let deleting_same : locks.deleting ≡ w.locks.deleting = ground arith in
      frame-Coherent w.locks locks _ _ others leases_same deleting_same (ground arith)
        (ground arith) (no_counts (λ a. refl) (λ id. refl)) (rw deleting_same h.safe.0, tt) h

  pub cleanup-Leads :
      (outcome : Option Bytes) (origin : Origin) (row : File) (channel : ℕ) (at : Phase)
      → Coherent w.locks (cleanup origin row channel at) others
      → Leads others (step_cleanup outcome origin row channel at w)
  unfolding step_cleanup
  cleanup-Leads none handler row channel marking h = phase w others ending tt h
  cleanup-Leads (some content) handler row channel marking h = marked-Leads handler row channel _ h
  cleanup-Leads none (janitor rows) row channel marking h =
      elim (Bool-cases (is_some row.deleted_at)) [
        | inl e ↦ rw (e, step_cleanup) (phase w others checking_conversion tt h)
        | inr e ↦ rw (e, step_cleanup) (phase w others ending tt h)
      ]
  cleanup-Leads (some content) (janitor rows) row channel marking h =
      elim (Bool-cases (is_some row.deleted_at)) [
        | inl e ↦ rw (e, step_cleanup) (phase w others checking_conversion tt h)
        | inr e ↦ rw (e, step_cleanup) (marked-Leads (janitor rows) row channel _ h)
      ]
  cleanup-Leads outcome origin row channel checking_conversion h =
      elim (Option-cases (conversion_to_await row.id w.locks)) [
        | inl e ↦ rw (e, step_cleanup) (phase w others checking_lease tt h)
        | inr ((address, locks), e) ↦
            rw (e, step_cleanup) (awaited-Leads origin row channel address locks e h)
      ]
  cleanup-Leads outcome origin row channel (awaiting_conversion address) h =
      elim (Bool-cases (w.locks.conversion_at address).done) [
        | inl e ↦ rw (e, step_cleanup) (phase w others checking_lease tt h)
        | inr e ↦ rw (e, step_cleanup) tt
      ]
  cleanup-Leads outcome origin row channel checking_lease h =
      elim (Option-cases (lease_to_await row.id w.locks)) [
        | inl e ↦ rw (e, step_cleanup) (phase w others removing (no_lease row.id _ h e) h)
        | inr (address, e) ↦
            rw (e, step_cleanup)
              (let there = lease_waited row.id address e in
                phase w others (awaiting_lease address)
                  ((h.leased row.id address there).0, inl there) h)
      ]
  cleanup-Leads outcome origin row channel (awaiting_lease address) h =
      elim (Bool-cases (w.locks.lease_at address).closed) [
        | inl e ↦
            rw (e, step_cleanup)
              (phase w others removing (closed_free row.id address _ h h.safe.1 e) h)
        | inr e ↦ rw (e, step_cleanup) tt
      ]
  cleanup-Leads none origin row channel removing h = phase w others ending tt h
  cleanup-Leads (some content) origin row channel removing h = phase w others erasing tt h
  cleanup-Leads none origin row channel erasing h = phase w others ending tt h
  cleanup-Leads (some content) origin row channel erasing h = phase w others ending tt h
  cleanup-Leads outcome origin row channel ending h =
      end-Coherent origin row w.locks channel others h
