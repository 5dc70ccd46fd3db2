-- ===== src/Files/Threads/Exclusion/Stable.antt =====
-- What a thread relies on survives the critical sections of the others.
use llm_file_gateway.Prelude.{ℕ, ◌<◌, ◌≡◌, some, arith}
use llm_file_gateway.Prelude.Text.{String, eq_iff}
use llm_file_gateway.Files.Locks.{Locks, acquire_lease, release_lease, begin_deletion, end_deletion}
use llm_file_gateway.Files.Threads.{Thread, Phase, reading, cleanup, awaiting_lease, removing}
use llm_file_gateway.Files.Threads.Exclusion.{reads, claims, LeaseFact, Safe}

module _ (id : String) (l l' : Locks) (address : ℕ)
    (step : acquire_lease id l ≡ some (address, l')) where
  acquire_lease-LeaseFact :
      (other : String) (channel : ℕ) (phase : Phase)
      → l.deleting other ≡ some channel
      → LeaseFact l other phase
      → LeaseFact l' other phase
  unfolding acquire_lease
  acquire_lease-LeaseFact other channel (awaiting_lease waited) h k =
      ground (arith, eq_iff other id)
  acquire_lease-LeaseFact other channel removing h k = ground (arith, eq_iff other id)
  acquire_lease-LeaseFact other channel _ h k = tt

  acquire_lease-deleting : (other : String) → l'.deleting other ≡ l.deleting other
  unfolding acquire_lease
  acquire_lease-deleting other = ground arith

  pub acquire_lease-Safe : (u : Thread) → Safe l u → Safe l' u
  unfolding acquire_lease
  acquire_lease-Safe (reading row held) h = ground (arith, eq_iff row.id id)
  acquire_lease-Safe (cleanup origin row channel phase) h =
      (rw (acquire_lease-deleting row.id) h.0, acquire_lease-LeaseFact row.id channel phase h.0 h.1)
  acquire_lease-Safe _ h = tt

module _ (id : String) (l : Locks) (address : ℕ) (held : l.leases id ≡ some address) where
  release_lease-LeaseFact :
      (other : String) (phase : Phase)
      → LeaseFact l other phase
      → LeaseFact (release_lease id address l) other phase
  unfolding release_lease
  release_lease-LeaseFact other (awaiting_lease waited) k = ground (arith, eq_iff other id)
  release_lease-LeaseFact other removing k = ground (arith, eq_iff other id)
  release_lease-LeaseFact other _ k = tt

  release_lease-deleting :
      (other : String) → (release_lease id address l).deleting other ≡ l.deleting other
  unfolding release_lease
  release_lease-deleting other = ground arith

  -- The last reader of a lease may drop it: no one else holds it.
  pub release_lease-Safe :
      (u : Thread)
      → Safe l u
      → ((l.lease_at address).refs ≡ 1 → reads address u ≡ 0)
      → 0 < (l.lease_at address).refs
      → Safe (release_lease id address l) u
  unfolding release_lease
  release_lease-Safe (reading row other) h alone positive = ground (arith, eq_iff row.id id)
  release_lease-Safe (cleanup origin row channel phase) h alone positive =
      (rw (release_lease-deleting row.id) h.0, release_lease-LeaseFact row.id phase h.1)
  release_lease-Safe _ h alone positive = tt

module _ (id : String) (l l' : Locks) (channel : ℕ)
    (step : begin_deletion id l ≡ some (channel, l')) where
  begin_deletion-LeaseFact :
      (other : String) (phase : Phase) → LeaseFact l other phase → LeaseFact l' other phase
  unfolding begin_deletion
  begin_deletion-LeaseFact other (awaiting_lease waited) k = ground arith
  begin_deletion-LeaseFact other removing k = ground arith
  begin_deletion-LeaseFact other _ k = tt

  pub begin_deletion-Safe : (u : Thread) → Safe l u → Safe l' u
  unfolding begin_deletion
  begin_deletion-Safe (reading row held) h = ground arith
  begin_deletion-Safe (cleanup origin row other phase) h =
      (ground (arith, eq_iff row.id id), begin_deletion-LeaseFact row.id phase h.1)
  begin_deletion-Safe _ h = tt

module _ (id : String) (l : Locks) (channel : ℕ) where
  end_deletion-LeaseFact :
      (other : String) (phase : Phase)
      → LeaseFact l other phase
      → LeaseFact (end_deletion id channel l) other phase
  unfolding end_deletion
  end_deletion-LeaseFact other (awaiting_lease waited) k = ground arith
  end_deletion-LeaseFact other removing k = ground arith
  end_deletion-LeaseFact other _ k = tt

  pub end_deletion-Safe :
      (u : Thread) → Safe l u → claims id u ≡ 0 → Safe (end_deletion id channel l) u
  unfolding end_deletion
  end_deletion-Safe (reading row held) h alone = ground arith
  end_deletion-Safe (cleanup origin row other phase) h alone =
      (ground (arith, eq_iff row.id id), end_deletion-LeaseFact row.id phase h.1)
  end_deletion-Safe _ h alone = tt
