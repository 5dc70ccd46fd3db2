-- ===== src/Files/Threads/Exclusion/Leases.antt =====
-- The critical sections that take and give back a lease keep the locks coherent.
use llm_file_gateway.Prelude.{
  ℕ, ◌+◌, ◌≤◌, ◌<◌, ◌≡◌, false, some, List, [], ◌∷◌, arith, All, All-both, All-map,
}
use llm_file_gateway.Prelude.Text.{String, eq_iff}
use llm_file_gateway.Store.{File}
use llm_file_gateway.Files.Locks.{Locks, acquire_lease, release_lease}
use llm_file_gateway.Files.Threads.{Thread, leasing, reading, finished}
use llm_file_gateway.Files.Threads.Counting.{sum_over}
use llm_file_gateway.Files.Threads.Exclusion.{reads, claims, count_of, Safe, Coherent}
use llm_file_gateway.Files.Threads.Exclusion.Stable.{acquire_lease-Safe, release_lease-Safe}

-- Nobody else is counted where the sum over the others is zero.
pub sum_over-zero : (f : Thread → ℕ) (ts : List Thread) → sum_over f ts ≡ 0 → All (λ u. f u ≡ 0) ts
sum_over-zero f [] h = tt
sum_over-zero f (t ∷ ts) h = (omega arith, sum_over-zero f ts (omega arith))

under_premise :
    {P : Type 0} (f : Thread → ℕ) (ts : List Thread)
    → (P → All (λ u. f u ≡ 0) ts)
    → All (λ u. P → f u ≡ 0) ts
under_premise f [] h = tt
under_premise f (t ∷ ts) h = (λ p. (h p).0, under_premise f ts (λ p. (h p).1))

module _ (row : File) (l l' : Locks) (address : ℕ) (others : List Thread)
    (step : acquire_lease row.id l ≡ some (address, l')) (h : Coherent l (leasing row) others) where
  acquire-fresh : (a : ℕ) → l'.next ≤ a → (l'.lease_at a).refs ≡ 0
  unfolding acquire_lease
  acquire-fresh a k = ground (arith, h.fresh a, h.leased row.id address)

  acquire-leased :
      (id : String) (a : ℕ)
      → l'.leases id ≡ some a
      → (a < l'.next) × (0 < (l'.lease_at a).refs) × ((l'.lease_at a).closed ≡ false)
  unfolding acquire_lease
  acquire-leased id a k = ground (arith, h.leased id a, h.leased row.id a, eq_iff id row.id)

  acquire-separate :
      (id other : String) (a : ℕ) → l'.leases id ≡ some a → l'.leases other ≡ some a → id ≡ other
  unfolding acquire_lease
  acquire-separate id other a j k = ground (
    arith,
    h.separate id other a,
    h.leased id a,
    h.leased other a,
    eq_iff id row.id,
    eq_iff other row.id,
  )

  acquire-counted :
      (a : ℕ) → reads a (reading row address) + sum_over (reads a) others ≡ (l'.lease_at a).refs
  unfolding acquire_lease
  acquire-counted a = ground (arith, h.counted a, h.fresh a, h.leased row.id a)

  acquire-claimed : (id : String) → 0 + sum_over (claims id) others ≡ count_of (l'.deleting id)
  unfolding acquire_lease
  acquire-claimed id = ground (arith, h.claimed id)

  acquired : l'.leases row.id ≡ some address
  unfolding acquire_lease
  acquired = ground (arith, eq_iff row.id row.id)

  pub acquire-Coherent : Coherent l' (reading row address) others
  acquire-Coherent = record {
    fresh = acquire-fresh;
    leased = acquire-leased;
    separate = acquire-separate;
    counted = acquire-counted;
    claimed = acquire-claimed;
    safe = acquired;
    others_safe =
        All-map (Safe l) (Safe l') (acquire_lease-Safe row.id l l' address step) others
          h.others_safe;
  }

module _ (row : File) (l : Locks) (address : ℕ) (others : List Thread)
    (h : Coherent l (reading row address) others) where
  abbrev released : Locks
  released = release_lease row.id address l

  release-fresh : (a : ℕ) → released.next ≤ a → (released.lease_at a).refs ≡ 0
  unfolding release_lease
  release-fresh a k = ground (arith, h.fresh a)

  release-leased :
      (id : String) (a : ℕ)
      → released.leases id ≡ some a
      → (a < released.next)
        × (0 < (released.lease_at a).refs)
        × ((released.lease_at a).closed ≡ false)
  unfolding release_lease
  release-leased id a k = ground (
    arith,
    h.leased id a,
    h.leased row.id address,
    h.safe,
    h.separate id row.id address,
    eq_iff id row.id,
  )

  release-separate :
      (id other : String) (a : ℕ)
      → released.leases id ≡ some a
      → released.leases other ≡ some a
      → id ≡ other
  unfolding release_lease
  release-separate id other a j k =
      ground (arith, h.separate id other a, eq_iff id row.id, eq_iff other row.id)

  release-counted : (a : ℕ) → 0 + sum_over (reads a) others ≡ (released.lease_at a).refs
  unfolding release_lease
  release-counted a = ground (arith, h.counted a, h.leased row.id address, h.safe)

  release-claimed :
      (id : String) → 0 + sum_over (claims id) others ≡ count_of (released.deleting id)
  unfolding release_lease
  release-claimed id = ground (arith, h.claimed id)

  last : (l.lease_at address).refs ≡ 1 → All (λ u. reads address u ≡ 0) others
  last one = sum_over-zero (reads address) others (ground (arith, h.counted address))

  pub release-Coherent : Coherent released finished others
  release-Coherent = record {
    fresh = release-fresh;
    leased = release-leased;
    separate = release-separate;
    counted = release-counted;
    claimed = release-claimed;
    safe = tt;
    others_safe =
        All-map (λ u. Safe l u × ((l.lease_at address).refs ≡ 1 → reads address u ≡ 0))
          (Safe released)
          (λ u k.
            release_lease-Safe row.id l address h.safe u k.0 k.1 (h.leased row.id address h.safe).1)
          others (All-both (Safe l) _ others h.others_safe (under_premise _ others last));
  }
