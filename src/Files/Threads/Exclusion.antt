-- ===== src/Files/Threads/Exclusion.antt =====
-- What the threads of internal/files/service.go may rely on while others move: a reader on its lease,
-- a cleanup on its claim.
pub mod Stable
pub mod Leases
pub mod Claims
pub mod Frame
pub mod Kept
pub mod Removals
pub mod Steps
pub mod Soundness
pub mod Safety
use llm_file_gateway.Prelude.{
  ℕ, zero, suc, ◌+◌, ◌≤◌, ◌<◌, ◌≡◌, refl, ◌⊎◌, Bool, true, false, Option, none, some, List, arith,
  All, ◌==◌, if◌then◌else◌,
}
use llm_file_gateway.Prelude.Text.{String, ◌=ˢ◌}
use llm_file_gateway.Store.{File}
use llm_file_gateway.Files.Locks.{Locks}
use llm_file_gateway.Files.Threads.{
  Thread, Phase, Origin, reader, leasing, reading, deleter, sweeper, sweeping, claiming, cleanup,
  worker, looking_up, starting, converting, recording, ending_conversion, finished, marking,
  checking_conversion, checking_lease, removing, erasing, ending, awaiting_conversion,
  awaiting_lease,
}
use llm_file_gateway.Files.Threads.Counting.{sum_over}

-- 1 for a thread that holds the lease at an address.
abbrev pub reads : ℕ → Thread → ℕ
reads address (reading row held) = if held == address then 1 else 0
reads address _ = 0

-- 1 for a thread between `beginDeletion` and `endDeletion` of a file.
abbrev pub claims : String → Thread → ℕ
claims id (cleanup origin row channel phase) = if row.id =ˢ id then 1 else 0
claims id _ = 0

abbrev pub count_of : Option ℕ → ℕ
count_of none = 0
count_of (some channel) = 1

-- What a cleanup knows of the file's lease: after its check there is none, and while it waits there
-- is the one that it waits for, or none and the channel that it waits on is closed.
abbrev pub LeaseFact : Locks → String → Phase → Type 0
LeaseFact locks id (awaiting_lease address) =
    (address < locks.next)
    × ((locks.leases id ≡ some address)
        ⊎ ((locks.leases id ≡ none) × ((locks.lease_at address).closed ≡ true)))
LeaseFact locks id removing = locks.leases id ≡ none
LeaseFact locks id _ = Unit

abbrev pub Safe : Locks → Thread → Type 0
Safe locks (reading row address) = locks.leases row.id ≡ some address
Safe locks (cleanup origin row channel phase) =
    (locks.deleting row.id ≡ some channel) × LeaseFact locks row.id phase
Safe locks _ = Unit

-- The state of the locks that belongs to a thread and the threads beside it.
pub record Coherent (locks : Locks) (t : Thread) (others : List Thread) : Type 0 where
  pub fresh : (address : ℕ) → locks.next ≤ address → (locks.lease_at address).refs ≡ 0
  pub leased :
      (id : String) (address : ℕ)
      → locks.leases id ≡ some address
      → (address < locks.next)
        × (0 < (locks.lease_at address).refs)
        × ((locks.lease_at address).closed ≡ false)
  pub separate :
      (id other : String) (address : ℕ)
      → locks.leases id ≡ some address
      → locks.leases other ≡ some address
      → id ≡ other
  pub counted :
      (address : ℕ)
      → reads address t + sum_over (reads address) others ≡ (locks.lease_at address).refs
  pub claimed :
      (id : String) → claims id t + sum_over (claims id) others ≡ count_of (locks.deleting id)
  pub safe : Safe locks t
  pub others_safe : All (Safe locks) others
