-- ===== src/Files/Resolve/Leasing.antt =====
-- A reader of internal/files/service.go that fails gives its lease back.
use llm_file_gateway.Prelude.{
  ℕ, ◌<◌, ◌≡◌, refl, ap, ◌∙◌, ◌⊎◌, inl, inr, false, Option, some, arith, Option-cases, Bool-cases,
}
use llm_file_gateway.Prelude.Text.{String, ◌=ˢ◌, eq_refl, eq_iff}
use llm_file_gateway.ApiError.{Fault}
use llm_file_gateway.Store.{File, get}
use llm_file_gateway.Files.Disk.{Disk, Bytes, read_file}
use llm_file_gateway.Files.Locks.{Locks, acquire_lease, release_lease}
use llm_file_gateway.Files.Resolve.{Poll, read_manifest, open_source}

-- The lease of a file is open and has readers.
abbrev pub IsOpen : Locks → String → Type 0
IsOpen locks id =
    (address : ℕ)
    → locks.leases id ≡ some address
    → (0 < (locks.lease_at address).refs) × ((locks.lease_at address).closed ≡ false)

-- Nobody sees a difference between two states of the locks: the same leases with the same counts, and
-- the same deletion marks.
abbrev pub IsSameLocks : Locks → Locks → Type 0
IsSameLocks locks other =
    ((id : String) → other.leases id ≡ locks.leases id)
    × ((address : ℕ)
        → (address < locks.next)
        → (other.lease_at address).refs ≡ (locks.lease_at address).refs)
    × ((id : String) → other.deleting id ≡ locks.deleting id)

-- Taking a lease and releasing it at once changes nothing.
acquire-release :
    (id : String) (locks held : Locks) (address : ℕ)
    → IsOpen locks id
    → acquire_lease id locks ≡ some (address, held)
    → IsSameLocks locks (release_lease id address held)
unfolding acquire_lease release_lease
acquire-release id locks held address shared e = (
  λ other. ground (arith, shared address, eq_iff other id),
  (λ a fresh. ground (arith, shared address)),
  λ other. ground arith,
)

IsSameLocks-refl : (locks : Locks) → IsSameLocks locks locks
IsSameLocks-refl locks = (λ id. refl, (λ address fresh. refl), λ id. refl)

-- The lease that a reader was given is the file's lease.
acquire_holds :
    (id : String) (locks held : Locks) (address : ℕ)
    → acquire_lease id locks ≡ some (address, held)
    → held.leases id ≡ some address
unfolding acquire_lease
acquire_holds id locks held address e = ground (arith, eq_refl id)

-- A reader that fails leaves the locks as they were, and one that succeeds holds the lease.
abbrev Ends : {A : Type 0} → (A → ℕ) → String → Locks → Locks × (Fault ⊎ A) → Type 0
Ends address_of id locks (after, inl fault) = IsSameLocks locks after
Ends address_of id locks (after, inr result) = after.leases id ≡ some (address_of result)

module _ {A : Type 0} (address_of : A → ℕ) (id : String) (locks : Locks) where
  Ends-failed :
      (r : Locks × (Fault ⊎ A)) (fault : Fault)
      → Ends address_of id locks r
      → r.1 ≡ inl fault
      → IsSameLocks locks r.0
  Ends-failed (after, inl f) fault h e = h
  Ends-failed (after, inr result) fault h e = absurd (cc e)

  Ends-done :
      (r : Locks × (Fault ⊎ A)) (result : A)
      → Ends address_of id locks r
      → r.1 ≡ inr result
      → r.0.leases id ≡ some (address_of result)
  Ends-done (after, inl f) result h e = absurd (cc e)
  Ends-done (after, inr other) result h e = h ∙ ap (λ o. some (address_of o)) (cc e)

module _ {M : Type 0} (decode : Bytes → Option M) (param : String) (row : File) (locks : Locks)
    (disk : Disk) (shared : IsOpen locks row.id) where
  read_manifest-Ends :
      Ends (λ (m : M × ℕ). m.1) row.id locks (read_manifest decode param row locks disk)
  unfolding read_manifest
  read_manifest-Ends = elim (Bool-cases (row.status =ˢ "failed")) [
    | inl e ↦ rw (e, read_manifest) (IsSameLocks-refl locks)
    | inr e ↦ elim (Option-cases row.manifest_path) [
      | inl n ↦ rw (e, n, read_manifest) (IsSameLocks-refl locks)
      | inr (path, n) ↦ elim (Option-cases (acquire_lease row.id locks)) [
        | inl k ↦ rw (e, n, k, read_manifest) (IsSameLocks-refl locks)
        | inr ((address, held), k) ↦ elim (Option-cases (read_file path disk)) [
          | inl f ↦
              rw (e, n, k, f, read_manifest) (acquire-release row.id locks held address shared k)
          | inr (content, f) ↦ elim (Option-cases (decode content)) [
            | inl d ↦
                rw (e, n, k, f, d, read_manifest)
                  (acquire-release row.id locks held address shared k)
            | inr (manifest, d) ↦
                rw (e, n, k, f, d, read_manifest) (acquire_holds row.id locks held address k)
          ]
        ]
      ]
    ]
  ]

  -- `Resolve` after its wait, when it fails, leaves the leases and the deletion marks as they were: on
  -- none of its error paths a lease is leaked. The file's lease, if there is one, is in use.
  pub failed_read_releases :
      (fault : Fault)
      → (read_manifest decode param row locks disk).1 ≡ inl fault
      → IsSameLocks locks (read_manifest decode param row locks disk).0
  failed_read_releases fault =
      Ends-failed (λ (m : M × ℕ). m.1) row.id locks (read_manifest decode param row locks disk)
        fault read_manifest-Ends

module _ (tenant_id : String) (poll : Poll) (locks : Locks) (disk : Disk) (id : String)
    (shared : IsOpen locks id) where
  open_source-Ends :
      Ends (λ (o : File × Bytes × ℕ). o.2) id locks (open_source tenant_id poll locks disk id)
  unfolding open_source
  open_source-Ends = elim (Option-cases poll.failure) [
    | inr (fault, e) ↦ rw (e, open_source) (IsSameLocks-refl locks)
    | inl e ↦ elim (Option-cases (get poll.now id tenant_id poll.table)) [
      | inl n ↦ rw (e, n, open_source) (IsSameLocks-refl locks)
      | inr (row, n) ↦ elim (Option-cases (acquire_lease id locks)) [
        | inl k ↦ rw (e, n, k, open_source) (IsSameLocks-refl locks)
        | inr ((address, held), k) ↦ elim (Option-cases (read_file row.source_path disk)) [
          | inl f ↦ rw (e, n, k, f, open_source) (acquire-release id locks held address shared k)
          | inr (content, f) ↦ rw (e, n, k, f, open_source) (acquire_holds id locks held address k)
        ]
      ]
    ]
  ]

  -- `OpenSource`, when it fails, leaves the leases and the deletion marks as they were.
  failed_open_releases :
      (fault : Fault)
      → (open_source tenant_id poll locks disk id).1 ≡ inl fault
      → IsSameLocks locks (open_source tenant_id poll locks disk id).0
  failed_open_releases fault =
      Ends-failed (λ (o : File × Bytes × ℕ). o.2) id locks
        (open_source tenant_id poll locks disk id) fault open_source-Ends

  -- `OpenSource`, when it succeeds, holds the file's lease.
  opened_holds_lease :
      (row : File) (content : Bytes) (address : ℕ)
      → (open_source tenant_id poll locks disk id).1 ≡ inr (row, content, address)
      → (open_source tenant_id poll locks disk id).0.leases id ≡ some address
  opened_holds_lease row content address =
      Ends-done (λ (o : File × Bytes × ℕ). o.2) id locks (open_source tenant_id poll locks disk id)
        (row, content, address) open_source-Ends
