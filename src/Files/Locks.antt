-- ===== src/Files/Locks.antt =====
-- The maps of the file service that coordinate readers, deletions and conversions
-- (internal/files/service.go: `conversions`, `leases`, `deleting`, and what they point to). Each
-- function is one critical section under `lifecycleMu`. Shared objects have addresses, since a
-- reader or a worker keeps the pointer that it was given; `next` is the next fresh address.
use llm_file_gateway.Prelude.{
  ℕ, ◌+◌, ◌-◌, Bool, true, false, not, ◌&&◌, Option, none, some, ◌==◌, if◌then◌else◌,
}
use llm_file_gateway.Prelude.Text.{String}
use llm_file_gateway.Prelude.Map.{Map, Heap, no_entries, put, remove, store}

-- A reference count on a file's artifacts; `closed` says that the channel `done` is closed.
pub record Lease : Type 0 where
  pub refs : ℕ
  pub closed : Bool

-- An in-flight conversion; `done` says that its channel is closed, `cancelled` that its context is
-- cancelled.
pub record Conversion : Type 0 where
  pub active : Bool
  pub done : Bool
  pub cancelled : Bool

pub record Locks : Type 0 where
  pub conversions : Map ℕ
  pub conversion_at : Heap Conversion
  pub leases : Map ℕ
  pub lease_at : Heap Lease
  pub deleting : Map ℕ
  pub next : ℕ

abbrev pub no_locks : Locks
no_locks = record {
  conversions = no_entries;
  conversion_at = λ _. record { active = false; done = false; cancelled = false };
  leases = no_entries;
  lease_at = λ _. record { refs = 0; closed = false };
  deleting = no_entries;
  next = 0;
}

-- `none` is the error "file is being deleted"; otherwise the address of the lease to release.
unfoldable pub acquire_lease : String → Locks → Option (ℕ × Locks)
acquire_lease id locks = elim (locks.deleting id) [
  | some channel ↦ none
  | none ↦ elim (locks.leases id) [
    | none ↦ some (
      locks.next,
      record locks {
        leases = put locks.leases id locks.next;
        lease_at = store locks.lease_at locks.next (record { refs = 1; closed = false });
        next = locks.next + 1;
      },
    )
    | some address ↦
        let lease = locks.lease_at address in
        some (
          address,
          record locks {
            lease_at = store locks.lease_at address (record lease { refs = lease.refs + 1 });
          },
        )
  ]
]

unfoldable pub release_lease : String → ℕ → Locks → Locks
release_lease id address locks =
    let lease = locks.lease_at address in
    if lease.refs - 1 == 0 && not lease.closed
    then record locks {
      leases = remove locks.leases id;
      lease_at = store locks.lease_at address (record { refs = lease.refs - 1; closed = true });
    }
    else record locks {
      lease_at = store locks.lease_at address (record lease { refs = lease.refs - 1 });
    }

-- `waitForLease` up to its wait: the lease whose channel it waits on, or nothing to wait for.
unfoldable pub lease_to_await : String → Locks → Option ℕ
lease_to_await id locks = elim (locks.leases id) [
  | none ↦ none
  | some address ↦ if (locks.lease_at address).refs == 0 then none else some address
]

-- The claim on a file's cleanup: a fresh channel, or `none` where another cleanup owns the file.
-- Nothing in the program receives from that channel.
unfoldable pub begin_deletion : String → Locks → Option (ℕ × Locks)
begin_deletion id locks = elim (locks.deleting id) [
  | some channel ↦ none
  | none ↦ some (
    locks.next,
    record locks { deleting = put locks.deleting id locks.next; next = locks.next + 1 },
  )
]

abbrev pub holds : Option ℕ → ℕ → Bool
holds none address = false
holds (some other) address = other == address

unfoldable pub end_deletion : String → ℕ → Locks → Locks
end_deletion id channel locks =
    if holds (locks.deleting id) channel
    then record locks { deleting = remove locks.deleting id }
    else locks

unfoldable pub begin_conversion : String → Locks → ℕ × Locks
begin_conversion id locks = (
  locks.next,
  record locks {
    conversions = put locks.conversions id locks.next;
    conversion_at =
        store locks.conversion_at locks.next
          (record { active = true; done = false; cancelled = false });
    next = locks.next + 1;
  },
)

unfoldable pub end_conversion : String → ℕ → Locks → Locks
end_conversion id address locks =
    let ended : Conversion = record { active = false; done = true; cancelled = true } in
    if holds (locks.conversions id) address
    then record locks {
      conversions = remove locks.conversions id;
      conversion_at = store locks.conversion_at address ended;
    }
    else record locks { conversion_at = store locks.conversion_at address ended }

-- `waitForConversion` up to its wait: it cancels an active conversion, and then waits for it.
unfoldable pub conversion_to_await : String → Locks → Option (ℕ × Locks)
conversion_to_await id locks = elim (locks.conversions id) [
  | none ↦ none
  | some address ↦
      let state = locks.conversion_at address in
      if not state.active
      then none
      else some (
        address,
        record locks {
          conversion_at = store locks.conversion_at address (record state { cancelled = true });
        },
      )
]
