-- ===== src/Files/Resolve.antt =====
-- `Resolve` and `OpenSource` of internal/files/service.go: the wait for a conversion and the reading of
-- a file's artifacts under a lease. Each poll of the store sees the time and the table of its moment.
-- Durations are numbers of nanoseconds. Decoding manifest.json is a parameter.
pub mod Waiting
pub mod Leasing
pub mod Tests
use llm_file_gateway.Prelude.{
  ℕ, ◌+◌, ◌*◌, Bool, true, false, not, ◌&&◌, ◌||◌, Option, none, some, List, [], ◌∷◌, ◌++◌, ◌⊎◌,
  inl, inr, ltb, is_some, if◌then◌else◌,
}
use llm_file_gateway.Prelude.Text.{String, ◌=ˢ◌}
use llm_file_gateway.ApiError.{Fault, gateway, new}
use llm_file_gateway.Store
use llm_file_gateway.Store.{File, FilePath, Table}
use llm_file_gateway.Files.Disk.{Disk, Bytes, read_file}
use llm_file_gateway.Files.Locks.{Locks, acquire_lease, release_lease}

abbrev pub millisecond : ℕ
millisecond = 1000000

abbrev pub resolve_poll_initial : ℕ
resolve_poll_initial = 100 * millisecond

abbrev pub resolve_poll_max : ℕ
resolve_poll_max = 2000 * millisecond

abbrev pub resolve_poll_jitter : ℕ
resolve_poll_jitter = 500 * millisecond

-- What ends the wait after a poll: the timer with its random extra, the request or the service.
pub data Wake : Type 0 where
  timer : ℕ → Wake
  context_done : Fault → Wake
  stopping : Wake

-- One poll of the store, which may fail.
pub record Poll : Type 0 where
  pub failure : Option Fault
  pub now : ℕ
  pub table : Table
  pub wake : Wake

abbrev pub is_pending : File → Bool
is_pending row = row.status =ˢ "uploaded" || row.status =ˢ "processing"

abbrev pub next_delay : ℕ → ℕ
next_delay delay = if ltb resolve_poll_max (delay * 2) then resolve_poll_max else delay * 2

abbrev pub not_found : String → Fault
not_found param = gateway (new 404 "file_not_found" "File not found." param)

-- `none` is a poll that has to be repeated.
abbrev pub look_up : String → String → String → Poll → Option (Fault ⊎ File)
look_up id tenant_id param poll = elim poll.failure [
  | some fault ↦ some (inl fault)
  | none ↦ elim (Store.get poll.now id tenant_id poll.table) [
    | none ↦ some (inl (not_found param))
    | some row ↦ if is_pending row then none else some (inr row)
  ]
]

-- What follows a poll: the end of the wait, or a pause and the rest of the polls.
abbrev pub after_poll :
    String
    → ℕ
    → Option (Fault ⊎ File)
    → Wake
    → List ℕ × Option (Fault ⊎ File)
    → List ℕ × Option (Fault ⊎ File)
after_poll param delay (some result) wake rest = ([], some result)
after_poll param delay none (timer jitter) (waits, ended) = ((delay + jitter) ∷ waits, ended)
after_poll param delay none (context_done fault) rest = ([], some (inl fault))
after_poll param delay none stopping rest =
    ([], some (inl (gateway (new 503 "service_unavailable" "The file service is stopping." param))))

-- The loop of `Resolve`: how long it waits after each poll, and how it ends, if it does before the
-- polls run out.
unfoldable pub await_conversion :
    String → String → String → ℕ → List Poll → List ℕ × Option (Fault ⊎ File)
await_conversion id tenant_id param delay [] = ([], none)
await_conversion id tenant_id param delay (poll ∷ polls) =
    after_poll param delay (look_up id tenant_id param poll) poll.wake
      (await_conversion id tenant_id param (next_delay delay) polls)

-- What `Resolve` does with the row that it waited for: the fault, or the manifest with the lease to
-- release.
module _ {M : Type 0} (decode : Bytes → Option M) where
  unfoldable pub read_manifest : String → File → Locks → Disk → Locks × (Fault ⊎ (M × ℕ))
  read_manifest param row locks disk =
      let unprocessed : String → Fault =
        λ message. gateway (new 422 "file_processing_failed" message param) in
      if row.status =ˢ "failed"
      then (locks, inl (unprocessed "File processing failed."))
      else elim row.manifest_path [
        | none ↦ (locks, inl (unprocessed "File processing failed."))
        | some path ↦ elim (acquire_lease row.id locks) [
          | none ↦ (locks, inl (not_found param))
          | some (address, held) ↦ elim (read_file path disk) [
            | none ↦
                (release_lease row.id address held, inl (unprocessed "File manifest is missing."))
            | some content ↦ elim (decode content) [
              | none ↦ (release_lease row.id address held, inl (Fault.failed "manifest decode"))
              | some manifest ↦ (held, inr (manifest, address))
            ]
          ]
        ]
      ]

-- The source file's content stands for the open file.
unfoldable pub open_source :
    String → Poll → Locks → Disk → String → Locks × (Fault ⊎ (File × Bytes × ℕ))
open_source tenant_id poll locks disk id = elim poll.failure [
  | some fault ↦ (locks, inl fault)
  | none ↦ elim (Store.get poll.now id tenant_id poll.table) [
    | none ↦ (locks, inl (not_found "file_id"))
    | some row ↦ elim (acquire_lease id locks) [
      | none ↦ (locks, inl (not_found "file_id"))
      | some (address, held) ↦ elim (read_file row.source_path disk) [
        | none ↦ (release_lease id address held, inl (Fault.failed "open source"))
        | some content ↦ (held, inr (row, content, address))
      ]
    ]
  ]
]
