-- ===== src/Files/Threads.antt =====
-- The goroutines of internal/files/service.go as interleaved threads: inference requests and
-- downloads that read a file's artifacts, `Delete` and the janitor's `deleteExpired`, and the
-- workers' `processJob` with `convert`. A step is one call of the store or the file system, or one
-- critical section, or the passing of a second; a thread that waits has no step. The outcome of a step
-- says whether its fallible call succeeds: `none` is a failure, and `some` comes with a text. The
-- converter writes it into manifest.json; where a job ends, it is the text of the error that fails the
-- file, and empty if the conversion succeeded; where the janitor waits, `none` is the end of its
-- context. The delay before a retry is the time that passes before the worker moves again. Which errors
-- are retried, and the error message in the row, are the subject of Files/Retry.antt.
pub mod Counting
pub mod Exclusion
pub mod Conversions
mod Tests
use llm_file_gateway.Prelude.{
  ℕ, zero, suc, ◌+◌, Bool, true, false, not, ◌&&◌, ◌||◌, Option, none, some, List, [], ◌∷◌, ◌++◌,
  is_some, if◌then◌else◌,
}
use llm_file_gateway.Prelude.Text.{String, ◌=ˢ◌}
use llm_file_gateway.Store
use llm_file_gateway.Store.{File, Table}
use llm_file_gateway.Files.Disk.{Disk, Bytes, parent, remove_all, write_file}
use llm_file_gateway.Files.Locks.{
  Locks, acquire_lease, release_lease, lease_to_await, begin_deletion, end_deletion,
  begin_conversion, end_conversion, conversion_to_await,
}

pub record World : Type 0 where
  pub locks : Locks
  pub table : Table
  pub disk : Disk
  pub now : ℕ

-- Who deletes: the handler of DELETE, or the janitor with the rest of its expired rows.
pub data Origin : Type 0 where
  handler : Origin
  janitor : List File → Origin

-- Where a deletion stands between `beginDeletion` and `endDeletion`.
pub data Phase : Type 0 where
  marking checking_conversion checking_lease removing erasing ending : Phase
  awaiting_conversion awaiting_lease : ℕ → Phase

pub data Thread : Type 0 where
  -- `Resolve` after its wait, or `OpenSource`: it has looked up a row, or reads under a lease.
  reader : String → String → Thread
  leasing : File → Thread
  reading : File → ℕ → Thread
  -- `Delete`, `deleteExpired`, and what they share.
  deleter : String → String → Thread
  sweeper : Thread
  sweeping : List File → Thread
  claiming : Origin → File → Thread
  cleanup : Origin → File → ℕ → Phase → Thread
  -- `processJob` for one job, which a retry starts again.
  worker : String → Thread
  looking_up : String → ℕ → Thread
  starting : File → ℕ → Thread
  converting : File → ℕ → Thread
  recording : File → ℕ → Thread
  ending_conversion : String → ℕ → Thread
  dropping : String → Thread
  finished : Thread

-- After a deletion the handler replies, and the janitor turns to its next row.
pub after_deletion : Origin → Thread
after_deletion handler = finished
after_deletion (janitor rows) = sweeping rows

-- A row that the janitor already found marked needs no mark.
pub skips_mark : Origin → File → Bool
skips_mark handler row = false
skips_mark (janitor rows) row = is_some row.deleted_at

abbrev set_locks : World → Locks → World
set_locks w locks = record w { locks = locks }

unfoldable pub step_cleanup :
    Option Bytes → Origin → File → ℕ → Phase → World → Option (Thread × World)
unfolding skips_mark after_deletion
step_cleanup outcome origin row channel marking w =
    let goes_on = cleanup origin row channel checking_conversion in
    let stops = cleanup origin row channel ending in
    if skips_mark origin row
    then some (goes_on, w)
    else if not (is_some outcome)
    then some (stops, w)
    else (let (marked, table) = Store.mark_deleted w.now row.id row.tenant_id w.table in
        some (if marked then goes_on else stops, record w { table = table }))
step_cleanup outcome origin row channel checking_conversion w =
    elim (conversion_to_await row.id w.locks) [
      | none ↦ some (cleanup origin row channel checking_lease, w)
      | some (address, locks) ↦
          some (cleanup origin row channel (awaiting_conversion address), set_locks w locks)
    ]
step_cleanup outcome origin row channel (awaiting_conversion address) w =
    if (w.locks.conversion_at address).done
    then some (cleanup origin row channel checking_lease, w)
    else none
step_cleanup outcome origin row channel checking_lease w = elim (lease_to_await row.id w.locks) [
  | none ↦ some (cleanup origin row channel removing, w)
  | some address ↦ some (cleanup origin row channel (awaiting_lease address), w)
]
step_cleanup outcome origin row channel (awaiting_lease address) w =
    if (w.locks.lease_at address).closed
    then some (cleanup origin row channel removing, w)
    else none
step_cleanup outcome origin row channel removing w =
    if is_some outcome
    then some (
      cleanup origin row channel erasing,
      record w { disk = remove_all (parent row.source_path) w.disk },
    )
    else some (cleanup origin row channel ending, w)
step_cleanup outcome origin row channel erasing w =
    if is_some outcome
    then some (
      cleanup origin row channel ending,
      record w { table = (Store.delete row.id row.tenant_id w.table).1 },
    )
    else some (cleanup origin row channel ending, w)
step_cleanup outcome origin row channel ending w =
    some (after_deletion origin, set_locks w (end_deletion row.id channel w.locks))

-- What a step leads to: the thread and the world afterwards, or none if the thread waits.
abbrev pub Moved : Type 0
Moved = Option (Thread × World)

-- The lookup of a reader: `OpenSource`, and the last poll of `Resolve`.
abbrev pub look_up_file : Option Bytes → String → String → World → Moved
look_up_file outcome id tenant_id w =
    if not (is_some outcome)
    then some (finished, w)
    else elim (Store.get w.now id tenant_id w.table) [
      | none ↦ some (finished, w)
      | some row ↦ some (leasing row, w)
    ]

abbrev pub take_lease : File → World → Moved
take_lease row w = elim (acquire_lease row.id w.locks) [
  | none ↦ some (finished, w)
  | some (address, locks) ↦ some (reading row address, set_locks w locks)
]

-- The lookup of `Delete`.
abbrev pub look_up_deleted : Option Bytes → String → String → World → Moved
look_up_deleted outcome id tenant_id w =
    if not (is_some outcome)
    then some (finished, w)
    else elim (Store.get w.now id tenant_id w.table) [
      | none ↦ some (finished, w)
      | some row ↦ some (claiming handler row, w)
    ]

-- The lookup of `deleteExpired`. Without a row that is left to delete, the janitor waits.
abbrev pub look_up_expired : Option Bytes → World → Moved
look_up_expired outcome w =
    if is_some outcome
    then some (sweeping (Store.expired w.now w.table), w)
    else some (sweeping [], w)

-- The loop of `deleteExpired`, and the janitor's wait for its ticker or the end of its context.
abbrev pub next_expired : Option Bytes → List File → World → Moved
next_expired outcome [] w = some (if is_some outcome then sweeper else finished, w)
next_expired outcome (row ∷ rows) w = some (claiming (janitor rows) row, w)

abbrev pub claim_deletion : Origin → File → World → Moved
claim_deletion origin row w = elim (begin_deletion row.id w.locks) [
  | none ↦ some (after_deletion origin, w)
  | some (channel, locks) ↦ some (cleanup origin row channel marking, set_locks w locks)
]

-- `processJob` up to the handler of the job.
abbrev pub start_job : String → World → Moved
start_job id w =
    let (address, locks) = begin_conversion id w.locks in
    some (looking_up id address, set_locks w locks)

-- `convert`: the lookup, the first update, the converter, the last update.
abbrev pub look_up_job : Option Bytes → String → ℕ → World → Moved
look_up_job outcome id address w =
    let skips = some (ending_conversion id address, w) in
    if not (is_some outcome) then skips else elim (Store.get_internal id w.table) [
      | none ↦ skips
      | some row ↦ if is_some row.deleted_at then skips else some (starting row address, w)
    ]

abbrev pub start_conversion : Option Bytes → File → ℕ → World → Moved
start_conversion outcome row address w =
    let stops = ending_conversion row.id address in
    if not (is_some outcome)
    then some (stops, w)
    else (let (updated, table) = Store.update_status row.id "processing" [] "" w.table in
        some (if updated then converting row address else stops, record w { table = table }))

abbrev pub run_converter : Option Bytes → File → ℕ → World → Moved
run_converter outcome row address w = elim outcome [
  | none ↦ some (ending_conversion row.id address, w)
  | some content ↦ some (
    recording row address,
    record w { disk = write_file (parent row.source_path ++ "manifest.json" ∷ []) content w.disk },
  )
]

abbrev pub record_manifest : Option Bytes → File → ℕ → World → Moved
record_manifest outcome row address w =
    let manifest_path = parent row.source_path ++ "manifest.json" ∷ [] in
    if is_some outcome
    then some (
      ending_conversion row.id address,
      record w { table = (Store.update_status row.id "processed" manifest_path "" w.table).1 },
    )
    else some (ending_conversion row.id address, w)

-- What `handleErr` does with the job: it is done, it is started again, or its file fails.
abbrev pub after_job : Option Bytes → String → Thread
after_job none id = worker id
after_job (some []) id = finished
after_job (some (byte ∷ text)) id = dropping id

-- The deferred call of `processJob`.
abbrev pub finish_job : Option Bytes → String → ℕ → World → Moved
finish_job outcome id address w =
    some (after_job outcome id, set_locks w (end_conversion id address w.locks))

-- `markFailed`, which only logs a failure of its own.
abbrev pub fail_file : Option Bytes → String → World → Moved
fail_file outcome id w =
    if is_some outcome
    then some (finished, record w { table = (Store.update_status id "failed" [] "" w.table).1 })
    else some (finished, w)

unfoldable pub step : Option Bytes → Thread → World → Moved
unfolding step_cleanup
step outcome (reader id tenant_id) w = look_up_file outcome id tenant_id w
step outcome (leasing row) w = take_lease row w
step outcome (reading row address) w =
    some (finished, set_locks w (release_lease row.id address w.locks))
step outcome (deleter id tenant_id) w = look_up_deleted outcome id tenant_id w
step outcome sweeper w = look_up_expired outcome w
step outcome (sweeping rows) w = next_expired outcome rows w
step outcome (claiming origin row) w = claim_deletion origin row w
step outcome (cleanup origin row channel phase) w = step_cleanup outcome origin row channel phase w
step outcome (worker id) w = start_job id w
step outcome (looking_up id address) w = look_up_job outcome id address w
step outcome (starting row address) w = start_conversion outcome row address w
step outcome (converting row address) w = run_converter outcome row address w
step outcome (recording row address) w = record_manifest outcome row address w
step outcome (ending_conversion id address) w = finish_job outcome id address w
step outcome (dropping id) w = fail_file outcome id w
step outcome finished w = none

-- The schedule names the thread that moves next and how its call comes out. A thread that waits or
-- has ended does nothing, and where no thread is named a second passes.
unfoldable pub step_at : Option Bytes → ℕ → List Thread → World → List Thread × World
step_at outcome n [] w = ([], record w { now = w.now + 1 })
step_at outcome zero (t ∷ ts) w = elim (step outcome t w) [
  | none ↦ (t ∷ ts, w)
  | some (t', w') ↦ (t' ∷ ts, w')
]
step_at outcome (suc n) (t ∷ ts) w = let (ts', w') = step_at outcome n ts w in (t ∷ ts', w')

unfoldable pub run : List (Option Bytes × ℕ) → List Thread → World → List Thread × World
run [] ts w = (ts, w)
run ((outcome, n) ∷ schedule) ts w = let (ts', w') = step_at outcome n ts w in run schedule ts' w'
