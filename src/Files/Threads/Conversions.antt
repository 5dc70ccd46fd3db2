-- ===== src/Files/Threads/Conversions.antt =====
-- What a conversion and a deletion of internal/files/service.go know of each other: a worker's
-- conversion is registered while it runs, and a deletion that is past its check has outlived every
-- conversion of its file.
pub mod Facts
pub mod Moves
pub mod Waits
pub mod Phases
pub mod Jobs
pub mod Steps
pub mod Apart
use llm_file_gateway.Prelude.{
  ℕ, zero, suc, ◌+◌, ◌≤◌, ◌<◌, ◌≡◌, refl, ◌⊎◌, Bool, true, false, Option, none, some, List, [], ◌∷◌,
  arith, All, is_some, if◌then◌else◌,
}
use llm_file_gateway.Prelude.Text.{String, ◌=ˢ◌}
use llm_file_gateway.Store.{File, Table}
use llm_file_gateway.Store.Rows.{IsKeyed}
use llm_file_gateway.Store.Gone.{IsGone}
use llm_file_gateway.Files.Locks.{Locks}
use llm_file_gateway.Files.Threads.{
  World, Thread, Phase, Origin, reader, leasing, reading, deleter, sweeper, sweeping, claiming,
  cleanup, worker, looking_up, starting, converting, recording, ending_conversion, finished,
  marking, handler, janitor, checking_conversion, checking_lease, removing, erasing, ending,
  awaiting_conversion, awaiting_lease, skips_mark,
}
use llm_file_gateway.Files.Threads.Counting.{sum_over}

-- 1 for a thread that works on the conversion of a file, from its start on.
abbrev pub works : String → Thread → ℕ
works id (worker other) = if other =ˢ id then 1 else 0
works id (looking_up other address) = if other =ˢ id then 1 else 0
works id (starting row address) = if row.id =ˢ id then 1 else 0
works id (converting row address) = if row.id =ˢ id then 1 else 0
works id (recording row address) = if row.id =ˢ id then 1 else 0
works id (ending_conversion other address) = if other =ˢ id then 1 else 0
works id _ = 0

-- The conversion of a file is registered and running.
abbrev pub IsRegistered : Locks → String → ℕ → Type 0
IsRegistered locks id address =
    (locks.conversions id ≡ some address)
    × ((locks.conversion_at address).active ≡ true)
    × ((locks.conversion_at address).done ≡ false)

-- After its mark, a cleanup knows that its file is gone.
abbrev pub KnowsGone : Table → String → Phase → Type 0
KnowsGone table id marking = Unit
KnowsGone table id ending = Unit
KnowsGone table id _ = IsGone id table

-- A marked row of the janitor's list belongs to a file that is gone.
abbrev pub IsStale : Table → File → Type 0
IsStale table row = is_some row.deleted_at ≡ true → IsGone row.id table

abbrev pub AreStale : Table → Origin → Type 0
AreStale table handler = Unit
AreStale table (janitor rows) = All (IsStale table) rows

abbrev pub SkipsRightly : Table → Origin → File → Type 0
SkipsRightly table handler row = Unit
SkipsRightly table (janitor rows) row = IsStale table row

abbrev pub Fact : World → Thread → Type 0
Fact w (looking_up id address) = IsRegistered w.locks id address
Fact w (starting row address) = IsRegistered w.locks row.id address
Fact w (converting row address) = IsRegistered w.locks row.id address
Fact w (recording row address) = IsRegistered w.locks row.id address
Fact w (ending_conversion id address) = IsRegistered w.locks id address
Fact w (sweeping rows) = All (IsStale w.table) rows
Fact w (claiming origin row) = AreStale w.table origin × SkipsRightly w.table origin row
Fact w (cleanup origin row channel phase) =
    AreStale w.table origin × SkipsRightly w.table origin row × KnowsGone w.table row.id phase
Fact w _ = Unit

-- Past the check no conversion of the file runs, and while a cleanup waits for one, only that one.
abbrev pub ClearFor : Phase → String → File → ℕ → Type 0
ClearFor marking id row address = Unit
ClearFor checking_conversion id row address = Unit
ClearFor ending id row address = Unit
ClearFor (awaiting_conversion awaited) id row address = (row.id =ˢ id) ≡ true → address ≡ awaited
ClearFor _ id row address = (row.id =ˢ id) ≡ false

abbrev pub Clear : Phase → String → Thread → Type 0
Clear phase id (converting row address) = ClearFor phase id row address
Clear phase id (recording row address) = ClearFor phase id row address
Clear phase id _ = Unit

abbrev pub Respects : Thread → Thread → Type 0
Respects (cleanup origin row channel phase) u = Clear phase row.id u
Respects _ u = Unit

-- The state that belongs to a thread and the threads beside it, with at most one worker for a file.
pub record Guarded (w : World) (t : Thread) (others : List Thread) : Type 0 where
  pub keyed : IsKeyed w.table
  pub bound :
      (id : String) (address : ℕ) → w.locks.conversions id ≡ some address → address < w.locks.next
  pub separate :
      (id other : String) (address : ℕ)
      → w.locks.conversions id ≡ some address
      → w.locks.conversions other ≡ some address
      → id ≡ other
  pub alone : (id : String) → works id t + sum_over (works id) others ≤ 1
  pub fact : Fact w t
  pub facts : All (Fact w) others
  pub respects : All (Respects t) others
  pub respected : All (λ u. Respects u t) others
