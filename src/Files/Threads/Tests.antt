-- ===== src/Files/Threads/Tests.antt =====
-- Runs of the threads of internal/files/service.go over the table of three uploads.
use llm_file_gateway.Prelude.{
  ℕ, ◌≤◌, arith, ◌≡◌, ◌≢◌, refl, sym, subst, All, inl, inr, some, none, Option, List, [], ◌∷◌, ◌++◌,
  map,
}
use llm_file_gateway.Prelude.Text.{String}
use llm_file_gateway.Files.Threads.Counting.{sum_over}
use llm_file_gateway.Files.Threads.Conversions.{works}
use llm_file_gateway.Files.Threads.Conversions.Apart.{removal_excludes_conversions}
use llm_file_gateway.Store.{File}
use llm_file_gateway.Store.Tests.{uploads, uploads-IsKeyed, first_upload, second_upload}
use llm_file_gateway.Files.Disk.{Bytes}
use llm_file_gateway.Store
use llm_file_gateway.Files.Locks.{
  no_locks, begin_conversion, end_conversion, acquire_lease, release_lease, begin_deletion,
  conversion_to_await, lease_to_await,
}
use llm_file_gateway.Files.Threads.{
  World, Thread, reader, reading, deleter, sweeper, cleanup, finished, handler, removing,
  awaiting_lease, worker, converting, run, step, step_at,
}
use llm_file_gateway.Files.Threads.Exclusion.Safety.{
  removal_excludes_readers, cleanup_is_exclusive, lease_wait_has_reader, nothing_left_locked, Among,
}

abbrev started : World
started = record {
  locks = no_locks;
  table = uploads;
  disk = ("files" ∷ "shared" ∷ "file_b" ∷ "source.txt" ∷ [], 104 ∷ 105 ∷ []) ∷ [];
  now = 200;
}

abbrev moves : List ℕ → List (Option Bytes × ℕ)
moves = map λ n. (some [], n)

abbrev two_deleters_and_reader : List Thread
two_deleters_and_reader =
    deleter "file_b" "shared" ∷ reader "file_a" "shared" ∷ deleter "file_a" "shared" ∷ []

-- The first deletion comes to the removal while the reader reads another file.
abbrev to_removal : List (Option Bytes × ℕ)
to_removal = moves (1 ∷ 1 ∷ 0 ∷ 0 ∷ 0 ∷ 0 ∷ 0 ∷ 2 ∷ 2 ∷ 2 ∷ 2 ∷ 2 ∷ [])

-- Then the reader gives its lease back and both deletions end.
abbrev to_end : List (Option Bytes × ℕ)
to_end = to_removal ++ moves (0 ∷ 1 ∷ 2 ∷ 2 ∷ 0 ∷ 2 ∷ 0 ∷ 2 ∷ [])

all_end : (run to_end two_deleters_and_reader started).0 ≡ finished ∷ finished ∷ finished ∷ []
unfolding run step_at step Store.get acquire_lease begin_deletion Store.mark_deleted
    conversion_to_await lease_to_await release_lease
all_end = refl

end_rows : map (λ row. row.id) (run to_end two_deleters_and_reader started).1.table ≡ "file_c" ∷ []
unfolding run step_at step Store.get acquire_lease begin_deletion Store.mark_deleted
    conversion_to_await lease_to_await release_lease Store.delete
end_rows = refl

at_removal :
    (run to_removal two_deleters_and_reader started).0
    ≡ cleanup handler second_upload 1 removing
      ∷ reading first_upload 0
      ∷ cleanup handler first_upload 2 (awaiting_lease 0)
      ∷ []
unfolding run step_at step Store.get acquire_lease begin_deletion Store.mark_deleted
    conversion_to_await lease_to_await
at_removal = refl

still_waits :
    step
      (some [])
      (cleanup handler first_upload 2 (awaiting_lease 0))
      (run to_removal two_deleters_and_reader started).1
    ≡ none
unfolding run step_at step Store.get acquire_lease begin_deletion Store.mark_deleted
    conversion_to_await lease_to_await
still_waits = refl

removal_excludes_readers_example : second_upload.id ≢ first_upload.id
removal_excludes_readers_example =
    removal_excludes_readers to_removal two_deleters_and_reader started (tt, (tt, (tt, tt))) refl
      handler second_upload first_upload 1 0 (subst (Among _) (sym at_removal) (inl refl))
      (subst (Among _) (sym at_removal) (inr (inl refl)))

cleanup_is_exclusive_example : second_upload.id ≢ first_upload.id
cleanup_is_exclusive_example =
    cleanup_is_exclusive to_removal two_deleters_and_reader started (tt, (tt, (tt, tt))) refl []
      (reading first_upload 0 ∷ []) [] handler handler second_upload first_upload 1 2 removing
      (awaiting_lease 0) at_removal

lease_wait_has_reader_example :
    (other : File) × Among (reading other 0) (run to_removal two_deleters_and_reader started).0
    × (other.id ≡ "file_a")
lease_wait_has_reader_example =
    lease_wait_has_reader to_removal two_deleters_and_reader started (tt, (tt, (tt, tt))) refl
      (some []) handler first_upload 2 0 (subst (Among _) (sym at_removal) (inr (inr (inl refl))))
      still_waits

-- A file expires while a request reads it. The janitor removes it, after its wait for that request,
-- and ends with its context.
abbrev reader_and_janitor : List Thread
reader_and_janitor = reader "file_b" "shared" ∷ sweeper ∷ []

abbrev almost_expired : World
almost_expired = record started { table = second_upload ∷ []; now = 399 }

abbrev janitor_to_end : List (Option Bytes × ℕ)
janitor_to_end =
    moves (0 ∷ 0 ∷ 2 ∷ 1 ∷ 1 ∷ 1 ∷ 1 ∷ 1 ∷ 1 ∷ 0 ∷ 1 ∷ 1 ∷ 1 ∷ 1 ∷ []) ++ (none, 1) ∷ []

janitor_ends : (run janitor_to_end reader_and_janitor almost_expired).0 ≡ finished ∷ finished ∷ []
unfolding run step_at step Store.get Store.expired acquire_lease begin_deletion Store.mark_deleted
    conversion_to_await lease_to_await release_lease
janitor_ends = refl

janitor_removes : (run janitor_to_end reader_and_janitor almost_expired).1.table ≡ []
unfolding run step_at step Store.get Store.expired acquire_lease begin_deletion Store.mark_deleted
    conversion_to_await lease_to_await release_lease Store.delete
janitor_removes = refl

-- The last attempt at a conversion fails for good.
abbrev dropping_worker : List (Option Bytes × ℕ)
dropping_worker = (some [], 0) ∷ (none, 0) ∷ (some (111 ∷ []), 0) ∷ (some [], 0) ∷ []

dropped_fails :
    map (λ row. row.status) (run dropping_worker (worker "file_b" ∷ []) almost_expired).1.table
    ≡ "failed" ∷ []
unfolding run step_at step begin_conversion end_conversion Store.update_status
dropped_fails = refl

nothing_left_locked_example :
    ((run janitor_to_end reader_and_janitor almost_expired).1.locks.leases "file_b" ≡ none)
    × ((run janitor_to_end reader_and_janitor almost_expired).1.locks.deleting "file_b" ≡ none)
nothing_left_locked_example =
    nothing_left_locked janitor_to_end reader_and_janitor almost_expired (tt, (tt, tt)) refl
      (subst (All (λ t. t ≡ finished)) (sym janitor_ends) (refl, (refl, tt))) "file_b"

-- A deletion comes to the removal of its directory while the converter runs on another file.
abbrev deleter_and_worker : List Thread
deleter_and_worker = deleter "file_b" "shared" ∷ worker "file_a" ∷ []

abbrev to_conversion : List (Option Bytes × ℕ)
to_conversion = moves (1 ∷ 0 ∷ 1 ∷ 0 ∷ 0 ∷ 1 ∷ 0 ∷ 0 ∷ [])

at_conversion :
    (run to_conversion deleter_and_worker started).0
    ≡ cleanup handler second_upload 1 removing ∷ converting first_upload 0 ∷ []
unfolding run step_at step Store.get Store.get_internal begin_conversion begin_deletion
    Store.mark_deleted Store.update_status conversion_to_await lease_to_await
at_conversion = refl

one_worker : (id : String) → sum_over (works id) deleter_and_worker ≤ 1
one_worker id = ground arith

removal_excludes_conversions_example : some first_upload.id ≢ some second_upload.id
removal_excludes_conversions_example =
    removal_excludes_conversions to_conversion deleter_and_worker started (tt, (tt, tt)) refl
      uploads-IsKeyed one_worker handler second_upload 1 removing (converting first_upload 0) refl
      (subst (Among _) (sym at_conversion) (inl refl))
      (subst (Among _) (sym at_conversion) (inr (inl refl)))
