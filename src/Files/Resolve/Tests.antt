-- ===== src/Files/Resolve/Tests.antt =====
-- Runs of `Resolve` and `OpenSource` of internal/files/service.go on the table of three uploads.
use llm_file_gateway.Prelude.{ℕ, ◌≡◌, refl, inr, Option, none, some, List, [], ◌∷◌, length}
use llm_file_gateway.ApiError.{gateway, new}
use llm_file_gateway.Store.{File, Table, get, live}
use llm_file_gateway.Store.Tests.{uploads, second_upload}
use llm_file_gateway.Files.Disk.{Disk, Bytes}
use llm_file_gateway.Files.Locks.{no_locks, acquire_lease}
use llm_file_gateway.Files.Resolve.{
  Poll, timer, await_conversion, read_manifest, resolve_poll_initial,
}
use llm_file_gateway.Files.Resolve.Leasing.{IsOpen, IsSameLocks, failed_read_releases}

abbrev poll_of : Table → Poll
poll_of table = record { failure = none; now = 200; table = table; wake = timer 7 }

abbrev processed_upload : File
processed_upload = record second_upload {
  status = "processed";
  manifest_path = some ("files" ∷ "shared" ∷ "file_b" ∷ "manifest.json" ∷ []);
}

abbrev processed : Table
processed = processed_upload ∷ []

abbrev polls : List Poll
polls = poll_of uploads ∷ poll_of uploads ∷ poll_of processed ∷ []

waits_twice :
    await_conversion "file_b" "shared" "input" resolve_poll_initial polls
    ≡ (100000007 ∷ 200000007 ∷ [], some (inr processed_upload))
unfolding await_conversion get live
waits_twice = refl

unlocked-IsOpen : IsOpen no_locks "file_b"
unlocked-IsOpen address h = absurd (cc h)

abbrev decode_any : Bytes → Option ℕ
decode_any content = some (length content)

abbrev disk : Disk
disk = (second_upload.source_path, 104 ∷ 105 ∷ []) ∷ []

failed_read_releases_example :
    IsSameLocks no_locks (read_manifest decode_any "input" processed_upload no_locks disk).0
unfolding read_manifest acquire_lease
failed_read_releases_example =
    failed_read_releases decode_any "input" processed_upload no_locks disk unlocked-IsOpen
      (gateway (new 422 "file_processing_failed" "File manifest is missing." "input")) refl
