-- ===== src/Files/Upload/Tests.antt =====
-- Runs of `Create` of internal/files/service.go.
use llm_file_gateway.Prelude.{◌≡◌, refl, subst, inl, inr, true, Option, none, some, [], ◌∷◌}
use llm_file_gateway.Prelude.Int.{pos}
use llm_file_gateway.Prelude.Text.{String, decimal}
use llm_file_gateway.ApiError.{gateway}
use llm_file_gateway.Store
use llm_file_gateway.Store.{File}
use llm_file_gateway.Store.Tests.{uploads}
use llm_file_gateway.Files.Disk.{Bytes}
use llm_file_gateway.Files.Upload.{
  Calls, Upload, Storage, create, check_source, file_too_large, file_dir,
}
use llm_file_gateway.Files.Upload.Rejected.{IsUnused, rejected_upload_leaves_nothing}
use llm_file_gateway.Files.Upload.Accepted.{IsStored, accepted_upload_complete}

abbrev pub same : String → String
same s = s

abbrev pub digest : Bytes → String
digest content = "00"

abbrev pub calls : Calls
calls = record {
  converter = some (record { extension = ".txt"; media_type = "text/plain" });
  new_id = some "file_d";
  mkdir_ok = true;
  open_ok = true;
  copy_ok = true;
  close_ok = true;
  invalid = none;
  add_ok = true;
  cleanup_ok = true;
  now = 200;
}

abbrev upload_of : Bytes → Upload
upload_of content = record {
  filename = "a/hello.txt";
  content = content;
  purpose = "user_data";
  tenant_id = "shared";
  ttl = pos 300000000000;
}

abbrev pub short : Bytes
short = 104 ∷ 105 ∷ []

abbrev pub long : Bytes
long = 104 ∷ 105 ∷ 33 ∷ 33 ∷ []

abbrev pub storage : Storage
storage = record {
  table = uploads;
  disk = ("files" ∷ "shared" ∷ "file_a" ∷ "source.txt" ∷ [], 104 ∷ []) ∷ [];
}

abbrev hello : File
hello = record {
  id = "file_d";
  tenant_id = "shared";
  filename = "hello.txt";
  media_type = "text/plain";
  purpose = "user_data";
  bytes = 2;
  sha256 = "00";
  status = "uploaded";
  source_path = "files" ∷ "shared" ∷ "file_d" ∷ "source.txt" ∷ [];
  manifest_path = none;
  error_message = none;
  created_at = 200;
  expires_at = 500;
  deleted_at = none;
}

accepted : (create same digest decimal 3 calls (upload_of short) storage).1 ≡ inr hello
unfolding create check_source Store.add
accepted = refl

too_large :
    (create same digest decimal 3 calls (upload_of long) storage).1
    ≡ inl (gateway (file_too_large same digest decimal 3 3 "file"))
unfolding create check_source
too_large = refl

accepted_upload_complete_example :
    IsStored 3
      (upload_of short)
      storage
      (create same digest decimal 3 calls (upload_of short) storage).0
      hello
accepted_upload_complete_example =
    accepted_upload_complete same digest decimal 3 calls (upload_of short) storage hello accepted

abbrev UnusedBy : Option String → Type 0
UnusedBy none = Unit
UnusedBy (some id) = IsUnused (file_dir "shared" id) storage.disk

unused : (id : String) → some "file_d" ≡ some id → IsUnused (file_dir "shared" id) storage.disk
unused id e = subst UnusedBy e (refl, tt)

rejected_upload_leaves_nothing_example :
    (create same digest decimal 3 calls (upload_of long) storage).0 ≡ storage
rejected_upload_leaves_nothing_example =
    rejected_upload_leaves_nothing same digest decimal 3 calls (upload_of long) storage
      (gateway (file_too_large same digest decimal 3 3 "file")) refl unused too_large
