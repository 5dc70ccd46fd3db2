-- ===== src/Files/Upload.antt =====
-- `Create` of internal/files/service.go: an upload becomes a source file below the data directory and
-- a row of the table. Which calls succeed, the random id and the converter that the dispatcher finds
-- are given; so are strings.ToLower, the digest in hexadecimal, and the size as FileTooLarge of
-- internal/apierror/errors.go displays it. The conversion is queued after a success.
pub mod Accepted
pub mod Rejected
pub mod Tests
use llm_file_gateway.Prelude.{
  ℕ, ◌+◌, ◌/◌, Bool, true, false, not, ◌&&◌, Option, none, some, List, [], ◌∷◌, ◌++◌, ◌⊎◌, inl, inr,
  length, take, ltb, if◌then◌else◌,
}
use llm_file_gateway.Prelude.Int.{ℤ, pos, negsuc}
use llm_file_gateway.Prelude.Text.{String, ◌=ˢ◌, ◌+ˢ◌, base, ext}
use llm_file_gateway.ApiError.{Error, Fault, gateway, failed, new}
use llm_file_gateway.Store
use llm_file_gateway.Store.{File, FilePath, Table}
use llm_file_gateway.Files.Disk.{Disk, Bytes, remove_all, write_file}

-- What the gateway reads of a converter.
pub record DocumentConverter : Type 0 where
  pub extension : String
  pub media_type : String

-- How the calls of one upload come out.
pub record Calls : Type 0 where
  pub converter : Option DocumentConverter
  pub new_id : Option String
  pub mkdir_ok : Bool
  pub open_ok : Bool
  pub copy_ok : Bool
  pub close_ok : Bool
  -- The error of `Validate`.
  pub invalid : Option String
  pub add_ok : Bool
  -- Whether an incomplete directory can be removed.
  pub cleanup_ok : Bool
  pub now : ℕ

pub record Storage : Type 0 where
  pub table : Table
  pub disk : Disk

pub record Upload : Type 0 where
  pub filename : String
  pub content : Bytes
  pub purpose : String
  pub tenant_id : String
  -- In nanoseconds.
  pub ttl : ℤ

abbrev pub file_dir : String → String → FilePath
file_dir tenant_id id = "files" ∷ tenant_id ∷ id ∷ []

-- A time to live that is not positive means that the file never expires.
abbrev pub expiry : ℕ → ℤ → ℕ
expiry now (pos n) = if ltb 0 n then now + n / 1000000000 else 0
expiry now (negsuc n) = 0

-- The result of INSERT; `none` is a statement that the database refused.
abbrev pub insert_row : Option Table → File → Storage → Storage × (Fault ⊎ File)
insert_row none row storage = (storage, inl (failed "insert file"))
insert_row (some table) row storage = (record storage { table = table }, inr row)

-- After the validation, by its error if there is one.
abbrev pub insert_valid :
    Option String → DocumentConverter → Bool → File → Storage → Storage × (Fault ⊎ File)
insert_valid (some text) converter add_ok row storage = (
  storage,
  inl (
      gateway (
        new 400 "unsupported_file_type"
          (if converter.extension =ˢ "" then "unsupported file type" else text) "file")),
)
insert_valid none converter add_ok row storage =
    insert_row (if add_ok then Store.add row storage.table else none) row storage

-- The deferred cleanup: the directory goes unless the row was inserted.
abbrev pub clean_up : Bool → FilePath → Storage × (Fault ⊎ File) → Storage × (Fault ⊎ File)
clean_up cleanup_ok dir (storage, inr row) = (storage, inr row)
clean_up cleanup_ok dir (storage, inl fault) = (
  if cleanup_ok then record storage { disk = remove_all dir storage.disk } else storage,
  inl fault,
)

module _ (to_lower : String → String) (digest : Bytes → String) (display : ℕ → String)
    (max_file_bytes : ℕ) where
  abbrev pub file_too_large : ℕ → String → Error
  file_too_large max_bytes param =
      new 400 "file_too_large" ("File exceeds the configured limit of " +ˢ display max_bytes +ˢ ".")
        param

  abbrev pub source_path : Upload → String → FilePath
  source_path upload id =
      file_dir upload.tenant_id id ++ ("source" +ˢ to_lower (ext (base upload.filename))) ∷ []

  -- What is read of the upload: one byte more than the limit shows that it is too large.
  abbrev pub written : Bytes → Bytes
  written content = if ltb 0 max_file_bytes then take (max_file_bytes + 1) content else content

  abbrev pub row_of : Calls → DocumentConverter → Upload → String → File
  row_of calls converter upload id = record {
    id = id;
    tenant_id = upload.tenant_id;
    filename = base upload.filename;
    media_type = converter.media_type;
    purpose = upload.purpose;
    bytes = length (written upload.content);
    sha256 = digest (written upload.content);
    status = "uploaded";
    source_path = source_path upload id;
    manifest_path = none;
    error_message = none;
    created_at = calls.now;
    expires_at = expiry calls.now upload.ttl;
    deleted_at = none;
  }

  -- After the source file is written.
  unfoldable pub check_source :
      Calls → DocumentConverter → Upload → String → Storage → Storage × (Fault ⊎ File)
  check_source calls converter upload id storage =
      if not (calls.copy_ok && calls.close_ok)
      then (storage, inl (failed "copy"))
      else if ltb 0 max_file_bytes && ltb max_file_bytes (length (written upload.content))
      then (storage, inl (gateway (file_too_large max_file_bytes "file")))
      else insert_valid calls.invalid converter calls.add_ok (row_of calls converter upload id)
          storage

  unfoldable pub create : Calls → Upload → Storage → Storage × (Fault ⊎ File)
  unfolding check_source
  create calls upload storage = elim calls.converter [
    | none ↦
        (storage, inl (gateway (new 400 "unsupported_file_type" "Unsupported file type." "file")))
    | some converter ↦ elim calls.new_id [
      | none ↦ (storage, inl (failed "generate file ID"))
      | some id ↦
          if not calls.mkdir_ok
          then (storage, inl (failed "mkdir"))
          else clean_up calls.cleanup_ok (file_dir upload.tenant_id id) (
              if not calls.open_ok
              then (storage, inl (failed "open"))
              else check_source calls converter upload id (record storage {
                disk = write_file (source_path upload id) (written upload.content) storage.disk;
              }))
    ]
  ]
