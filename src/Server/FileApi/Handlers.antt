-- ===== src/Server/FileApi/Handlers.antt =====
-- The handlers of the Files API as a whole (internal/server/server.go): `createFile`, `listFiles`, `retrieveFile`
-- with `ownedFile`, `retrieveContent` and `deleteFile`, from the header Authorization to the reply. What package
-- net/http finds in a request, json.Unmarshal of `expires_after`, and the outcomes of the calls of the database are
-- given; `files.Delete` is given by its result.
pub mod Isolated
pub mod Told
pub mod Created
pub mod Tests
use llm_file_gateway.Prelude.{
  ℕ, Bool, true, false, not, ◌&&◌, ◌||◌, Option, none, some, ◌⊎◌, inl, inr, if◌then◌else◌,
}
use llm_file_gateway.Prelude.Int.{ℤ, pos, negsuc, pos_part, ltb_ℤ}
use llm_file_gateway.Prelude.Text.{String, ◌=ˢ◌, ◌+ˢ◌, decimal}
use llm_file_gateway.ApiError.{Error, Fault, Ended, new, write_any_error}
use llm_file_gateway.Store
use llm_file_gateway.Store.{File, Table}
use llm_file_gateway.Files.Disk.{Disk, Bytes}
use llm_file_gateway.Files.Locks.{Locks, release_lease}
use llm_file_gateway.Files.Resolve.{Poll, open_source}
use llm_file_gateway.Files.Upload
use llm_file_gateway.Files.Upload.{Calls, Storage, file_too_large}
use llm_file_gateway.Server.FileApi.{
  tenant_id, upload_body_limit, valid_file_purpose, whole_seconds, expires_after, Page, list_files,
  OpenAiFile, open_ai_file,
}

-- What a handler writes; `silent` is nothing at all, to a client that is gone.
pub data Reply : Type 0 where
  silent : Reply
  refused : Error → Reply
  listed : Page → Reply
  shown : OpenAiFile → Reply
  -- The media type, the file name and the content, for http.ServeContent.
  content : String → String → Bytes → Reply
  deleted : String → Reply

-- The settings that the handlers read, and the digest of a token.
pub record Settings : Type 0 where
  pub digest : String → String
  pub auth_required : Bool
  pub api_key : String
  pub max_file_bytes : ℕ
  pub file_ttl : ℤ

-- `writeAnyError`
abbrev pub failure : Ended → Fault → Reply
failure ended fault = elim (write_any_error ended fault) [
  | none ↦ silent
  | some error ↦ refused error
]

abbrev pub not_found : Reply
not_found = refused (new 404 "file_not_found" "File not found." "file_id")

abbrev pub tenant_of : Settings → String → Error ⊎ String
tenant_of settings authorization =
    tenant_id settings.digest settings.auth_required settings.api_key authorization

-- A query of the database at some time: its error, if it fails, and how the context has ended by then.
pub record Access : Type 0 where
  pub error : Option Fault
  pub ended : Ended
  pub now : ℕ

-- The reply to a result of the database.
abbrev pub answer : {A : Type 0} → Access → (A → Reply) → A → Reply
answer access reply a = elim access.error [
  | some fault ↦ failure access.ended fault
  | none ↦ reply a
]

-- The parameters of a listing, as the query of the URL has them.
pub record Query : Type 0 where
  pub limit : Option (Option ℤ)
  pub order : String
  pub purpose : String
  pub after : String

unfoldable pub handle_list : Settings → String → Query → Access → Table → Reply
handle_list settings authorization query access table = elim (tenant_of settings authorization) [
  | inl error ↦ refused error
  | inr tenant ↦
      elim (list_files access.now tenant query.limit query.order query.purpose query.after table) [
        | inl error ↦ refused error
        | inr page ↦ answer access listed page
      ]
]

abbrev show_row : Option File → Reply
show_row none = not_found
show_row (some row) = shown (open_ai_file row)

-- `retrieveFile`, which shows what `ownedFile` finds.
unfoldable pub handle_retrieve : Settings → String → String → Access → Table → Reply
handle_retrieve settings authorization id access table = elim (tenant_of settings authorization) [
  | inl error ↦ refused error
  | inr tenant ↦ answer access show_row (Store.get access.now id tenant table)
]

-- The reply, and the lease that is given back when all is sent.
abbrev sent : Ended → Locks × (Fault ⊎ (File × Bytes × ℕ)) → Locks × Reply
sent ended (locks, inl fault) = (locks, failure ended fault)
sent ended (locks, inr (row, bytes, address)) =
    (release_lease row.id address locks, content row.media_type row.filename bytes)

unfoldable pub handle_content :
    Settings → String → String → Ended → Poll → Locks → Disk → Locks × Reply
handle_content settings authorization id ended poll locks disk =
    elim (tenant_of settings authorization) [
      | inl error ↦ (locks, refused error)
      | inr tenant ↦ sent ended (open_source tenant poll locks disk id)
    ]

-- What `files.Delete` returns for a tenant, if there is one.
unfoldable pub handle_delete : Settings → String → String → Ended → (String → Fault ⊎ Bool) → Reply
handle_delete settings authorization id ended delete = elim (tenant_of settings authorization) [
  | inl error ↦ refused error
  | inr tenant ↦ elim (delete tenant) [
    | inl fault ↦ failure ended fault
    | inr done ↦ if not done then not_found else deleted id
  ]
]

-- What request.FormFile finds.
pub data FormFile : Type 0 where
  body_too_large : FormFile
  no_file : FormFile
  file : String → Bytes → FormFile

-- A multipart form: its file depends on the limit on the body, if there is one. `expires_json` is what
-- json.Unmarshal reads of `expires_after`, and `expires_seconds` what strconv.ParseInt returns, which is 0 for a
-- text that is no number, and the nearest number of 64 bits for one that is out of range.
pub record Form : Type 0 where
  pub form_file : Option ℤ → FormFile
  pub purpose : String
  pub expires_after : String
  pub expires_json : Option (String × ℤ)
  pub expires_anchor : String
  pub expires_seconds_text : String
  pub expires_seconds : ℤ

abbrev or_zero : Option (String × ℤ) → String × ℤ
or_zero none = ("", pos 0)
or_zero (some asked) = asked

-- The expiry that the form asks for, if it asks for one.
unfoldable pub asked_expiry : Form → Option (String × ℤ)
asked_expiry form =
    if not (form.expires_after =ˢ "")
    then some (or_zero form.expires_json)
    else if not (form.expires_anchor =ˢ "") || not (form.expires_seconds_text =ˢ "")
    then some (form.expires_anchor, form.expires_seconds)
    else none

-- invalid_expires_after, for the time to live of the settings.
abbrev pub invalid_expiry : ℤ → Error
invalid_expiry file_ttl =
    let max_seconds = whole_seconds file_ttl in
    new 400 "invalid_expires_after"
      ("expires_after must use anchor=created_at and seconds between 1 and "
        +ˢ (if ltb_ℤ (pos 0) max_seconds
            then decimal (pos_part max_seconds) +ˢ "."
            else "unlimited."))
      "expires_after"

-- The limit on the body that http.MaxBytesReader gets.
abbrev body_limit : Settings → Option ℤ
body_limit settings =
    let limit = upload_body_limit settings.max_file_bytes in
    if ltb_ℤ (pos 0) limit then some limit else none

-- The parameters of `files.Create`.
pub record Service : Type 0 where
  pub to_lower : String → String
  pub digest : Bytes → String
  pub display : ℕ → String

abbrev created : Ended → Storage × (Fault ⊎ File) → Storage × Reply
created ended (storage, inl fault) = (storage, failure ended fault)
created ended (storage, inr row) = (storage, shown (open_ai_file row))

module _ (service : Service) (settings : Settings) where
  abbrev pub create_upload : Calls → Upload.Upload → Storage → Storage × (Fault ⊎ File)
  create_upload =
      Upload.create service.to_lower service.digest service.display settings.max_file_bytes

  -- After the form has a file: the checks of the other fields, and the upload.
  unfoldable pub create_from :
      Ended → Calls → Form → String → String → Bytes → Storage → Storage × Reply
  unfolding asked_expiry
  create_from ended calls form tenant filename bytes storage =
      if form.purpose =ˢ ""
      then (storage, refused (new 400 "invalid_request" "purpose is required." "purpose"))
      else if not (valid_file_purpose form.purpose)
      then (storage, refused (new 400 "invalid_request" "Invalid purpose." "purpose"))
      else elim (expires_after settings.file_ttl (asked_expiry form)) [
        | none ↦ (storage, refused (invalid_expiry settings.file_ttl))
        | some ttl ↦ created ended (
            create_upload calls
              (record {
                filename = filename;
                content = bytes;
                purpose = form.purpose;
                tenant_id = tenant;
                ttl = ttl;
              })
              storage)
      ]

  unfoldable pub handle_create : String → Ended → Calls → Form → Storage → Storage × Reply
  unfolding create_from
  handle_create authorization ended calls form storage = elim (tenant_of settings authorization) [
    | inl error ↦ (storage, refused error)
    | inr tenant ↦ elim (form.form_file (body_limit settings)) [
      | body_too_large ↦ (
        storage,
        refused (
            file_too_large service.to_lower service.digest service.display settings.max_file_bytes
              settings.max_file_bytes "file"),
      )
      | no_file ↦ (storage, refused (new 400 "invalid_request" "file is required." "file"))
      | file filename bytes ↦ create_from ended calls form tenant filename bytes storage
    ]
  ]
