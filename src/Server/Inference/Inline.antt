-- ===== src/Server/Inference/Inline.antt =====
-- Inline and downloaded documents of a request for inference (internal/server/document.go, the part of
-- `prepareDocument` after its content is known, with `createRequestDirectory`; internal/server/inference.go, the
-- removal of the temporary directories when `handleInference` returns). Which calls succeed, what a converter
-- writes and how it fails are given. A directory is there when it has files.
pub mod Removed
pub mod Tests
use llm_file_gateway.Prelude.{
  ℕ, Bool, true, false, not, ◌&&◌, Option, none, some, List, [], ◌∷◌, ◌++◌, ◌⊎◌, inl, inr, length,
  ltb, if◌then◌else◌,
}
use llm_file_gateway.Prelude.Text.{String, ◌+ˢ◌, base, ext}
use llm_file_gateway.ApiError.{Error, Fault, gateway, failed, Ended, new}
use llm_file_gateway.Store.{FilePath}
use llm_file_gateway.Files.Disk.{Disk, Bytes, remove_all, write_file}
use llm_file_gateway.Files.Upload.{file_too_large}
use llm_file_gateway.Server.Proxy.Forward.{context_fault}

pub data ConvertFailure : Type 0 where
  page_limit text_limit other : String → ConvertFailure

-- How the calls for one document come out, and how the context has ended in between.
pub record Calls : Type 0 where
  pub with_content : Ended
  -- The name that os.MkdirTemp gives.
  pub made : Option String
  pub chmod_ok : Bool
  -- The error of os.WriteFile leaves a part of the content, or no file.
  pub write_ok : Bool
  pub partly : Option Bytes
  pub resolve_error : Option Fault
  pub with_converter : Ended
  pub invalid : Option String
  pub with_validation : Ended
  -- What the converter leaves below the directory "derived", and the manifest beside it, which may be of a
  -- conversion that fails only then.
  pub outputs : List (FilePath × Bytes)
  pub manifest : Option Bytes
  pub with_result : Ended
  pub failure : Option ConvertFailure

-- A document whose content is known; `param` names the part of the request.
pub record Inline : Type 0 where
  pub filename : String
  pub content : Bytes
  pub param : String

-- The files, and the temporary directories of a request.
pub record Work : Type 0 where
  pub disk : Disk
  pub temporary : List FilePath

pub record Resolved : Type 0 where
  pub filename : String
  pub derived_dir : FilePath

abbrev pub request_dir : String → FilePath
request_dir name = "work" ∷ name ∷ []

-- `createRequestDirectory`
abbrev pub create_request_directory : Calls → Fault ⊎ FilePath
create_request_directory calls = elim calls.made [
  | none ↦ inl (failed "mkdir")
  | some name ↦ if calls.chmod_ok then inr (request_dir name) else inl (failed "chmod")
]

abbrev pub write_outputs : FilePath → List (FilePath × Bytes) → Disk → Disk
write_outputs dir [] disk = disk
write_outputs dir ((path, content) ∷ outputs) disk =
    write_outputs dir outputs (write_file (dir ++ path) content disk)

abbrev pub convert_error : String → ConvertFailure → Error
convert_error param (page_limit text) = new 400 "too_many_pages" text param
convert_error param (text_limit text) = new 400 "document_text_too_large" text param
convert_error param (other text) = new 400 "file_processing_failed" text param

abbrev unless_ended : Ended → Fault ⊎ Resolved → Fault ⊎ Resolved
unless_ended ended result = elim (context_fault ended) [ some fault ↦ inl fault | none ↦ result ]

-- The result of the conversion.
abbrev convert_result : Calls → Inline → FilePath → Fault ⊎ Resolved
convert_result calls inline dir = unless_ended calls.with_result (elim calls.failure [
  | some failure ↦ inl (gateway (convert_error inline.param failure))
  | none ↦ inr (record { filename = base inline.filename; derived_dir = dir ++ "derived" ∷ [] })
])

-- A fault ends the preparation.
abbrev pub stop_if : Option Fault → Work → Work × (Fault ⊎ Resolved) → Work × (Fault ⊎ Resolved)
stop_if none work rest = rest
stop_if (some fault) work rest = (work, inl fault)

abbrev pub invalid_fault : String → Option String → Option Fault
invalid_fault param none = none
invalid_fault param (some text) = some (gateway (new 400 "file_processing_failed" text param))

abbrev pub write_part : FilePath → Option Bytes → Disk → Disk
write_part path none disk = disk
write_part path (some part) disk = write_file path part disk

-- From the converter on: what its conversion leaves, if it comes to that, and the result.
abbrev pub convert_inline : Calls → Inline → FilePath → Work → Work × (Fault ⊎ Resolved)
convert_inline calls inline dir work = stop_if calls.resolve_error work (
    stop_if (context_fault calls.with_converter) work (
      stop_if (context_fault calls.with_validation) work (
        stop_if (invalid_fault inline.param calls.invalid) work (
          record work {
            disk =
                write_part (dir ++ "manifest.json" ∷ []) calls.manifest
                  (write_outputs (dir ++ "derived" ∷ []) calls.outputs work.disk);
          },
          convert_result calls inline dir,
        ))))

module _ (to_lower : String → String) (digest : Bytes → String) (display : ℕ → String)
    (max_file_bytes : ℕ) where
  -- After the directory is one of the request's own.
  abbrev pub in_directory : Calls → Inline → FilePath → Work → Work × (Fault ⊎ Resolved)
  in_directory calls inline dir work =
      let source : FilePath = dir ++ ("source" +ˢ to_lower (ext inline.filename)) ∷ [] in
      if not calls.write_ok
      then (record work { disk = write_part source calls.partly work.disk }, inl (failed "write"))
      else convert_inline calls inline dir
          (record work { disk = write_file source inline.content work.disk })

  abbrev pub enter : Calls → Inline → Work → Fault ⊎ FilePath → Work × (Fault ⊎ Resolved)
  enter calls inline work (inl fault) = (work, inl fault)
  enter calls inline work (inr dir) =
      in_directory calls inline dir (record work { temporary = work.temporary ++ dir ∷ [] })

  abbrev pub oversized : Inline → Option Fault
  oversized inline =
      if ltb 0 max_file_bytes && ltb max_file_bytes (length inline.content)
      then some (
          gateway
            (file_too_large to_lower digest display max_file_bytes max_file_bytes inline.param))
      else none

  unfoldable pub prepare_inline : Calls → Inline → Work → Work × (Fault ⊎ Resolved)
  prepare_inline calls inline work =
      stop_if (context_fault calls.with_content) work
        (stop_if (oversized inline) work (enter calls inline work (create_request_directory calls)))

  -- The documents of a request one after the other, up to the first that fails.
  abbrev pub go_on : Work × (Fault ⊎ Resolved) → (Work → Work) → Work
  go_on (work, inl fault) next = work
  go_on (work, inr resolved) next = next work

  unfoldable pub prepare_all : List (Calls × Inline) → Work → Work
  unfolding prepare_inline
  prepare_all [] work = work
  prepare_all ((calls, inline) ∷ documents) work =
      go_on (prepare_inline calls inline work) λ w. prepare_all documents w

-- What `handleInference` defers: the temporary directories are removed, if they can be.
unfoldable pub remove_temporaries : (FilePath → Bool) → List FilePath → Disk → Disk
remove_temporaries removable [] disk = disk
remove_temporaries removable (dir ∷ temporary) disk =
    remove_temporaries removable temporary (if removable dir then remove_all dir disk else disk)
