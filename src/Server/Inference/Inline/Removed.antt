-- ===== src/Server/Inference/Inline/Removed.antt =====
-- What the inline documents of a request leave behind (internal/server/document.go, internal/server/inference.go).
use llm_file_gateway.Prelude.{
  ℕ, ◌≡◌, refl, ap, ◌∙◌, ◌⊎◌, inl, inr, true, not, Option, none, some, List, [], ◌∷◌, ◌++◌, All,
  select_imp, arith, Bool-cases,
}
use llm_file_gateway.Prelude.Text.{String, ◌+ˢ◌, ext, eq_refl}
use llm_file_gateway.ApiError.{Fault}
use llm_file_gateway.Store.{FilePath}
use llm_file_gateway.Files.Disk.{Disk, Bytes, same_path, is_below, remove_all, write_file}
use llm_file_gateway.Files.Upload.Rejected.{IsUnused, same_path-below, select_all}
use llm_file_gateway.Server.Proxy.Forward.{context_fault}
use llm_file_gateway.Server.Inference.Inline.{
  Calls, Inline, Work, Resolved, create_request_directory, write_outputs, write_part,
  convert_inline, in_directory, prepare_inline, prepare_all, go_on, remove_temporaries, stop_if,
  invalid_fault, enter, oversized,
}

-- Outside a directory, a disk is as another one.
abbrev AgreeOutside : FilePath → Disk → Disk → Type 0
AgreeOutside dir disk other = remove_all dir disk ≡ remove_all dir other

write_file-AgreeOutside :
    (dir path : FilePath) (content : Bytes) (disk : Disk)
    → is_below dir path ≡ true
    → AgreeOutside dir (write_file path content disk) disk
write_file-AgreeOutside dir path content disk h = rw h (
    select_imp (λ entry. not (is_below dir entry.0)) (λ entry. not (same_path path entry.0))
      (λ entry k. ap not (same_path-below dir path entry.0 h (ground (arith, k)))) disk)

is_below-append : (dir rest : FilePath) → is_below dir (dir ++ rest) ≡ true
is_below-append [] rest = refl
is_below-append (element ∷ dir) rest = rw (eq_refl element, is_below-append dir rest) refl

is_below_derived : (dir rest path : FilePath) → is_below dir ((dir ++ rest) ++ path) ≡ true
is_below_derived [] rest path = refl
is_below_derived (element ∷ dir) rest path =
    rw (eq_refl element, is_below_derived dir rest path) refl

write_outputs-AgreeOutside :
    (dir rest : FilePath) (outputs : List (FilePath × Bytes)) (disk : Disk)
    → AgreeOutside dir (write_outputs (dir ++ rest) outputs disk) disk
write_outputs-AgreeOutside dir rest [] disk = refl
write_outputs-AgreeOutside dir rest ((path, content) ∷ outputs) disk =
    write_outputs-AgreeOutside dir rest outputs (write_file ((dir ++ rest) ++ path) content disk)
    ∙ write_file-AgreeOutside dir ((dir ++ rest) ++ path) content disk
        (is_below_derived dir rest path)

write_part-AgreeOutside :
    (dir path : FilePath) (part : Option Bytes) (disk : Disk)
    → is_below dir path ≡ true
    → AgreeOutside dir (write_part path part disk) disk
write_part-AgreeOutside dir path none disk h = refl
write_part-AgreeOutside dir path (some part) disk h = write_file-AgreeOutside dir path part disk h

-- A call of the converter touches its own directory only.
abbrev Within : FilePath → Work → Work × (Fault ⊎ Resolved) → Type 0
Within dir before (after, result) =
    (after.temporary ≡ before.temporary) × AgreeOutside dir after.disk before.disk

stop_if-Within :
    (dir : FilePath) (fault : Option Fault) (work : Work) (rest : Work × (Fault ⊎ Resolved))
    → Within dir work rest
    → Within dir work (stop_if fault work rest)
stop_if-Within dir none work rest h = h
stop_if-Within dir (some fault) work rest h = (refl, refl)

convert_inline-Within :
    (calls : Calls) (inline : Inline) (dir : FilePath) (work : Work)
    → Within dir work (convert_inline calls inline dir work)
convert_inline-Within calls inline dir work = stop_if-Within dir calls.resolve_error work _ (
    stop_if-Within dir (context_fault calls.with_converter) work _ (
      stop_if-Within dir (context_fault calls.with_validation) work _ (
        stop_if-Within dir (invalid_fault inline.param calls.invalid) work _ (
          refl,
          write_part-AgreeOutside dir (dir ++ "manifest.json" ∷ []) calls.manifest _
                (is_below-append dir ("manifest.json" ∷ []))
              ∙ write_outputs-AgreeOutside dir ("derived" ∷ []) calls.outputs work.disk,
        ))))

Within-trans :
    (dir : FilePath) (before middle : Work) (r : Work × (Fault ⊎ Resolved))
    → middle.temporary ≡ before.temporary
    → AgreeOutside dir middle.disk before.disk
    → Within dir middle r
    → Within dir before r
Within-trans dir before middle (after, result) e h k = (k.0 ∙ e, k.1 ∙ h)

-- What can be taken back: the temporary directories are removed, and the disk is `before` again.
abbrev Restores : Disk → Work → Type 0
Restores before work = remove_temporaries (λ dir. true) work.temporary work.disk ≡ before

remove_all-remove_all :
    (dir other : FilePath) (disk : Disk)
    → remove_all dir (remove_all other disk) ≡ remove_all other (remove_all dir disk)
remove_all-remove_all dir other [] = refl
remove_all-remove_all dir other (entry ∷ disk) =
    ground (arith, remove_all-remove_all dir other disk)

remove_temporaries-remove_all :
    (temporary : List FilePath) (dir : FilePath) (disk : Disk)
    → remove_temporaries (λ d. true) temporary (remove_all dir disk)
      ≡ remove_all dir (remove_temporaries (λ d. true) temporary disk)
unfolding remove_temporaries
remove_temporaries-remove_all [] dir disk = refl
remove_temporaries-remove_all (other ∷ temporary) dir disk =
    ap (remove_temporaries (λ d. true) temporary) (remove_all-remove_all other dir disk)
    ∙ remove_temporaries-remove_all temporary dir (remove_all other disk)

remove_temporaries-append :
    (temporary : List FilePath) (dir : FilePath) (disk : Disk)
    → remove_temporaries (λ d. true) (temporary ++ dir ∷ []) disk
      ≡ remove_temporaries (λ d. true) temporary (remove_all dir disk)
unfolding remove_temporaries
remove_temporaries-append [] dir disk = refl
remove_temporaries-append (other ∷ temporary) dir disk =
    remove_temporaries-append temporary dir (remove_all other disk)
    ∙ ap (remove_temporaries (λ d. true) temporary) (remove_all-remove_all dir other disk)

-- A directory of the request's own takes with it what was written below it.
Restores-Within :
    (before : Disk) (dir : FilePath) (work : Work) (r : Work × (Fault ⊎ Resolved))
    → IsUnused dir before
    → Restores before work
    → Within dir (record work { temporary = work.temporary ++ dir ∷ [] }) r
    → Restores before r.0
Restores-Within before dir work (after, result) unused h (e, k) =
    ap (λ t. remove_temporaries (λ d. true) t after.disk) e
    ∙ remove_temporaries-append work.temporary dir after.disk
    ∙ ap (remove_temporaries (λ d. true) work.temporary) k
    ∙ remove_temporaries-remove_all work.temporary dir work.disk
    ∙ ap (remove_all dir) h
    ∙ select_all dir before unused

-- The directory that is made for a document has no file yet.
abbrev pub IsFresh : Disk → Calls × Inline → Type 0
IsFresh before (calls, inline) =
    (dir : FilePath) → create_request_directory calls ≡ inr dir → IsUnused dir before

module _ (to_lower : String → String) (digest : Bytes → String) (display : ℕ → String) (limit : ℕ)
    (before : Disk) where
  in_directory-Within :
      (calls : Calls) (inline : Inline) (dir : FilePath) (work : Work)
      → Within dir work (in_directory to_lower digest display limit calls inline dir work)
  in_directory-Within calls inline dir work =
      let name : FilePath = ("source" +ˢ to_lower (ext inline.filename)) ∷ [] in
      let after : Work = record work { disk = write_file (dir ++ name) inline.content work.disk } in
      elim (Bool-cases calls.write_ok) [
        | inr o ↦ rw o (
          refl,
          write_part-AgreeOutside dir (dir ++ name) calls.partly work.disk
              (is_below-append dir name),
        )
        | inl o ↦ rw o (
            Within-trans dir work after (convert_inline calls inline dir after) refl
              (write_file-AgreeOutside dir (dir ++ name) inline.content work.disk
                (is_below-append dir name))
              (convert_inline-Within calls inline dir after))
      ]

  stop_if-Restores :
      (fault : Option Fault) (work : Work) (rest : Work × (Fault ⊎ Resolved))
      → Restores before work
      → Restores before rest.0
      → Restores before (stop_if fault work rest).0
  stop_if-Restores none work rest h k = k
  stop_if-Restores (some fault) work rest h k = h

  enter-Restores :
      (calls : Calls) (inline : Inline) (work : Work) (made : Fault ⊎ FilePath)
      → Restores before work
      → ((dir : FilePath) → made ≡ inr dir → IsUnused dir before)
      → Restores before (enter to_lower digest display limit calls inline work made).0
  enter-Restores calls inline work (inl fault) h fresh = h
  enter-Restores calls inline work (inr dir) h fresh =
      let own : Work = record work { temporary = work.temporary ++ dir ∷ [] } in
      Restores-Within before dir work
        (in_directory to_lower digest display limit calls inline dir own) (fresh dir refl) h
        (in_directory-Within calls inline dir own)

  prepare_inline-Restores :
      (calls : Calls) (inline : Inline) (work : Work)
      → IsFresh before (calls, inline)
      → Restores before work
      → Restores before (prepare_inline to_lower digest display limit calls inline work).0
  unfolding prepare_inline
  prepare_inline-Restores calls inline work fresh h =
      stop_if-Restores (context_fault calls.with_content) work _ h (
        stop_if-Restores (oversized to_lower digest display limit inline) work _ h
          (enter-Restores calls inline work (create_request_directory calls) h fresh))

  go_on-Restores :
      (r : Work × (Fault ⊎ Resolved)) (next : Work → Work)
      → Restores before r.0
      → ((work : Work) → Restores before work → Restores before (next work))
      → Restores before (go_on to_lower digest display limit r next)
  go_on-Restores (work, inl fault) next h k = h
  go_on-Restores (work, inr resolved) next h k = k work h

  prepare_all-Restores :
      (documents : List (Calls × Inline)) (work : Work)
      → All (IsFresh before) documents
      → Restores before work
      → Restores before (prepare_all to_lower digest display limit documents work)
  unfolding prepare_all
  prepare_all-Restores [] work fresh h = h
  prepare_all-Restores ((calls, inline) ∷ documents) work fresh h =
      go_on-Restores (prepare_inline to_lower digest display limit calls inline work)
        (λ w. prepare_all to_lower digest display limit documents w)
        (prepare_inline-Restores calls inline work fresh.0 h)
        λ w k. prepare_all-Restores documents w fresh.1 k

  -- The inline documents of a request leave nothing on the disk, whichever call fails, wherever the context ends,
  -- and whatever a conversion has written by then: when the temporary directories of the request are removed, the
  -- disk is as it was before the request. The directories that are made for them had no files.
  pub inline_documents_removed :
      (documents : List (Calls × Inline))
      → All (IsFresh before) documents
      → let work =
          prepare_all to_lower digest display limit documents
            (record { disk = before; temporary = [] }) in
        remove_temporaries (λ dir. true) work.temporary work.disk ≡ before
  unfolding remove_temporaries
  inline_documents_removed documents fresh =
      prepare_all-Restores documents (record { disk = before; temporary = [] }) fresh refl
