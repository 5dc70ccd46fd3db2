-- ===== src/Files/Upload/Rejected.antt =====
-- An upload that `Create` of internal/files/service.go rejects leaves nothing behind.
use llm_file_gateway.Prelude.{
  ℕ, ◌≡◌, refl, ap, ◌∙◌, ◌⊎◌, inl, inr, Bool, true, false, not, ◌&&◌, Option, none, some, [], ◌∷◌,
  arith, All, select_imp, length, ltb, Bool-cases, Option-cases,
}
use llm_file_gateway.Prelude.Text.{String, eq_iff, eq_refl}
use llm_file_gateway.ApiError.{Fault}
use llm_file_gateway.Store.{File, FilePath, Table}
use llm_file_gateway.Files.Disk.{Disk, Bytes, same_path, is_below, remove_all, write_file}
use llm_file_gateway.Files.Upload.{
  DocumentConverter, Calls, Storage, Upload, file_dir, source_path, written, insert_row,
  insert_valid, check_source, clean_up, create,
}

-- No file lies at or below a directory.
abbrev pub IsUnused : FilePath → Disk → Type 0
IsUnused dir disk = All (λ entry. is_below dir entry.0 ≡ false) disk

pub same_path-below :
    (dir p q : FilePath) → is_below dir p ≡ true → is_below dir q ≡ false → same_path p q ≡ false
same_path-below [] p q h k = absurd (cc k)
same_path-below (d ∷ dir) [] q h k = absurd (cc h)
same_path-below (d ∷ dir) (e ∷ p) [] h k = refl
same_path-below (d ∷ dir) (e ∷ p) (f ∷ q) h k =
    ground (arith, same_path-below dir p q, eq_iff d e, eq_iff e f, eq_iff d f)

pub select_all : (dir : FilePath) (disk : Disk) → IsUnused dir disk → remove_all dir disk ≡ disk
select_all dir [] h = refl
select_all dir (entry ∷ disk) h = rw h.0 (ap (◌∷◌ entry) (select_all dir disk h.1))

-- Removing a directory takes back what was written below it.
remove_all-write_file :
    (dir path : FilePath) (content : Bytes) (disk : Disk)
    → is_below dir path ≡ true
    → IsUnused dir disk
    → remove_all dir (write_file path content disk) ≡ disk
remove_all-write_file dir path content disk h unused = rw h (
    select_imp (λ entry. not (is_below dir entry.0)) (λ entry. not (same_path path entry.0))
      (λ entry k. ap not (same_path-below dir path entry.0 h (ground (arith, k)))) disk
    ∙ select_all dir disk unused)

-- A fault, and the storage as it was.
abbrev Keeps : Storage → Storage × (Fault ⊎ File) → Type 0
Keeps before (after, inl fault) = after ≡ before
Keeps before (after, inr row) = Unit

Keeps-fault :
    (before : Storage) (r : Storage × (Fault ⊎ File)) (fault : Fault)
    → Keeps before r
    → r.1 ≡ inl fault
    → r.0 ≡ before
Keeps-fault before (after, inl f) fault h e = h
Keeps-fault before (after, inr row) fault h e = absurd (cc e)

clean_up-Keeps :
    (dir path : FilePath) (content : Bytes) (storage : Storage) (r : Storage × (Fault ⊎ File))
    → is_below dir path ≡ true
    → IsUnused dir storage.disk
    → Keeps (record storage { disk = write_file path content storage.disk }) r
    → Keeps storage (clean_up true dir r)
clean_up-Keeps dir path content storage (after, inr row) h unused k = tt
clean_up-Keeps dir path content storage (after, inl fault) h unused k =
    ap (λ (s : Storage). record s { disk = remove_all dir s.disk }) k
    ∙ ap (λ d. record storage { disk = d })
        (remove_all-write_file dir path content storage.disk h unused)

insert_row-Keeps :
    (table : Option Table) (row : File) (storage : Storage)
    → Keeps storage (insert_row table row storage)
insert_row-Keeps none row storage = refl
insert_row-Keeps (some table) row storage = tt

insert_valid-Keeps :
    (invalid : Option String) (converter : DocumentConverter) (add_ok : Bool) (row : File)
    (storage : Storage)
    → Keeps storage (insert_valid invalid converter add_ok row storage)
insert_valid-Keeps (some text) converter add_ok row storage = refl
insert_valid-Keeps none converter add_ok row storage = insert_row-Keeps _ row storage

module _ (to_lower : String → String) (digest : Bytes → String) (display : ℕ → String) (limit : ℕ)
    (calls : Calls) (upload : Upload) where
  check_source-Keeps :
      (converter : DocumentConverter) (id : String) (storage : Storage)
      → Keeps storage (check_source to_lower digest display limit calls converter upload id storage)
  unfolding check_source
  check_source-Keeps converter id storage = elim (Bool-cases (calls.copy_ok && calls.close_ok)) [
    | inr c ↦ rw c refl
    | inl c ↦
        elim (Bool-cases (
          ltb 0 limit
          && ltb limit (length (written to_lower digest display limit upload.content)))) [
            | inl e ↦ rw (c, e) refl
            | inr e ↦ rw (c, e) (insert_valid-Keeps calls.invalid converter calls.add_ok _ storage)
          ]
  ]

  below :
      (id : String)
      → is_below
          (file_dir upload.tenant_id id)
          (source_path to_lower digest display limit upload id)
        ≡ true
  below id = rw (eq_refl upload.tenant_id, eq_refl id) refl

  create-Keeps :
      (storage : Storage)
      → calls.cleanup_ok ≡ true
      → ((id : String)
          → calls.new_id ≡ some id
          → IsUnused (file_dir upload.tenant_id id) storage.disk)
      → Keeps storage (create to_lower digest display limit calls upload storage)
  unfolding create
  create-Keeps storage cleaned unused = elim (Option-cases calls.converter) [
    | inl c ↦ rw (c, create) refl
    | inr (converter, c) ↦ elim (Option-cases calls.new_id) [
      | inl i ↦ rw (c, i, create) refl
      | inr (id, i) ↦ elim (Bool-cases calls.mkdir_ok) [
        | inr m ↦ rw (c, i, m, create) refl
        | inl m ↦ elim (Bool-cases calls.open_ok) [
          | inr o ↦
              rw (c, i, m, cleaned, o, create)
                (ap (λ d. record storage { disk = d })
                  (select_all (file_dir upload.tenant_id id) storage.disk (unused id i)))
          | inl o ↦
              rw (c, i, m, cleaned, o, create)
                (clean_up-Keeps (file_dir upload.tenant_id id)
                  (source_path to_lower digest display limit upload id)
                  (written to_lower digest display limit upload.content) storage _ (below id)
                  (unused id i) (check_source-Keeps converter id _))
        ]
      ]
    ]
  ]

  -- Whatever makes `Create` fail, and wherever, no row is added, and once the incomplete directory is
  -- removed the disk is as it was: the random id names a directory that does not exist yet.
  pub rejected_upload_leaves_nothing :
      (storage : Storage) (fault : Fault)
      → calls.cleanup_ok ≡ true
      → ((id : String)
          → calls.new_id ≡ some id
          → IsUnused (file_dir upload.tenant_id id) storage.disk)
      → (create to_lower digest display limit calls upload storage).1 ≡ inl fault
      → (create to_lower digest display limit calls upload storage).0 ≡ storage
  rejected_upload_leaves_nothing storage fault cleaned unused =
      Keeps-fault storage (create to_lower digest display limit calls upload storage) fault
        (create-Keeps storage cleaned unused)
