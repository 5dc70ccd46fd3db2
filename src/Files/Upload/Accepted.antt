-- ===== src/Files/Upload/Accepted.antt =====
-- What an upload that `Create` of internal/files/service.go accepts leaves in the storage.
use llm_file_gateway.Prelude.{
  ℕ, zero, suc, ◌+◌, ◌≤◌, ◌≡◌, refl, ap, subst, ◌⊎◌, inl, inr, Bool, true, false, ◌&&◌, Option,
  none, some, [], ◌∷◌, ◌++◌, arith, take, length, length-take, ltb, Bool-cases, Option-cases,
  if◌then◌else◌,
}
use llm_file_gateway.Prelude.Text.{String}
use llm_file_gateway.ApiError.{Fault}
use llm_file_gateway.Store
use llm_file_gateway.Store.{File, FilePath, Table}
use llm_file_gateway.Files.Disk.{Bytes, read_file, write_file}
use llm_file_gateway.Files.Disk.Reads.{same_path_refl}
use llm_file_gateway.Files.Upload.{
  DocumentConverter, Calls, Storage, Upload, file_dir, source_path, expiry, written, insert_row,
  insert_valid, check_source, clean_up, create,
}

take_all : (n : ℕ) (content : Bytes) → length content ≤ n → take n content ≡ content
take_all zero [] h = refl
take_all zero (b ∷ content) h = absurd (omega (arith, h))
take_all (suc n) [] h = refl
take_all (suc n) (b ∷ content) h = ap (◌∷◌ b) (take_all n content (omega (arith, h)))

add_appends :
    (row : File) (table after : Table)
    → Store.add row table ≡ some after
    → after ≡ table ++ row ∷ []
unfolding Store.add
add_appends row table after h = ground (arith, h)

-- The row is in the table, as the upload asks for it, and the source file holds the upload, which is within the
-- limit.
abbrev pub IsStored : ℕ → Upload → Storage → Storage → File → Type 0
IsStored limit upload before after row =
    (after.table ≡ before.table ++ row ∷ [])
    × (Store.add row before.table ≡ some after.table)
    × (read_file row.source_path after.disk ≡ some upload.content)
    × (row.bytes ≡ length upload.content)
    × ((limit ≡ 0) ⊎ (length upload.content ≤ limit))
    × (row.tenant_id ≡ upload.tenant_id)
    × (row.purpose ≡ upload.purpose)
    × (row.status ≡ "uploaded")
    × (row.deleted_at ≡ none)
    × (row.expires_at ≡ expiry row.created_at upload.ttl)

abbrev Stores : ℕ → Upload → Storage → Storage × (Fault ⊎ File) → Type 0
Stores limit upload before (after, inl fault) = Unit
Stores limit upload before (after, inr row) = IsStored limit upload before after row

insert_row-Stores :
    (limit : ℕ) (upload : Upload) (row : File) (before storage : Storage) (inserted : Option Table)
    → ((table : Table)
        → inserted ≡ some table
        → IsStored limit upload before (record storage { table = table }) row)
    → Stores limit upload before (insert_row inserted row storage)
insert_row-Stores limit upload row before storage none h = tt
insert_row-Stores limit upload row before storage (some table) h = h table refl

insert_valid-Stores :
    (limit : ℕ) (upload : Upload) (invalid : Option String) (converter : DocumentConverter)
    (add_ok : Bool) (row : File) (before storage : Storage)
    → ((table : Table)
        → Store.add row storage.table ≡ some table
        → IsStored limit upload before (record storage { table = table }) row)
    → Stores limit upload before (insert_valid invalid converter add_ok row storage)
insert_valid-Stores limit upload (some text) converter add_ok row before storage h = tt
insert_valid-Stores limit upload none converter true row before storage h =
    insert_row-Stores limit upload row before storage (Store.add row storage.table) h
insert_valid-Stores limit upload none converter false row before storage h = tt

clean_up-Stores :
    (limit : ℕ) (upload : Upload) (before : Storage) (cleanup_ok : Bool) (dir : FilePath)
    (r : Storage × (Fault ⊎ File))
    → Stores limit upload before r
    → Stores limit upload before (clean_up cleanup_ok dir r)
clean_up-Stores limit upload before cleanup_ok dir (after, inl fault) h = tt
clean_up-Stores limit upload before cleanup_ok dir (after, inr row) h = h

Stores-row :
    (limit : ℕ) (upload : Upload) (before : Storage) (r : Storage × (Fault ⊎ File)) (row : File)
    → Stores limit upload before r
    → r.1 ≡ inr row
    → IsStored limit upload before r.0 row
Stores-row limit upload before (after, inl fault) row h e = absurd (cc e)
Stores-row limit upload before (after, inr other) row h e =
    subst (IsStored limit upload before after) (cc e) h

module _ (to_lower : String → String) (digest : Bytes → String) (display : ℕ → String) (limit : ℕ)
    (calls : Calls) (upload : Upload) where
  -- What passes the test on the size is the whole upload.
  written_whole :
      (content : Bytes)
      → (ltb 0 limit && ltb limit (length (written to_lower digest display limit content))) ≡ false
      → (written to_lower digest display limit content ≡ content)
        × ((limit ≡ 0) ⊎ (length content ≤ limit))
  written_whole content h = by_limit (ltb 0 limit) refl h
    where
      short : ltb limit (length (take (limit + 1) content)) ≡ false → length content ≤ limit
      short k = ground (arith, length-take (limit + 1) content, k)

      by_limit :
          (b : Bool)
          → ltb 0 limit ≡ b
          → (b && ltb limit (length (if b then take (limit + 1) content else content))) ≡ false
          → ((if b then take (limit + 1) content else content) ≡ content)
            × ((limit ≡ 0) ⊎ (length content ≤ limit))
      by_limit false e k = (refl, inl (ground (arith, e)))
      by_limit true e k = (take_all (limit + 1) content (omega (arith, short k)), inr (short k))

  read_back :
      (id : String) (storage : Storage)
      → written to_lower digest display limit upload.content ≡ upload.content
      → let path = source_path to_lower digest display limit upload id in
        read_file path
          (write_file path (written to_lower digest display limit upload.content) storage.disk)
        ≡ some upload.content
  read_back id storage whole =
      rw (same_path_refl (source_path to_lower digest display limit upload id)) (ap some whole)

  check_source-Stores :
      (converter : DocumentConverter) (id : String) (storage : Storage)
      → Stores limit upload storage (
          check_source to_lower digest display limit calls converter upload id (record storage {
            disk =
                write_file
                  (source_path to_lower digest display limit upload id)
                  (written to_lower digest display limit upload.content)
                  storage.disk;
          }))
  unfolding check_source
  check_source-Stores converter id storage = elim (Bool-cases (calls.copy_ok && calls.close_ok)) [
    | inr c ↦ rw c tt
    | inl c ↦
        elim (Bool-cases (
          ltb 0 limit
          && ltb limit (length (written to_lower digest display limit upload.content)))) [
            | inl e ↦ rw (c, e) tt
            | inr e ↦
                rw (c, e)
                  (insert_valid-Stores limit upload calls.invalid converter calls.add_ok _ storage _
                    λ table added.
                      let (whole, fits) = written_whole upload.content e in
                      (
                        add_appends _ storage.table table added,
                        added,
                        read_back id storage whole,
                        ap length whole,
                        fits,
                        refl,
                        refl,
                        refl,
                        refl,
                        refl,
                      ))
          ]
  ]

  create-Stores :
      (storage : Storage)
      → Stores limit upload storage (create to_lower digest display limit calls upload storage)
  unfolding create
  create-Stores storage = elim (Option-cases calls.converter) [
    | inl c ↦ rw (c, create) tt
    | inr (converter, c) ↦ elim (Option-cases calls.new_id) [
      | inl i ↦ rw (c, i, create) tt
      | inr (id, i) ↦ elim (Bool-cases calls.mkdir_ok) [
        | inr m ↦ rw (c, i, m, create) tt
        | inl m ↦ elim (Bool-cases calls.open_ok) [
          | inr o ↦ rw (c, i, m, o, create) tt
          | inl o ↦
              rw (c, i, m, o, create)
                (clean_up-Stores limit upload storage calls.cleanup_ok
                  (file_dir upload.tenant_id id) _ (check_source-Stores converter id storage))
        ]
      ]
    ]
  ]

  -- An upload that is accepted is one row more at the end of the table, with an id of its own and the
  -- status "uploaded"; it has the tenant, the purpose and the expiry that were asked for. Its source
  -- file holds all bytes of the upload, the row has their number, and a limit that is not 0 is kept.
  pub accepted_upload_complete :
      (storage : Storage) (row : File)
      → (create to_lower digest display limit calls upload storage).1 ≡ inr row
      → IsStored limit upload storage
          (create to_lower digest display limit calls upload storage).0
          row
  accepted_upload_complete storage row =
      Stores-row limit upload storage (create to_lower digest display limit calls upload storage)
        row (create-Stores storage)
