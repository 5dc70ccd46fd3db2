-- ===== src/Files/Reconcile/Kept.antt =====
-- What `ReconcileStorage` of internal/files/service.go keeps.
use llm_file_gateway.Prelude.{
  ◌≡◌, refl, sym, ap, ◌∙◌, ◌⊎◌, inl, inr, Bool, true, false, not, ◌&&◌, ◌||◌, none, some, List, [],
  ◌∷◌, arith, Bool-cases, Option-cases, if◌then◌else◌,
}
use llm_file_gateway.Prelude.Text.{String, ◌=ˢ◌, eq_iff, eq_refl}
use llm_file_gateway.Store
use llm_file_gateway.Store.{File, FilePath, Table}
use llm_file_gateway.Store.Rows.{Has}
use llm_file_gateway.Files.Disk.{Disk, same_path, is_below, remove_all, read_file, parent}
use llm_file_gateway.Files.Reconcile.{
  Entry, Tenant, Root, missing, uninspectable, not_directory, unreadable, tenants_of,
  file_directory, referenced, is_orphan, managed_file_id, remove_part, sweep_entries, sweep_tenant,
  sweep_tenants, reconcile_storage,
}
use llm_file_gateway.Files.Disk.Reads.{read_file-remove_all, read_file-select}
use llm_file_gateway.Files.Reconcile.Reads.{below}

module _ (paths : List FilePath) (tenant name : String) (rest : FilePath) where
  abbrev artifact : FilePath
  artifact = "files" ∷ tenant ∷ name ∷ rest

  module _
      (spared : managed_file_id name ≡ true
        → referenced paths (file_directory tenant name) ≡ true) where
    not_orphan :
        (other : String) (entry : Entry)
        → (other =ˢ tenant && entry.name =ˢ name) ≡ true
        → is_orphan paths other entry ≡ false
    not_orphan other entry e =
        rw
          (
            (eq_iff other tenant).0 (ground (arith, e)),
            (eq_iff entry.name name).0 (ground (arith, e)),
          )
          (ground (arith, spared))

    elsewhere :
        (other : String) (entry : Entry)
        → is_orphan paths other entry ≡ true
        → is_below (file_directory other entry.name) artifact ≡ false
    elsewhere other entry e = elim (Bool-cases (other =ˢ tenant && entry.name =ˢ name)) [
      | inl k ↦ absurd (cc (e, not_orphan other entry k))
      | inr k ↦ below paths tenant name rest other entry ∙ k
    ]

    -- One removal of an orphan.
    removal_keeps :
        (other : String) (entry : Entry) (disk : Disk) (orphan : Bool)
        → is_orphan paths other entry ≡ orphan
        → read_file artifact
            (if orphan then remove_all (file_directory other entry.name) disk else disk)
          ≡ read_file artifact disk
    removal_keeps other entry disk false e = refl
    removal_keeps other entry disk true e =
        read_file-remove_all (file_directory other entry.name) artifact disk
        ∙ ap (λ b. if b then none else read_file artifact disk) (elsewhere other entry e)

    -- One removal that fails.
    failure_keeps :
        (other : String) (entry : Entry) (disk : Disk)
        → is_orphan paths other entry ≡ true
        → read_file artifact (remove_part (file_directory other entry.name) entry.survives disk)
          ≡ read_file artifact disk
    failure_keeps other entry disk e =
        read_file-select
          (λ path. not (is_below (file_directory other entry.name) path) || entry.survives path)
          artifact disk (rw (elsewhere other entry e) refl)

    entries_keep :
        (other : String) (entries : List Entry) (disk : Disk)
        → read_file artifact (sweep_entries paths other entries disk).1 ≡ read_file artifact disk
    unfolding sweep_entries
    entries_keep other [] disk = refl
    entries_keep other (entry ∷ entries) disk = ground (
      arith,
      entries_keep other entries (
          if is_orphan paths other entry
          then remove_all (file_directory other entry.name) disk
          else disk),
      removal_keeps other entry disk (is_orphan paths other entry) refl,
      failure_keeps other entry disk,
    )

    tenant_keeps :
        (other : Tenant) (disk : Disk)
        → read_file artifact (sweep_tenant paths other disk).1 ≡ read_file artifact disk
    tenant_keeps other disk = elim (Bool-cases other.is_tenant_dir) [
      | inr e ↦ rw e refl
      | inl e ↦ elim (Option-cases other.entries) [
        | inl k ↦ rw (e, k) refl
        | inr (entries, k) ↦ rw (e, k) (entries_keep other.tenant_name entries disk)
      ]
    ]

    tenants_keep :
        (tenants : List Tenant) (disk : Disk)
        → read_file artifact (sweep_tenants paths tenants disk).1 ≡ read_file artifact disk
    unfolding sweep_tenants
    tenants_keep [] disk = refl
    tenants_keep (other ∷ tenants) disk =
        ground
          (arith, tenant_keeps other disk, tenants_keep tenants (sweep_tenant paths other disk).1)

-- The source of a row makes its directory referenced.
source_referenced :
    (table : Table) (row : File) (tenant name base : String)
    → Has row table
    → row.source_path ≡ "files" ∷ tenant ∷ name ∷ base ∷ []
    → referenced (Store.source_paths table) (file_directory tenant name) ≡ true
unfolding referenced Store.source_paths
source_referenced [] row tenant name base h e = elim h [ ]
source_referenced (first ∷ table) row tenant name base (inl same) e =
    ap
      (λ path.
        same_path (parent path) (file_directory tenant name)
        || referenced (Store.source_paths table) (file_directory tenant name))
      (sym (ap (λ (r : File). r.source_path) same) ∙ e)
    ∙ ground (arith, eq_refl "files", eq_refl tenant, eq_refl name)
source_referenced (first ∷ table) row tenant name base (inr h) e =
    ground (arith, source_referenced table row tenant name base h e)

-- Whatever the file system reports, and however a removal fails: below the directory of a recorded file,
-- and below every directory whose name is not that of a file id, all files stay as they are.
pub recorded_files_kept :
    (table : Table) (root : Root) (disk : Disk) (tenant name : String) (rest : FilePath)
    → (managed_file_id name ≡ false)
      ⊎ ((row : File) × (base : String) × Has row table
          × (row.source_path ≡ "files" ∷ tenant ∷ name ∷ base ∷ []))
    → read_file ("files" ∷ tenant ∷ name ∷ rest) (reconcile_storage (some table) root disk).1
      ≡ read_file ("files" ∷ tenant ∷ name ∷ rest) disk
unfolding reconcile_storage
recorded_files_kept table missing disk tenant name rest h = refl
recorded_files_kept table uninspectable disk tenant name rest h = refl
recorded_files_kept table not_directory disk tenant name rest h = refl
recorded_files_kept table unreadable disk tenant name rest h = refl
recorded_files_kept table (tenants_of tenants) disk tenant name rest (inl e) =
    tenants_keep (Store.source_paths table) tenant name rest (λ managed. absurd (cc (e, managed)))
      tenants disk
recorded_files_kept table (tenants_of tenants) disk tenant name rest (inr (row, base, there, e)) =
    tenants_keep (Store.source_paths table) tenant name rest
      (λ managed. source_referenced table row tenant name base there e) tenants disk
