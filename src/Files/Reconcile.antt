-- ===== src/Files/Reconcile.antt =====
-- `ReconcileStorage` and `managedFileID` of internal/files/service.go, which run once before the
-- server starts. What os.Lstat and os.ReadDir say of the data directory is given as a `Root`: below
-- "files" one directory for each tenant, and below it one for each file.
pub mod Reads
pub mod Kept
pub mod Removed
mod Tests
use llm_file_gateway.Prelude.{
  ℕ, ◌+◌, Bool, true, false, not, ◌&&◌, ◌||◌, Option, none, some, List, [], ◌∷◌, ◌==◌, leb, length,
  select, is_some, if◌then◌else◌,
}
use llm_file_gateway.Prelude.Text.{String, ◌=ˢ◌, codes, has_prefix, drop_str}
use llm_file_gateway.Store
use llm_file_gateway.Store.{FilePath, Table}
use llm_file_gateway.Files.Disk.{Disk, parent, same_path, is_below, remove_all}

-- hex.DecodeString reports no error: an even number of hexadecimal digits.
abbrev is_hex_digit : ℕ → Bool
is_hex_digit c = (leb 48 c && leb c 57) || ((leb 97 c && leb c 102) || (leb 65 c && leb c 70))

abbrev is_hex : List ℕ → Bool
is_hex [] = true
is_hex (c ∷ []) = false
is_hex (c ∷ d ∷ rest) = is_hex_digit c && (is_hex_digit d && is_hex rest)

unfoldable pub managed_file_id : String → Bool
managed_file_id name =
    if not (length (codes name) == 5 + 32) || not (has_prefix name "file_")
    then false
    else is_hex (codes (drop_str 5 name))

-- An entry of a tenant's directory; `removable` says that os.RemoveAll succeeds on it, and `survives`
-- which files are left when it fails.
pub record Entry : Type 0 where
  pub name : String
  pub is_dir : Bool
  pub removable : Bool
  pub survives : FilePath → Bool

-- An entry of "files"; its own entries are `none` if os.ReadDir fails. A symbolic link is no
-- directory.
pub record Tenant : Type 0 where
  pub tenant_name : String
  pub is_tenant_dir : Bool
  pub entries : Option (List Entry)

pub data Root : Type 0 where
  missing uninspectable not_directory unreadable : Root
  tenants_of : List Tenant → Root

pub data ReconcileError : Type 0 where
  no_source_paths inspect_files bad_files_path read_files : ReconcileError
  read_tenant : String → ReconcileError
  remove_orphan : FilePath → ReconcileError

abbrev pub Outcome : Type 0
Outcome = Option ReconcileError × Disk

abbrev pub file_directory : String → String → FilePath
file_directory tenant name = "files" ∷ tenant ∷ name ∷ []

-- A directory is referenced if it is the directory of a recorded source.
unfoldable pub referenced : List FilePath → FilePath → Bool
referenced [] dir = false
referenced (path ∷ paths) dir = same_path (parent path) dir || referenced paths dir

abbrev pub is_orphan : List FilePath → String → Entry → Bool
is_orphan paths tenant entry =
    entry.is_dir
    && (managed_file_id entry.name && not (referenced paths (file_directory tenant entry.name)))

-- os.RemoveAll that fails may have removed a part.
abbrev pub remove_part : FilePath → (FilePath → Bool) → Disk → Disk
remove_part dir survives = select λ entry. not (is_below dir entry.0) || survives entry.0

-- The loop over the entries of a tenant, which ends at the first removal that fails.
unfoldable pub sweep_entries : List FilePath → String → List Entry → Disk → Outcome
sweep_entries paths tenant [] disk = (none, disk)
sweep_entries paths tenant (entry ∷ entries) disk =
    let dir = file_directory tenant entry.name in
    let orphan = is_orphan paths tenant entry in
    let rest = sweep_entries paths tenant entries (if orphan then remove_all dir disk else disk) in
    if orphan && not entry.removable
    then (some (remove_orphan dir), remove_part dir entry.survives disk)
    else rest

abbrev pub sweep_tenant : List FilePath → Tenant → Disk → Outcome
sweep_tenant paths tenant disk =
    if not tenant.is_tenant_dir then (none, disk) else elim tenant.entries [
      | none ↦ (some (read_tenant tenant.tenant_name), disk)
      | some entries ↦ sweep_entries paths tenant.tenant_name entries disk
    ]

-- The loop over the tenants, which ends at the first error.
unfoldable pub sweep_tenants : List FilePath → List Tenant → Disk → Outcome
sweep_tenants paths [] disk = (none, disk)
sweep_tenants paths (tenant ∷ tenants) disk =
    let (error, swept) = sweep_tenant paths tenant disk in
    let rest = sweep_tenants paths tenants swept in if is_some error then (error, swept) else rest

-- `table` is `none` if the query of the source paths fails.
unfoldable pub reconcile_storage : Option Table → Root → Disk → Outcome
reconcile_storage none root disk = (some no_source_paths, disk)
reconcile_storage (some table) missing disk = (none, disk)
reconcile_storage (some table) uninspectable disk = (some inspect_files, disk)
reconcile_storage (some table) not_directory disk = (some bad_files_path, disk)
reconcile_storage (some table) unreadable disk = (some read_files, disk)
reconcile_storage (some table) (tenants_of tenants) disk =
    sweep_tenants (Store.source_paths table) tenants disk
