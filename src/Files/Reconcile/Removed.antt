-- ===== src/Files/Reconcile/Removed.antt =====
-- What `ReconcileStorage` of internal/files/service.go removes.
use llm_file_gateway.Prelude.{
  ◌≡◌, refl, sym, ap, ◌∙◌, inl, inr, Bool, true, false, not, ◌&&◌, ◌||◌, Option, none, some, List,
  [], ◌∷◌, arith, is_some, Bool-cases, Option-cases, if◌then◌else◌,
}
use llm_file_gateway.Prelude.Text.{String, ◌=ˢ◌, eq_iff, eq_refl}
use llm_file_gateway.Store
use llm_file_gateway.Store.{File, FilePath, Table}
use llm_file_gateway.Files.Disk.{Disk, is_below, remove_all, read_file}
use llm_file_gateway.Files.Reconcile.{
  Entry, Tenant, tenants_of, ReconcileError, Outcome, file_directory, referenced, is_orphan,
  managed_file_id, sweep_entries, sweep_tenant, sweep_tenants, reconcile_storage,
}
use llm_file_gateway.Files.Disk.Reads.{read_file-remove_all, read_file-select-none}
use llm_file_gateway.Files.Reconcile.Reads.{below}

module _ (paths : List FilePath) (tenant name : String) (rest : FilePath) where
  abbrev artifact : FilePath
  artifact = "files" ∷ tenant ∷ name ∷ rest

  -- What is gone stays gone.
  removal_stays :
      (other : String) (entry : Entry) (disk : Disk) (orphan : Bool)
      → read_file artifact disk ≡ none
      → read_file artifact
          (if orphan then remove_all (file_directory other entry.name) disk else disk)
        ≡ none
  removal_stays other entry disk false h = h
  removal_stays other entry disk true h =
      ground (arith, read_file-remove_all (file_directory other entry.name) artifact disk, h)

  entries_stay :
      (other : String) (entries : List Entry) (disk : Disk)
      → read_file artifact disk ≡ none
      → read_file artifact (sweep_entries paths other entries disk).1 ≡ none
  unfolding sweep_entries
  entries_stay other [] disk h = h
  entries_stay other (entry ∷ entries) disk h = ground (
    arith,
    entries_stay other entries
        (if is_orphan paths other entry
          then remove_all (file_directory other entry.name) disk
          else disk)
        (removal_stays other entry disk (is_orphan paths other entry) h),
    removal_stays other entry disk (is_orphan paths other entry) h,
    read_file-select-none
        (λ path. not (is_below (file_directory other entry.name) path) || entry.survives path)
        artifact disk h,
  )

  tenant_stays :
      (other : Tenant) (disk : Disk)
      → read_file artifact disk ≡ none
      → read_file artifact (sweep_tenant paths other disk).1 ≡ none
  tenant_stays other disk h = elim (Bool-cases other.is_tenant_dir) [
    | inr e ↦ rw e h
    | inl e ↦ elim (Option-cases other.entries) [
      | inl k ↦ rw (e, k) h
      | inr (entries, k) ↦ rw (e, k) (entries_stay other.tenant_name entries disk h)
    ]
  ]

  tenants_stay :
      (tenants : List Tenant) (disk : Disk)
      → read_file artifact disk ≡ none
      → read_file artifact (sweep_tenants paths tenants disk).1 ≡ none
  unfolding sweep_tenants
  tenants_stay [] disk h = h
  tenants_stay (other ∷ tenants) disk h = ground (
    arith,
    tenant_stays other disk h,
    tenants_stay tenants (sweep_tenant paths other disk).1 (tenant_stays other disk h),
  )

-- The directory of a file is among those that os.ReadDir lists.
abbrev pub lists_entry : List Entry → String → Bool
lists_entry [] name = false
lists_entry (entry ∷ entries) name =
    (entry.is_dir && entry.name =ˢ name) || lists_entry entries name

abbrev pub lists_in : Option (List Entry) → String → Bool
lists_in none name = false
lists_in (some entries) name = lists_entry entries name

abbrev pub lists_file : List Tenant → String → String → Bool
lists_file [] tenant name = false
lists_file (other ∷ tenants) tenant name =
    (other.is_tenant_dir && (other.tenant_name =ˢ tenant && lists_in other.entries name))
    || lists_file tenants tenant name

-- A loop that reports no error has gone on.
goes_on :
    (stops : Bool) (error : ReconcileError) (disk : Disk) (rest : Outcome)
    → (if stops then (some error, disk) else rest).0 ≡ none
    → (if stops then (some error, disk) else rest) ≡ rest
goes_on true error disk rest e = absurd (cc e)
goes_on false error disk rest e = refl

goes_on_after :
    (swept : Outcome) (rest : Outcome)
    → (if is_some swept.0 then (swept.0, swept.1) else rest).0 ≡ none
    → (swept.0 ≡ none) × ((if is_some swept.0 then (swept.0, swept.1) else rest) ≡ rest)
goes_on_after (none, disk) rest e = (refl, refl)
goes_on_after (some error, disk) rest e = absurd (cc e)

module _ (paths : List FilePath) (tenant name : String) (rest : FilePath)
    (managed : managed_file_id name ≡ true)
    (unreferenced : referenced paths (file_directory tenant name) ≡ false) where
  its_orphan :
      (entry : Entry)
      → (entry.is_dir && entry.name =ˢ name) ≡ true
      → is_orphan paths tenant entry ≡ true
  its_orphan entry e =
      rw ((eq_iff entry.name name).0 (ground (arith, e))) (ground (arith, e, managed, unreferenced))

  removed :
      (entry : Entry) (disk : Disk)
      → (entry.is_dir && entry.name =ˢ name) ≡ true
      → read_file
          ("files" ∷ tenant ∷ name ∷ rest)
          (remove_all (file_directory tenant entry.name) disk)
        ≡ none
  removed entry disk e =
      read_file-remove_all (file_directory tenant entry.name) ("files" ∷ tenant ∷ name ∷ rest) disk
      ∙ ap (λ b. if b then none else read_file ("files" ∷ tenant ∷ name ∷ rest) disk) inside
    where
      inside : is_below (file_directory tenant entry.name) ("files" ∷ tenant ∷ name ∷ rest) ≡ true
      inside = below paths tenant name rest tenant entry ∙ ground (arith, e, eq_refl tenant)

  entries_clear :
      (entries : List Entry) (disk : Disk)
      → lists_entry entries name ≡ true
      → (sweep_entries paths tenant entries disk).0 ≡ none
      → read_file ("files" ∷ tenant ∷ name ∷ rest) (sweep_entries paths tenant entries disk).1
        ≡ none
  unfolding sweep_entries
  entries_clear [] disk h e = absurd (cc h)
  entries_clear (entry ∷ entries) disk h e =
      elim (Bool-cases (entry.is_dir && entry.name =ˢ name)) [
        | inl k ↦
            ap (λ (o : Outcome). read_file ("files" ∷ tenant ∷ name ∷ rest) o.1) next
            ∙ entries_stay paths tenant name rest tenant entries _ (
                ap
                  (λ b.
                    read_file ("files" ∷ tenant ∷ name ∷ rest)
                      (if b then remove_all (file_directory tenant entry.name) disk else disk))
                  (its_orphan entry k)
                ∙ removed entry disk k)
        | inr k ↦
            ap (λ (o : Outcome). read_file ("files" ∷ tenant ∷ name ∷ rest) o.1) next
            ∙ entries_clear entries _ (ground (arith, h, k))
                (sym (ap (λ (o : Outcome). o.0) next) ∙ e)
      ]
    where
      next :
          sweep_entries paths tenant (entry ∷ entries) disk
          ≡ sweep_entries paths tenant entries (
              if is_orphan paths tenant entry
              then remove_all (file_directory tenant entry.name) disk
              else disk)
      next = goes_on (is_orphan paths tenant entry && not entry.removable) _ _ _ e

  opened_clear :
      (other : String) (is_dir : Bool) (opened : Option (List Entry)) (disk : Disk)
      → other ≡ tenant
      → is_dir ≡ true
      → lists_in opened name ≡ true
      → (sweep_tenant paths
          (record { tenant_name = other; is_tenant_dir = is_dir; entries = opened })
          disk).0
        ≡ none
      → read_file
          ("files" ∷ tenant ∷ name ∷ rest)
          (sweep_tenant paths
            (record { tenant_name = other; is_tenant_dir = is_dir; entries = opened })
            disk).1
        ≡ none
  opened_clear other false opened disk same is h e = absurd (cc is)
  opened_clear other true none disk same is h e = absurd (cc h)
  opened_clear other true (some entries) disk same is h e =
      ap
        (λ (o : String).
          read_file ("files" ∷ tenant ∷ name ∷ rest) (sweep_entries paths o entries disk).1)
        same
      ∙ entries_clear entries disk h
          (sym (ap (λ (o : String). (sweep_entries paths o entries disk).0) same) ∙ e)

  tenant_clear :
      (other : Tenant) (disk : Disk)
      → (other.is_tenant_dir && (other.tenant_name =ˢ tenant && lists_in other.entries name)) ≡ true
      → (sweep_tenant paths other disk).0 ≡ none
      → read_file ("files" ∷ tenant ∷ name ∷ rest) (sweep_tenant paths other disk).1 ≡ none
  tenant_clear other disk h e =
      opened_clear other.tenant_name other.is_tenant_dir other.entries disk
        ((eq_iff other.tenant_name tenant).0 (ground (arith, h))) (ground (arith, h))
        (ground (arith, h)) e

  tenants_clear :
      (tenants : List Tenant) (disk : Disk)
      → lists_file tenants tenant name ≡ true
      → (sweep_tenants paths tenants disk).0 ≡ none
      → read_file ("files" ∷ tenant ∷ name ∷ rest) (sweep_tenants paths tenants disk).1 ≡ none
  unfolding sweep_tenants
  tenants_clear [] disk h e = absurd (cc h)
  tenants_clear (other ∷ tenants) disk h e =
      ap (λ (o : Outcome). read_file ("files" ∷ tenant ∷ name ∷ rest) o.1) next.1
      ∙ elim (Bool-cases
          (other.is_tenant_dir && (other.tenant_name =ˢ tenant && lists_in other.entries name))) [
            | inl k ↦
                tenants_stay paths tenant name rest tenants _ (tenant_clear other disk k next.0)
            | inr k ↦
                tenants_clear tenants _ (ground (arith, h, k))
                  (sym (ap (λ (o : Outcome). o.0) next.1) ∙ e)
          ]
    where
      next :
          ((sweep_tenant paths other disk).0 ≡ none)
          × (sweep_tenants paths (other ∷ tenants) disk
              ≡ sweep_tenants paths tenants (sweep_tenant paths other disk).1)
      next = goes_on_after (sweep_tenant paths other disk) _ e

-- When the reconciliation reports no error, no file is left below a listed directory that has the name of
-- a file id and that is not the directory of a recorded source.
pub orphans_removed :
    (table : Table) (tenants : List Tenant) (disk : Disk) (tenant name : String) (rest : FilePath)
    → managed_file_id name ≡ true
    → referenced (Store.source_paths table) (file_directory tenant name) ≡ false
    → lists_file tenants tenant name ≡ true
    → (reconcile_storage (some table) (tenants_of tenants) disk).0 ≡ none
    → read_file
        ("files" ∷ tenant ∷ name ∷ rest)
        (reconcile_storage (some table) (tenants_of tenants) disk).1
      ≡ none
unfolding reconcile_storage
orphans_removed table tenants disk tenant name rest managed unreferenced listed ok =
    tenants_clear (Store.source_paths table) tenant name rest managed unreferenced tenants disk
      listed ok
