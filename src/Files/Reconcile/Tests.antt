-- ===== src/Files/Reconcile/Tests.antt =====
-- Runs of `ReconcileStorage` of internal/files/service.go over a table and the directory of an orphan.
use llm_file_gateway.Prelude.{◌≡◌, refl, inl, inr, true, false, some, none, List, [], ◌∷◌}
use llm_file_gateway.Prelude.Text.{String}
use llm_file_gateway.Store
use llm_file_gateway.Store.{FilePath}
use llm_file_gateway.Store.Tests.{uploads, first_upload}
use llm_file_gateway.Files.Disk.{Disk, read_file}
use llm_file_gateway.Files.Reconcile.{
  Entry, Tenant, tenants_of, managed_file_id, referenced, reconcile_storage, sweep_entries,
  sweep_tenants,
}
use llm_file_gateway.Files.Reconcile.Kept.{recorded_files_kept}
use llm_file_gateway.Files.Reconcile.Removed.{orphans_removed}

abbrev orphan : String
orphan = "file_00112233445566778899aabbccddeeff"

abbrev source_of : String → FilePath
source_of id = "files" ∷ "shared" ∷ id ∷ "source.txt" ∷ []

abbrev crashed : Disk
crashed =
    (source_of "file_a", 104 ∷ [])
    ∷ (source_of orphan, 105 ∷ [])
    ∷ (source_of "notes", 106 ∷ [])
    ∷ []

abbrev directory : String → Entry
directory name = record { name = name; is_dir = true; removable = true; survives = λ path. false }

abbrev listing : List Tenant
listing =
    record {
      tenant_name = "shared";
      is_tenant_dir = true;
      entries = some (directory "file_a" ∷ directory orphan ∷ directory "notes" ∷ []);
    }
    ∷ []

swept :
    reconcile_storage (some uploads) (tenants_of listing) crashed
    ≡ (none, (source_of "file_a", 104 ∷ []) ∷ (source_of "notes", 106 ∷ []) ∷ [])
unfolding reconcile_storage sweep_tenants sweep_entries referenced managed_file_id
    Store.source_paths
swept = refl

managed : managed_file_id orphan ≡ true
unfolding managed_file_id
managed = refl

unmanaged : managed_file_id "file_00112233445566778899aabbccddeefg" ≡ false
unfolding managed_file_id
unmanaged = refl

unreferenced : referenced (Store.source_paths uploads) ("files" ∷ "shared" ∷ orphan ∷ []) ≡ false
unfolding referenced Store.source_paths
unreferenced = refl

no_error : (reconcile_storage (some uploads) (tenants_of listing) crashed).0 ≡ none
unfolding reconcile_storage sweep_tenants sweep_entries referenced managed_file_id
    Store.source_paths
no_error = refl

recorded_files_kept_example :
    read_file (source_of "file_a") (reconcile_storage (some uploads) (tenants_of listing) crashed).1
    ≡ read_file (source_of "file_a") crashed
recorded_files_kept_example =
    recorded_files_kept uploads (tenants_of listing) crashed "shared" "file_a" ("source.txt" ∷ [])
      (inr (first_upload, "source.txt", inl refl, refl))

orphans_removed_example :
    read_file (source_of orphan) (reconcile_storage (some uploads) (tenants_of listing) crashed).1
    ≡ none
orphans_removed_example =
    orphans_removed uploads listing crashed "shared" orphan ("source.txt" ∷ []) managed unreferenced
      refl no_error
