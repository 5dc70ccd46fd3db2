-- ===== src/Files/Reconcile/Reads.antt =====
-- Paths below the directories that `ReconcileStorage` of internal/files/service.go removes.
use llm_file_gateway.Prelude.{◌≡◌, ◌&&◌, List, ◌∷◌, arith}
use llm_file_gateway.Prelude.Text.{String, ◌=ˢ◌, eq_refl}
use llm_file_gateway.Store.{FilePath}
use llm_file_gateway.Files.Disk.{is_below}
use llm_file_gateway.Files.Reconcile.{Entry, file_directory}

module _ (paths : List FilePath) (tenant name : String) (rest : FilePath) where
  -- A file in the directory of a tenant's file.
  abbrev artifact : FilePath
  artifact = "files" ∷ tenant ∷ name ∷ rest

  pub below :
      (other : String) (entry : Entry)
      → is_below (file_directory other entry.name) artifact
        ≡ (other =ˢ tenant && entry.name =ˢ name)
  below other entry = ground (arith, eq_refl "files")
