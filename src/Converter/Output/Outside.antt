-- ===== src/Converter/Output/Outside.antt =====
-- Which files the steps of a conversion (internal/converter/util.go) leave alone.
use llm_file_gateway.Prelude.{
  ◌≡◌, refl, ap, ◌∙◌, true, false, not, [], ◌∷◌, ◌++◌, inl, inr, arith, Bool-cases,
}
use llm_file_gateway.Prelude.Text.{String, eq_refl}
use llm_file_gateway.Store.{FilePath}
use llm_file_gateway.Files.Disk.{
  Disk, Bytes, same_path, is_below, remove_all, read_file, write_file,
}
use llm_file_gateway.Files.Disk.Reads.{same_path→eq, read_file-select, read_file-write_file_other}
use llm_file_gateway.Converter.Calls.{remove_file}
use llm_file_gateway.Converter.Output.{manifest_path}

-- A file that the conversion does not touch: neither in the output directory nor the manifest.
abbrev pub IsOutside : FilePath → FilePath → Type 0
IsOutside output_dir path =
    (is_below output_dir path ≡ false) × (same_path (manifest_path output_dir) path ≡ false)

is_below-append : (dir rest : FilePath) → is_below dir (dir ++ rest) ≡ true
is_below-append [] rest = refl
is_below-append (element ∷ dir) rest = rw (eq_refl element) (is_below-append dir rest)

-- Artifacts lie in the output directory, and so neither on a file outside it nor on the manifest.
artifact-outside :
    (output_dir rest path : FilePath)
    → is_below output_dir path ≡ false
    → same_path (output_dir ++ rest) path ≡ false
artifact-outside output_dir rest path h = elim (Bool-cases (same_path (output_dir ++ rest) path)) [
  | inr e ↦ e
  | inl e ↦ absurd (
      cc (
        h,
        is_below-append output_dir rest,
        ap (is_below output_dir) (same_path→eq (output_dir ++ rest) path e),
      ))
]

manifest-artifact :
    (output_dir : FilePath) (name : String)
    → same_path (manifest_path output_dir) (output_dir ++ name ∷ []) ≡ true
    → output_dir ≡ []
manifest-artifact [] name h = refl
manifest-artifact (element ∷ []) name h = absurd (ground (arith, h))
manifest-artifact (element ∷ next ∷ dir) name h =
    absurd (cc (manifest-artifact (next ∷ dir) name (ground (arith, h))))

-- What a successful conversion leaves of a file outside.
module _ (output_dir path : FilePath) (outside : IsOutside output_dir path) where
  pub cleaning_keeps :
      (disk : Disk)
      → read_file path (remove_file (manifest_path output_dir) (remove_all output_dir disk))
        ≡ read_file path disk
  cleaning_keeps disk =
      read_file-select (λ p. not (same_path (manifest_path output_dir) p)) path
        (remove_all output_dir disk) (rw (outside.1) refl)
      ∙ read_file-select (λ p. not (is_below output_dir p)) path disk (rw (outside.0) refl)

written_other :
    (path other : FilePath) (content : Bytes) (disk : Disk)
    → same_path other path ≡ false
    → read_file path (write_file other content (write_file other [] disk)) ≡ read_file path disk
written_other path other content disk h =
    read_file-write_file_other path other content (write_file other [] disk) h
    ∙ read_file-write_file_other path other [] disk h

module _ (output_dir path : FilePath) (outside : IsOutside output_dir path) where
  -- Artifacts and the manifest are written beside it.
  pub artifact_keeps :
      (rest : FilePath) (content : Bytes) (disk : Disk)
      → read_file path
          (write_file (output_dir ++ rest) content (write_file (output_dir ++ rest) [] disk))
        ≡ read_file path disk
  artifact_keeps rest content disk =
      written_other path (output_dir ++ rest) content disk
        (artifact-outside output_dir rest path (outside.0))

  pub manifest_keeps :
      (content : Bytes) (disk : Disk)
      → read_file path (
          write_file
            (manifest_path output_dir)
            content
            (write_file (manifest_path output_dir) [] disk))
        ≡ read_file path disk
  manifest_keeps content disk =
      written_other path (manifest_path output_dir) content disk (outside.1)

  -- The manifest does not replace an artifact.
  pub manifest_keeps_artifact :
      (name : String) (content : Bytes) (disk : Disk)
      → read_file (output_dir ++ name ∷ []) (
          write_file
            (manifest_path output_dir)
            content
            (write_file (manifest_path output_dir) [] disk))
        ≡ read_file (output_dir ++ name ∷ []) disk
  manifest_keeps_artifact name content disk =
      written_other (output_dir ++ name ∷ []) (manifest_path output_dir) content disk
        (elim (Bool-cases (same_path (manifest_path output_dir) (output_dir ++ name ∷ []))) [
          | inr e ↦ e
          | inl e ↦
              absurd (
                cc (outside.0, ap (λ dir. is_below dir path) (manifest-artifact output_dir name e)))
        ])
