-- ===== src/Converter/Output/Written.antt =====
-- What the shared steps of the conversions (internal/converter/util.go) leave on the disk when they succeed.
use llm_file_gateway.Prelude.{◌≡◌, refl, some, List, [], ◌⊎◌, inl, inr}
use llm_file_gateway.Prelude.Text.{String}
use llm_file_gateway.Store.{FilePath}
use llm_file_gateway.Files.Disk.{Disk, Bytes, remove_all, read_file, write_file}
use llm_file_gateway.Files.Disk.Reads.{read_file-write_file}
use llm_file_gateway.Files.Retry.{Failure}
use llm_file_gateway.Converter.Calls.{World, Action, remove_file}
use llm_file_gateway.Converter.Calls.Triples.{
  Triple, pure_lem, bind_lem, attempt_lem, removal_lem, write_lem, read_lem,
}
use llm_file_gateway.Converter.Output.{
  ManifestPart, Manifest, Encoding, new_manifest, manifest_path, remove_conversion_output, clean_up,
  with_output_directory, write_result,
}

module _ {A : Type 0} (Q : A → Disk → Type 0) (output_dir : FilePath) where
  cleaned :
      (r : (Failure ⊎ A) × World) (a : A)
      → (r.0 ≡ inr a → Q a r.1.disk)
      → (clean_up output_dir r).0 ≡ inr a
      → Q a (clean_up output_dir r).1.disk
  cleaned (inl failure, w) a h e = absurd (cc e)
  cleaned (inr result, w) a h e = h e

module _ {A : Type 0} {P : Disk → Type 0} {Q : A → Disk → Type 0} (output_dir : FilePath) where
  -- Nothing is cleaned up after a success.
  pub clean_up_lem : {m : Action A} → Triple P m Q → Triple P (λ w. clean_up output_dir (m w)) Q
  clean_up_lem {m} h = record { run = λ w p a. cleaned Q output_dir (m w) a (h.run w p a) }

module _ {A : Type 0} {P R : Disk → Type 0} {Q : A → Disk → Type 0} (output_dir : FilePath) where
  pub with_output_directory_lem :
      {m : Action A}
      → ((disk : Disk)
          → P disk
          → R (remove_file (manifest_path output_dir) (remove_all output_dir disk)))
      → Triple R m Q
      → Triple P (with_output_directory output_dir m) Q
  unfolding with_output_directory remove_conversion_output
  with_output_directory_lem h k = bind_lem (removals h) λ _.
      bind_lem (attempt_lem "create output") λ _. clean_up_lem output_dir (
        bind_lem k λ result.
          bind_lem {Q = λ _. Q result} (attempt_lem "secure permissions")
            λ _. pure_lem result λ disk q. q)
    where
      removals :
          ((disk : Disk)
            → P disk
            → R (remove_file (manifest_path output_dir) (remove_all output_dir disk)))
          → Triple P (remove_conversion_output output_dir) (λ _. R)
      removals h =
          bind_lem {Q = λ _ disk. R (remove_file (manifest_path output_dir) disk)}
            (removal_lem "remove output" (remove_all output_dir) h)
            λ _. removal_lem "remove manifest" (remove_file (manifest_path output_dir)) λ disk r. r

-- The manifest is the new one, for what the source holds, and its file is the encoding of it.
abbrev pub IsWritten :
    Encoding → FilePath → FilePath → String → List ManifestPart → Bytes → Manifest → Disk → Type 0
IsWritten encoding source output_dir media_type parts content manifest disk =
    (manifest ≡ new_manifest source media_type (encoding.digest content) parts)
    × (read_file (manifest_path output_dir) disk ≡ some (encoding.encode manifest))

module _ {P : Disk → Type 0} {R : Bytes → Disk → Type 0} (encoding : Encoding)
    (source output_dir : FilePath) (media_type : String) (parts : List ManifestPart) where
  pub write_result_lem :
      ((disk : Disk) (content text : Bytes)
        → P disk
        → read_file source disk ≡ some content
        → R content (
            write_file
              (manifest_path output_dir)
              text
              (write_file (manifest_path output_dir) [] disk)))
      → Triple P (write_result encoding source output_dir media_type parts) (λ manifest disk.
        (content : Bytes) × IsWritten encoding source output_dir media_type parts content manifest
          disk
        × R content disk)
  unfolding write_result
  write_result_lem h = bind_lem (read_lem source) λ content.
      let manifest = new_manifest source media_type (encoding.digest content) parts in
      bind_lem
        {Q = λ _ disk.
          (read_file (manifest_path output_dir) disk ≡ some (encoding.encode manifest))
          × R content disk}
        (write_lem (manifest_path output_dir) (encoding.encode manifest) λ disk p. (
          read_file-write_file (manifest_path output_dir) (encoding.encode manifest)
              (write_file (manifest_path output_dir) [] disk),
          h disk content (encoding.encode manifest) p.0 p.1,
        ))
        λ _. pure_lem manifest λ disk p. (content, (refl, p.0), p.1)
