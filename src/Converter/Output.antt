-- ===== src/Converter/Output.antt =====
-- The output directory of a conversion and its manifest: internal/converter/util.go and manifest.go.
pub mod Left
pub mod Outside
pub mod Written
use llm_file_gateway.Prelude.{
  ℕ, ◌+◌, Bool, true, false, Option, none, some, List, [], ◌∷◌, ◌++◌, ◌⊎◌, inl, inr, ltb, ◌==◌,
  ◌&&◌, not, if◌then◌else◌,
}
use llm_file_gateway.Prelude.Text.{String}
use llm_file_gateway.Store.{FilePath}
use llm_file_gateway.Files.Disk.{Disk, Bytes, parent, remove_all, write_file}
use llm_file_gateway.Files.Retry.{Failure, text_limit}
use llm_file_gateway.Converter.Utf8.{runes_from}
use llm_file_gateway.Converter.Calls.{
  World, Action, pure, fail, continue, ◌>>=◌, ◌>>◌, attempt, attempt_removal, write, read,
  remove_file,
}

pub record ManifestPart : Type 0 where
  pub part_number : ℕ
  pub page_number : Option ℕ
  pub text_path : String
  pub image_path : Option String
  pub width : Option ℕ
  pub height : Option ℕ
  pub media_type : Option String
  pub sha256 : Option String

-- Of a manifest with one document; the schema version is 1, the version of the converter a constant, and there
-- are no warnings.
pub record Manifest : Type 0 where
  pub schema_version : ℕ
  pub converter_version : String
  pub source_media_type : String
  pub source_sha256 : String
  pub document_name : String
  pub parts : List ManifestPart

-- filepath.Base of a path below the data directory.
abbrev pub last_of : FilePath → String
last_of [] = "."
last_of (element ∷ []) = element
last_of (element ∷ next ∷ path) = last_of (next ∷ path)

abbrev pub new_manifest : FilePath → String → String → List ManifestPart → Manifest
new_manifest source media_type digest parts = record {
  schema_version = 1;
  converter_version = "2026.09.28";
  source_media_type = media_type;
  source_sha256 = digest;
  document_name = last_of source;
  parts = parts;
}

abbrev pub manifest_path : FilePath → FilePath
manifest_path output_dir = parent output_dir ++ "manifest.json" ∷ []

-- `validateTextLimit`: 0 means that there is no limit.
abbrev runes_of : List Bytes → ℕ
runes_of [] = 0
runes_of (text ∷ texts) = runes_from 0 text + runes_of texts

unfoldable pub validate_text_limit : List Bytes → ℕ → Option Failure
validate_text_limit texts limit =
    if limit == 0
    then none
    else if ltb limit (runes_of texts)
    then some (text_limit limit)
    else none

unfoldable pub remove_conversion_output : FilePath → Action (Unit {0})
unfolding ◌>>=◌ attempt_removal
remove_conversion_output output_dir = do
  attempt_removal "remove output" (remove_all output_dir)
  attempt_removal "remove manifest" (remove_file (manifest_path output_dir))

-- The deferred call: what a failed conversion wrote is removed, and an error of that is ignored.
abbrev pub clean_up : {A : Type 0} → FilePath → (Failure ⊎ A) × World → (Failure ⊎ A) × World
clean_up output_dir (inr result, w) = (inr result, w)
clean_up output_dir (inl failure, w) = (inl failure, (remove_conversion_output output_dir w).1)

-- The permissions are set by a walk over the directory, which may fail.
unfoldable pub with_output_directory : {A : Type 0} → FilePath → Action A → Action A
unfolding ◌>>=◌
with_output_directory output_dir convert = do
  remove_conversion_output output_dir
  attempt "create output"
  λ w.
      clean_up output_dir
        ((convert >>= λ result. attempt "secure permissions" >>= λ _. pure result) w)

-- The parameters: SHA-256 in hexadecimal, and the JSON text of a manifest with its line feed.
pub record Encoding : Type 0 where
  pub digest : Bytes → String
  pub encode : Manifest → Bytes

-- `writeResult`; the result is the manifest, which holds the parts.
unfoldable pub write_result :
    Encoding → FilePath → FilePath → String → List ManifestPart → Action Manifest
unfolding ◌>>=◌ read write
write_result encoding source output_dir media_type parts = do
  content ← read source
  let manifest = new_manifest source media_type (encoding.digest content) parts
  write (manifest_path output_dir) (encoding.encode manifest)
  pure manifest
