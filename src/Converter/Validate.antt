-- ===== src/Converter/Validate.antt =====
-- `Validate` of the converters: internal/converter/validation.go, office_common.go, and the checks of
-- text_common.go and image_common.go.
pub mod Exact
pub mod Tests
use llm_file_gateway.Prelude.{
  ℕ, zero, suc, Bool, true, false, Option, none, some, List, [], ◌∷◌, ◌⊎◌, inl, inr, ◌==◌, ◌&&◌,
  ◌||◌, not, take, if◌then◌else◌,
}
use llm_file_gateway.Prelude.Text.{String, ◌=ˢ◌, codes}
use llm_file_gateway.Files.Disk.{Bytes}
use llm_file_gateway.Files.Retry.{Failure, other}
use llm_file_gateway.Converter.Extract.{extract}
use llm_file_gateway.Converter.Formats.{
  Converter, pdf, doc, docx, ppt, pptx, xls, xlsx, xlsm, text, jpg, jpeg, png,
}
use llm_file_gateway.Converter.Convert.{Libraries}

-- The header has at least the length of the signature and begins with it.
abbrev pub begins_with : Bytes → Bytes → Bool
begins_with header [] = true
begins_with [] (s ∷ signature) = false
begins_with (b ∷ header) (s ∷ signature) = b == s && begins_with header signature

abbrev pub any_signature : Bytes → List Bytes → Bool
any_signature header [] = false
any_signature header (signature ∷ signatures) =
    begins_with header signature || any_signature header signatures

-- Of what the file holds; `none` is an error of the opening. io.ReadFull reports the end of an empty file as
-- io.EOF.
unfoldable pub validate_signature : List Bytes → Option Bytes → Option Failure
validate_signature signatures none = some (other "open source")
validate_signature signatures (some []) = some (other "EOF")
validate_signature signatures (some (b ∷ content)) =
    if any_signature (take 8 (b ∷ content)) signatures
    then none
    else some (other "file content does not match its extension")

abbrev pub zip_signature : Bytes
zip_signature = 80 ∷ 75 ∷ 3 ∷ 4 ∷ []

abbrev pub ole_signature : Bytes
ole_signature = 208 ∷ 207 ∷ 17 ∷ 224 ∷ 161 ∷ 177 ∷ 26 ∷ 225 ∷ []

unfoldable pub validate_image : Libraries → String → Option Bytes → Option Failure
validate_image libraries format none = some (other "file is not a valid image")
validate_image libraries format (some content) = elim (libraries.decode_config content) [
  | inl reason ↦ some (other "file is not a valid image")
  | inr header ↦
      if not (header.format =ˢ format)
      then some (other "file content does not match its extension")
      else none
]

unfoldable pub validate : Libraries → Converter → Option Bytes → Option Failure
unfolding validate_signature validate_image extract
validate libraries (pdf config) = validate_signature (codes "%PDF-" ∷ [])
validate libraries (doc config) = validate_signature (ole_signature ∷ [])
validate libraries (docx config) = validate_signature (zip_signature ∷ [])
validate libraries (ppt config) = validate_signature (ole_signature ∷ [])
validate libraries (pptx config) = validate_signature (zip_signature ∷ [])
validate libraries (xls config) = validate_signature (ole_signature ∷ [])
validate libraries (xlsx config) = validate_signature (zip_signature ∷ [])
validate libraries (xlsm config) = validate_signature (zip_signature ∷ [])
validate libraries (text extension media_type extractor) = λ content.
    elim (extract libraries.parsers extractor content) [
      | inl failure ↦ some failure
      | inr extracted ↦ none
    ]
validate libraries jpg = validate_image libraries "jpeg"
validate libraries jpeg = validate_image libraries "jpeg"
validate libraries png = validate_image libraries "png"
