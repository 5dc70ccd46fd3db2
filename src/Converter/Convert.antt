-- ===== src/Converter/Convert.antt =====
-- The conversions of texts and images: internal/converter/text_common.go, image_common.go, the two functions
-- `convertTextDocument` and `convertImageDocument` of converter.go, and `copyFile`, `hashFile` and `imageSize`
-- of util.go. Width and height stand in a manifest only with an image.
pub mod Parts
pub mod Extracted
pub mod Succeeds
use llm_file_gateway.Prelude.{
  ℕ, zero, suc, ◌+◌, ◌-◌, Bool, true, false, Option, none, some, List, [], ◌∷◌, ◌++◌, ◌⊎◌, inl, inr,
  ltb, if◌then◌else◌,
}
use llm_file_gateway.Prelude.Text.{String, ◌+ˢ◌, decimal, ext}
use llm_file_gateway.Store.{FilePath}
use llm_file_gateway.Files.Disk.{Disk, Bytes, read_file}
use llm_file_gateway.Files.Retry.{Failure, other}
use llm_file_gateway.Converter.Extract.{Parsers, extract}
use llm_file_gateway.Converter.Formats.{Extractor}
use llm_file_gateway.Converter.Calls.{
  World, Action, pure, fail, continue, ◌>>=◌, ◌>>◌, attempt, check_context, write, read, result_of,
  from,
}
use llm_file_gateway.Converter.Output.{
  ManifestPart, Manifest, Encoding, last_of, validate_text_limit, clean_up, with_output_directory,
  write_result,
}

-- Here 0 pages or characters stand for no limit.
pub record Options : Type 0 where
  pub max_pages : ℕ
  pub max_text_chars : ℕ
  pub disable_text_extraction : Bool

-- What image.DecodeConfig says of an image.
pub record Header : Type 0 where
  pub width : ℕ
  pub height : ℕ
  pub format : String

-- The packages image and strings as the conversions use them.
pub record Libraries : Type 0 where
  pub parsers : Parsers
  pub encoding : Encoding
  pub decode_config : Bytes → String ⊎ Header

-- %04d
abbrev padded : ℕ → String
padded n =
    (if ltb n 10 then "000" else if ltb n 100 then "00" else if ltb n 1000 then "0" else "")
    +ˢ decimal n

abbrev pub part_name : ℕ → String
part_name n = "part-" +ˢ padded n +ˢ ".txt"

abbrev pub text_part : ℕ → String → ManifestPart
text_part number name = record {
  part_number = number;
  page_number = none;
  text_path = name;
  image_path = none;
  width = none;
  height = none;
  media_type = none;
  sha256 = none;
}

-- The text blocks from an index on.
unfoldable pub write_blocks : FilePath → ℕ → List Bytes → Action (List ManifestPart)
unfolding ◌>>=◌ write
write_blocks output_dir index [] = pure []
write_blocks output_dir index (text ∷ texts) = do
  write (output_dir ++ part_name (index + 1) ∷ []) text
  parts ← write_blocks output_dir (index + 1) texts
  pure (text_part (index + 1) (part_name (index + 1)) ∷ parts)

-- An early return of an error.
unfoldable pub unless : Option Failure → Action Manifest → Action Manifest
unless (some failure) m = fail failure
unless none m = m

unfoldable pub convert_text_document :
    Encoding → FilePath → FilePath → String → List Bytes → Options → Action Manifest
unfolding ◌>>=◌ unless validate_text_limit with_output_directory write_blocks write_result
convert_text_document encoding source output_dir media_type texts options =
    unless (validate_text_limit texts options.max_text_chars) (
      with_output_directory output_dir do
        parts ← write_blocks output_dir 0 texts
        write_result encoding source output_dir media_type parts)

-- A last look at the context: where it is done, what was written is removed.
unfoldable pub clean_if_canceled : FilePath → Action (Unit {0})
clean_if_canceled output_dir w = clean_up output_dir (check_context w)

abbrev pub content_of : Failure ⊎ Bytes → Option Bytes
content_of (inl failure) = none
content_of (inr content) = some content

-- An extractor on a file.
unfoldable pub extract_file : Parsers → Extractor → FilePath → Action Bytes
unfolding ◌>>=◌ result_of read extract
extract_file parsers extractor source = do
  content ← result_of (read source)
  from (extract parsers extractor (content_of content))

unfoldable pub convert_extracted_text :
    Libraries → FilePath → FilePath → String → Extractor → Options → Action Manifest
unfolding ◌>>=◌ result_of extract_file convert_text_document clean_if_canceled
convert_extracted_text libraries source output_dir media_type extractor options = do
  check_context
  extracted ← result_of (extract_file libraries.parsers extractor source)
  check_context
  text ← from extracted
  result ←
      result_of
        (convert_text_document libraries.encoding source output_dir media_type (text ∷ []) options)
  clean_if_canceled output_dir
  from result

abbrev pub decoded : String ⊎ Header → Action Header
decoded (inl reason) = fail (other reason)
decoded (inr header) = pure header

unfoldable pub image_size : Libraries → FilePath → Action Header
unfolding ◌>>=◌ read
image_size libraries source = do content ← read source; decoded (libraries.decode_config content)

unfoldable pub copy_file : FilePath → FilePath → Action (Unit {0})
unfolding ◌>>=◌ read write
copy_file source destination = do
  content ← read source
  write destination content
  attempt "close file"

unfoldable pub hash_file : Encoding → FilePath → Action String
unfolding ◌>>=◌ read
hash_file encoding path = do content ← read path; pure (encoding.digest content)

abbrev pub image_part : String → ℕ → ℕ → String → String → ManifestPart
image_part name width height media_type digest = record {
  part_number = 1;
  page_number = none;
  text_path = "part-0001.txt";
  image_path = some name;
  width = some width;
  height = some height;
  media_type = some media_type;
  sha256 = some digest;
}

abbrev pub image_name : Parsers → FilePath → String
image_name parsers source = "image-0001" +ˢ parsers.lower (ext (last_of source))

unfoldable pub convert_image_document :
    Libraries → FilePath → FilePath → String → ℕ → ℕ → Action Manifest
unfolding ◌>>=◌ with_output_directory copy_file write hash_file write_result
convert_image_document libraries source output_dir media_type width height =
    let name = image_name libraries.parsers source in
    with_output_directory output_dir do
      copy_file source (output_dir ++ name ∷ [])
      write (output_dir ++ "part-0001.txt" ∷ []) []
      digest ← hash_file libraries.encoding (output_dir ++ name ∷ [])
      write_result libraries.encoding source output_dir media_type
          (image_part name width height media_type digest ∷ [])

unfoldable pub convert_image : Libraries → FilePath → FilePath → String → Action Manifest
unfolding ◌>>=◌ result_of image_size convert_image_document clean_if_canceled
convert_image libraries source output_dir media_type = do
  check_context
  size ← result_of (image_size libraries source)
  check_context
  header ← from size
  result ←
      result_of
        (convert_image_document libraries source output_dir media_type header.width header.height)
  clean_if_canceled output_dir
  from result
