-- ===== src/Converter/Convert/Succeeds.antt =====
-- When the conversion of a text file succeeds (`convertExtractedText` of internal/converter/text_common.go).
use llm_file_gateway.Prelude.{
  ℕ, ◌≤◌, ◌≡◌, refl, ap, ◌∙◌, false, none, some, [], ◌∷◌, ◌++◌, ◌⊎◌, inl, inr, arith, ◌==◌,
  Bool-cases,
}
use llm_file_gateway.Prelude.Text.{String}
use llm_file_gateway.Store.{FilePath}
use llm_file_gateway.Files.Disk.{Disk, Bytes, remove_all, read_file, write_file}
use llm_file_gateway.Files.Retry.{Failure}
use llm_file_gateway.Converter.Utf8.{runes_from}
use llm_file_gateway.Converter.Extract.{extract}
use llm_file_gateway.Converter.Formats.{Extractor}
use llm_file_gateway.Converter.Calls.{
  World, ◌>>=◌, check_context, from, attempt, attempt_removal, modify, gets, read, write,
  remove_file, result_of,
}
use llm_file_gateway.Converter.Output.{
  Manifest, new_manifest, manifest_path, validate_text_limit, remove_conversion_output,
  with_output_directory, write_result,
}
use llm_file_gateway.Converter.Output.Outside.{IsOutside, cleaning_keeps, artifact_keeps}
use llm_file_gateway.Converter.Convert.{
  Options, Libraries, text_part, unless, write_blocks, extract_file, clean_if_canceled,
  convert_text_document, convert_extracted_text,
}

abbrev in_order : Disk → World
in_order disk = record { disk = disk; outcomes = []; stuck = false }

within_limit :
    (text : Bytes) (limit : ℕ)
    → (limit ≡ 0) ⊎ (runes_from 0 text ≤ limit)
    → validate_text_limit (text ∷ []) limit ≡ none
unfolding validate_text_limit
within_limit text limit (inl e) = ground (arith, e)
within_limit text limit (inr h) = elim (Bool-cases (limit == 0)) [
  | inl e ↦ ground (arith, e)
  | inr e ↦ ground (arith, e, h)
]

module _ (libraries : Libraries) (source output_dir : FilePath)
    (outside : IsOutside output_dir source) (content : Bytes) where
  abbrev part : FilePath
  part = output_dir ++ "part-0001.txt" ∷ []

  abbrev written_text : Bytes → Disk → Disk
  written_text text disk =
      write_file part text
        (write_file part [] (remove_file (manifest_path output_dir) (remove_all output_dir disk)))

  source_kept :
      (text : Bytes) (disk : Disk)
      → read_file source disk ≡ some content
      → read_file source (written_text text disk) ≡ some content
  source_kept text disk h =
      artifact_keeps output_dir source outside ("part-0001.txt" ∷ []) text
        (remove_file (manifest_path output_dir) (remove_all output_dir disk))
      ∙ cleaning_keeps output_dir source outside disk
      ∙ h

  abbrev manifest : String → Manifest
  manifest media_type =
      new_manifest source media_type (libraries.encoding.digest content)
        (text_part 1 "part-0001.txt" ∷ [])

  -- The world afterwards.
  abbrev done : String → Bytes → Disk → World
  done media_type text disk = in_order (
      write_file (manifest_path output_dir) (libraries.encoding.encode (manifest media_type))
        (write_file (manifest_path output_dir) [] (written_text text disk)))

  document_succeeds :
      (media_type : String) (options : Options) (text : Bytes) (disk : Disk)
      → read_file source disk ≡ some content
      → validate_text_limit (text ∷ []) options.max_text_chars ≡ none
      → convert_text_document libraries.encoding source output_dir media_type
          (text ∷ [])
          options
          (in_order disk)
        ≡ (inr (manifest media_type), done media_type text disk)
  unfolding convert_text_document unless with_output_directory remove_conversion_output attempt
      attempt_removal ◌>>=◌ write_blocks write_result write read gets modify
  document_succeeds media_type options text disk h v = rw (v, source_kept text disk h) refl

  extraction_succeeds :
      (extractor : Extractor) (text : Bytes) (disk : Disk)
      → read_file source disk ≡ some content
      → extract libraries.parsers extractor (some content) ≡ inr text
      → extract_file libraries.parsers extractor source (in_order disk) ≡ (inr text, in_order disk)
  unfolding extract_file result_of attempt ◌>>=◌ read gets
  extraction_succeeds extractor text disk h e = rw (h, e) refl

  -- Where no call fails and the context stays open: a source outside the output directory whose text is extracted
  -- and is within the limit, if there is one, is converted.
  pub convert_extracted_text_succeeds :
      (media_type : String) (extractor : Extractor) (options : Options) (text : Bytes) (disk : Disk)
      → read_file source disk ≡ some content
      → extract libraries.parsers extractor (some content) ≡ inr text
      → (options.max_text_chars ≡ 0) ⊎ (runes_from 0 text ≤ options.max_text_chars)
      → (convert_extracted_text libraries source output_dir media_type extractor options
          (in_order disk)).0
        ≡ inr (manifest media_type)
  unfolding convert_extracted_text result_of clean_if_canceled attempt ◌>>=◌
  convert_extracted_text_succeeds media_type extractor options text disk h e limit =
      ap text_known (extraction_succeeds extractor text disk h e)
      ∙ ap finish (
          document_succeeds media_type options text disk h
            (within_limit text options.max_text_chars limit))
    where
      -- What is left to do after the two long steps.
      finish : (Failure ⊎ Manifest) × World → Failure ⊎ Manifest
      finish r = ((clean_if_canceled output_dir >>= λ _. from r.0) r.1).0

      text_known : (Failure ⊎ Bytes) × World → Failure ⊎ Manifest
      text_known r =
          ((check_context >>= λ _. from r.0 >>= λ found.
          result_of (
            convert_text_document libraries.encoding source output_dir media_type (found ∷ [])
              options)
          >>= λ result. clean_if_canceled output_dir >>= λ _. from result)
            r.1).0
