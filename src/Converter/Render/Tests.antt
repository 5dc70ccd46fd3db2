-- ===== src/Converter/Render/Tests.antt =====
-- Conversions of internal/converter that succeed and fail.
use llm_file_gateway.Prelude.{
  ◌≤◌, arith, ℕ, ◌≡◌, refl, Bool, true, false, some, List, [], ◌∷◌, ◌++◌, inl, inr, ◌⊎◌,
}
use llm_file_gateway.Prelude.Text.{codes}
use llm_file_gateway.Store.{FilePath}
use llm_file_gateway.Files.Disk.{write_file}
use llm_file_gateway.Files.Retry.{other}
use llm_file_gateway.Converter.Utf8.{rune_width, valid_from, runes_from}
use llm_file_gateway.Converter.Extract.{nil, other_node, read_utf8, extract}
use llm_file_gateway.Converter.Formats.{Converter, text, pdf, plain_text, default_converter_config}
use llm_file_gateway.Converter.Calls.{
  World, ◌>>=◌, attempt, attempt_removal, modify, gets, write, read, result_of,
}
use llm_file_gateway.Converter.Output.{
  Manifest, new_manifest, validate_text_limit, remove_conversion_output, with_output_directory,
  write_result,
}
use llm_file_gateway.Converter.Output.Left.{IsClean}
use llm_file_gateway.Converter.Convert.{
  Options, Libraries, unless, text_part, write_blocks, convert_text_document, clean_if_canceled,
  extract_file, convert_extracted_text, hash_file,
}
use llm_file_gateway.Converter.Convert.Succeeds.{convert_extracted_text_succeeds}
use llm_file_gateway.Converter.Convert.Extracted.{IsExtracted, convert_extracted_text-IsExtracted}
use llm_file_gateway.Converter.Render.{
  Renderer, render, extract_text, without_extension, write_text, write_pages,
  convert_rendered_document, convert,
}
use llm_file_gateway.Converter.Render.Converted.{IsConverted, convert-IsConverted}
use llm_file_gateway.Converter.Render.Failed.{failed_conversion_clean}

abbrev libraries : Libraries
libraries = record {
  parsers = record {
    csv_records = λ content. inr [];
    parse_html = λ content. inr (other_node nil);
    lower = λ s. s;
  };
  encoding = record {
    digest = λ content. "digest";
    encode = λ manifest. codes manifest.document_name;
  };
  decode_config = λ content. inr (record { width = 1; height = 1; format = "png" });
}

abbrev source : FilePath
source = "file" ∷ "source" ∷ "a.txt" ∷ []

abbrev output_dir : FilePath
output_dir = "file" ∷ "output" ∷ []

-- One page, with its text.
abbrev one_page : Renderer
one_page = record {
  render_document = λ options from dir ok disk. (
    inr (record { path = dir ++ "page-1.png" ∷ []; page_number = 1; width = 5; height = 7 } ∷ []),
    write_file (dir ++ "page-1.png" ∷ []) (1 ∷ []) disk,
  );
  extract_document = λ options from ok disk. inr (λ number. some (codes "one"));
}

abbrev options : ℕ → Options
options limit = record { max_pages = 0; max_text_chars = limit; disable_text_extraction = false }

abbrev world : List Bool → World
world outcomes = record { disk = (source, codes "hi") ∷ []; outcomes = outcomes; stuck = false }

abbrev plain : Converter
plain = text ".txt" "text/plain" plain_text

abbrev text_manifest : Manifest
text_manifest = new_manifest source "text/plain" "digest" (text_part 1 "part-0001.txt" ∷ [])

pdf_converted :
    (convert libraries one_page
      (pdf default_converter_config)
      source
      output_dir
      (options 0)
      (world [])).1.disk
    ≡ ("file" ∷ "manifest.json" ∷ [], codes "a.txt")
      ∷ ("file" ∷ "output" ∷ "page-1.txt" ∷ [], codes "one")
      ∷ ("file" ∷ "output" ∷ "page-1.png" ∷ [], 1 ∷ [])
      ∷ (source, codes "hi")
      ∷ []
unfolding convert convert_rendered_document ◌>>=◌ with_output_directory remove_conversion_output
    attempt attempt_removal render extract_text write_pages write_text without_extension hash_file
    write_result read write gets modify
pdf_converted = refl

-- The call fails that writes the text.
abbrev write_fails : List Bool
write_fails = true ∷ true ∷ true ∷ true ∷ true ∷ true ∷ true ∷ false ∷ []

text_converted :
    (convert libraries one_page plain source output_dir (options 2) (world [])).0
    ≡ inr text_manifest
unfolding convert convert_extracted_text convert_text_document unless clean_if_canceled extract_file
    extract read_utf8 valid_from rune_width runes_from validate_text_limit write_blocks ◌>>=◌
    with_output_directory remove_conversion_output attempt attempt_removal write_result read write
    gets modify result_of
text_converted = refl

text_failed :
    (convert libraries one_page plain source output_dir (options 2) (world write_fails)).0
    ≡ inl (other "write file")
unfolding convert convert_extracted_text convert_text_document unless clean_if_canceled extract_file
    extract read_utf8 valid_from rune_width runes_from validate_text_limit write_blocks ◌>>=◌
    with_output_directory remove_conversion_output attempt attempt_removal write_result read write
    gets modify result_of
text_failed = refl

text_not_stuck :
    (convert libraries one_page plain source output_dir (options 2) (world write_fails)).1.stuck
    ≡ false
unfolding convert convert_extracted_text convert_text_document unless clean_if_canceled extract_file
    extract read_utf8 valid_from rune_width runes_from validate_text_limit write_blocks ◌>>=◌
    with_output_directory remove_conversion_output attempt attempt_removal write_result read write
    gets modify result_of
text_not_stuck = refl

convert-IsConverted_example :
    IsConverted libraries.encoding source output_dir "text/plain" text_manifest
      (convert libraries one_page plain source output_dir (options 2) (world [])).1.disk
convert-IsConverted_example =
    convert-IsConverted libraries one_page plain source output_dir (options 2) (world [])
      text_manifest text_converted

failed_conversion_clean_example :
    ((convert libraries one_page plain source output_dir (options 2) (world write_fails)).1.disk
      ≡ (world write_fails).disk)
    ⊎ IsClean output_dir
        (convert libraries one_page plain source output_dir (options 2) (world write_fails)).1.disk
failed_conversion_clean_example =
    failed_conversion_clean libraries one_page plain source output_dir (options 2)
      (world write_fails) (other "write file") text_failed text_not_stuck

hi_extracted : extract libraries.parsers plain_text (some (codes "hi")) ≡ inr (codes "hi")
unfolding extract read_utf8 valid_from rune_width
hi_extracted = refl

hi_short : runes_from 0 (codes "hi") ≤ 2
unfolding runes_from rune_width
hi_short = omega arith

text_extracted :
    (convert_extracted_text libraries source output_dir "text/plain" plain_text
      (options 2)
      (world [])).0
    ≡ inr text_manifest
unfolding convert_extracted_text convert_text_document unless clean_if_canceled extract_file extract
    read_utf8 valid_from rune_width runes_from validate_text_limit write_blocks ◌>>=◌
    with_output_directory remove_conversion_output attempt attempt_removal write_result read write
    gets modify result_of
text_extracted = refl

convert_extracted_text-IsExtracted_example :
    IsExtracted libraries source output_dir
      (codes "hi")
      "text/plain"
      plain_text
      2
      text_manifest
      (convert_extracted_text libraries source output_dir "text/plain" plain_text
        (options 2)
        (world [])).1.disk
convert_extracted_text-IsExtracted_example =
    convert_extracted_text-IsExtracted libraries source output_dir (refl, refl) (codes "hi")
      "text/plain" plain_text (options 2) (world []) text_manifest refl text_extracted

convert_extracted_text_succeeds_example :
    (convert_extracted_text libraries source output_dir "text/plain" plain_text
      (options 2)
      (world [])).0
    ≡ inr text_manifest
convert_extracted_text_succeeds_example =
    convert_extracted_text_succeeds libraries source output_dir (refl, refl) (codes "hi")
      "text/plain" plain_text (options 2) (codes "hi") (world []).disk refl hi_extracted
      (inr hi_short)
