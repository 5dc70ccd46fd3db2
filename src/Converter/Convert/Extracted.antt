-- ===== src/Converter/Convert/Extracted.antt =====
-- What a successful conversion of a text file leaves (`convertExtractedText` of internal/converter/text_common.go).
use llm_file_gateway.Prelude.{
  ℕ, ◌+◌, ◌≤◌, ◌≡◌, refl, sym, ap, subst, ◌∙◌, none, some, [], ◌∷◌, ◌++◌, ◌⊎◌, inl, inr, arith, ltb,
  ◌==◌, ==→eq, Bool-cases,
}
use llm_file_gateway.Prelude.Text.{String}
use llm_file_gateway.Store.{FilePath}
use llm_file_gateway.Files.Disk.{Disk, Bytes, read_file, write_file}
use llm_file_gateway.Files.Disk.Reads.{read_file-write_file}
use llm_file_gateway.Files.Retry.{Failure}
use llm_file_gateway.Converter.Utf8.{runes_from}
use llm_file_gateway.Converter.Extract.{Parsers, extract, read_utf8}
use llm_file_gateway.Converter.Formats.{Extractor, plain_text, extract_csv, extract_html}
use llm_file_gateway.Converter.Calls.{World}
use llm_file_gateway.Converter.Calls.Triples.{
  Triple, pure_lem, bind_lem, write_lem, read_lem, result_of_lem, from_lem, weaken_lem,
}
use llm_file_gateway.Converter.Output.{Manifest, new_manifest, validate_text_limit}
use llm_file_gateway.Converter.Output.Outside.{
  IsOutside, cleaning_keeps, artifact_keeps, manifest_keeps_artifact,
}
use llm_file_gateway.Converter.Output.Written.{with_output_directory_lem, write_result_lem}
use llm_file_gateway.Converter.Convert.{
  Options, Libraries, content_of, text_part, write_blocks, convert_text_document,
  convert_extracted_text, extract_file,
}
use llm_file_gateway.Converter.Convert.Parts.{then_check_lem, check_then_lem, unless_lem}

-- A file that cannot be read has no text.
unread :
    (parsers : Parsers) (extractor : Extractor) (text : Bytes)
    → extract parsers extractor none ≡ inr text
    → ⊥
unfolding extract read_utf8
unread parsers plain_text text e = cc e
unread parsers extract_csv text e = cc e
unread parsers extract_html text e = cc e

-- The limit was kept, where there is one.
limited :
    (text : Bytes) (limit : ℕ)
    → validate_text_limit (text ∷ []) limit ≡ none
    → (limit ≡ 0) ⊎ (runes_from 0 text ≤ limit)
unfolding validate_text_limit
limited text limit e = elim (Bool-cases (limit == 0)) [
  | inl zero_limit ↦ inl (==→eq limit 0 zero_limit)
  | inr h ↦ inr (elim (Bool-cases (ltb limit (runes_from 0 text + 0))) [
    | inl over ↦ absurd (ground (arith, e, h, over))
    | inr within ↦ ground (arith, within)
  ])
]

-- The part holds the text, which is what the extractor takes from the content of the source and is within the limit,
-- and the manifest has that one part and the digest of the content.
abbrev pub IsExtracted :
    Libraries → FilePath → FilePath → Bytes → String → Extractor → ℕ → Manifest → Disk → Type 0
IsExtracted libraries source output_dir content media_type extractor limit manifest disk =
    (text : Bytes) × (extract libraries.parsers extractor (some content) ≡ inr text)
    × ((limit ≡ 0) ⊎ (runes_from 0 text ≤ limit))
    × (read_file (output_dir ++ "part-0001.txt" ∷ []) disk ≡ some text)
    × (manifest
        ≡ new_manifest source media_type (libraries.encoding.digest content)
            (text_part 1 "part-0001.txt" ∷ []))

module _ (libraries : Libraries) (source output_dir : FilePath)
    (outside : IsOutside output_dir source) (content : Bytes) where
  abbrev Holds : Disk → Type 0
  Holds disk = read_file source disk ≡ some content

  extract_file_lem :
      (extractor : Extractor)
      → Triple Holds (extract_file libraries.parsers extractor source) (λ text disk.
        Holds disk × (extract libraries.parsers extractor (some content) ≡ inr text))
  unfolding extract_file
  extract_file_lem extractor = bind_lem (result_of_lem (read_lem source)) λ result.
      from_lem (extract libraries.parsers extractor (content_of result))
        λ disk p text e. was_read result disk p text e
    where
      was_read :
          (result : Failure ⊎ Bytes) (disk : Disk)
          → ((a : Bytes) → result ≡ inr a → Holds disk × (read_file source disk ≡ some a))
          → (text : Bytes) → extract libraries.parsers extractor (content_of result) ≡ inr text
          → Holds disk × (extract libraries.parsers extractor (some content) ≡ inr text)
      was_read (inl failure) disk p text e = absurd (unread libraries.parsers extractor text e)
      was_read (inr a) disk p text e =
          let (h, k) = p a refl in
          (h, subst (λ o. extract libraries.parsers extractor o ≡ inr text) (sym k ∙ h) e)

  -- The file of the text block.
  block_lem :
      (E : Type 0) (text : Bytes)
      → Triple
          (λ disk. Holds disk × E)
          (write_blocks output_dir 0 (text ∷ []))
          (λ parts disk.
            (Holds disk × E)
            × (read_file (output_dir ++ "part-0001.txt" ∷ []) disk ≡ some text)
            × (parts ≡ text_part 1 "part-0001.txt" ∷ []))
  unfolding write_blocks
  block_lem E text =
      bind_lem
        {Q = λ _ disk.
          (Holds disk × E) × (read_file (output_dir ++ "part-0001.txt" ∷ []) disk ≡ some text)}
        (write_lem _ text λ disk p. (
          (artifact_keeps output_dir source outside ("part-0001.txt" ∷ []) text disk ∙ p.0, p.1),
          read_file-write_file (output_dir ++ "part-0001.txt" ∷ []) text
              (write_file (output_dir ++ "part-0001.txt" ∷ []) [] disk),
        ))
        λ _.
          bind_lem
            (pure_lem
              {Q = λ parts disk.
                ((Holds disk × E)
                  × (read_file (output_dir ++ "part-0001.txt" ∷ []) disk ≡ some text))
                × (parts ≡ [])}
              [] λ disk p. (p, refl))
            λ parts.
              pure_lem _
                λ disk p. (p.0.0, p.0.1, ap (λ rest. text_part 1 "part-0001.txt" ∷ rest) p.1)

  text_document_lem :
      (media_type : String) (extractor : Extractor) (options : Options) (text : Bytes)
      → Triple
          (λ disk. Holds disk × (extract libraries.parsers extractor (some content) ≡ inr text))
          (convert_text_document libraries.encoding source output_dir media_type
            (text ∷ [])
            options)
          (IsExtracted libraries source output_dir content media_type extractor
            options.max_text_chars)
  unfolding convert_text_document write_blocks
  text_document_lem media_type extractor options text =
      unless_lem (validate_text_limit (text ∷ []) options.max_text_chars) λ within.
        with_output_directory_lem
          {R = λ disk. Holds disk × (extract libraries.parsers extractor (some content) ≡ inr text)}
          output_dir (λ disk p. (cleaning_keeps output_dir source outside disk ∙ p.0, p.1))
          (bind_lem (block_lem (extract libraries.parsers extractor (some content) ≡ inr text) text)
            λ parts.
              weaken_lem
                (λ manifest disk q.
                  let (hashed, (new, manifest_file), (same_source, e, file, same_parts)) = q in
                  (
                    text,
                    e,
                    limited text options.max_text_chars within,
                    file,
                    new
                        ∙ ap
                            (λ c.
                              new_manifest source media_type (libraries.encoding.digest c) parts)
                            same_source
                        ∙ ap (new_manifest source media_type (libraries.encoding.digest content))
                            same_parts,
                  ))
                (write_result_lem
                  {R = λ hashed disk.
                    (hashed ≡ content)
                    × (extract libraries.parsers extractor (some content) ≡ inr text)
                    × (read_file (output_dir ++ "part-0001.txt" ∷ []) disk ≡ some text)
                    × (parts ≡ text_part 1 "part-0001.txt" ∷ [])}
                  libraries.encoding source output_dir media_type parts
                  λ disk hashed encoded p k.
                    let ((held, e), file, same) = p in
                    (
                      cc (k, held),
                      e,
                      manifest_keeps_artifact output_dir source outside "part-0001.txt" encoded disk
                          ∙ file,
                      same,
                    )))

  converts_text :
      (media_type : String) (extractor : Extractor) (options : Options)
      → Triple Holds
          (convert_extracted_text libraries source output_dir media_type extractor options)
          (IsExtracted libraries source output_dir content media_type extractor
            options.max_text_chars)
  unfolding convert_extracted_text
  converts_text media_type extractor options = check_then_lem (
      bind_lem (result_of_lem (extract_file_lem extractor)) λ extracted. check_then_lem (
        bind_lem (from_lem extracted λ disk p. p)
          λ text. then_check_lem output_dir (text_document_lem media_type extractor options text)))

  -- Where the source lies outside the output directory and is not the manifest itself, a successful conversion of
  -- a text file leaves the extracted text in part-0001.txt, within the limit on its characters if there is one,
  -- and its manifest has that one part and the digest of the source.
  pub convert_extracted_text-IsExtracted :
      (media_type : String) (extractor : Extractor) (options : Options) (w : World)
      (manifest : Manifest)
      → read_file source w.disk ≡ some content
      → (convert_extracted_text libraries source output_dir media_type extractor options w).0
        ≡ inr manifest
      → IsExtracted libraries source output_dir content media_type extractor options.max_text_chars
          manifest
          (convert_extracted_text libraries source output_dir media_type extractor options w).1.disk
  convert_extracted_text-IsExtracted media_type extractor options w manifest h e =
      (converts_text media_type extractor options).run w h manifest e
