-- ===== src/Converter/Render/Converted.antt =====
-- What every converter of internal/converter leaves when it succeeds.
use llm_file_gateway.Prelude.{
  ℕ, ◌+◌, ◌≡◌, refl, sym, ap, subst, Option, some, List, [], ◌∷◌, ◌++◌, inr,
}
use llm_file_gateway.Prelude.Text.{String}
use llm_file_gateway.Store.{FilePath}
use llm_file_gateway.Files.Disk.{Disk, Bytes, read_file}
use llm_file_gateway.Converter.Formats.{
  ConverterConfig, Extractor, Converter, pdf, doc, docx, ppt, pptx, xls, xlsx, xlsm, text, jpg,
  jpeg, png, media_type_of,
}
use llm_file_gateway.Converter.Calls.{World, Action, from, result_of, write}
use llm_file_gateway.Converter.Calls.Triples.{Triple, pure_lem, bind_lem}
use llm_file_gateway.Converter.Output.{
  ManifestPart, Manifest, Encoding, last_of, manifest_path, validate_text_limit, write_result,
}
use llm_file_gateway.Converter.Output.Written.{with_output_directory_lem, write_result_lem}
use llm_file_gateway.Converter.Convert.{
  Options, Libraries, convert_text_document, convert_extracted_text, extract_file, image_size,
  copy_file, hash_file, image_name, convert_image_document, convert_image,
}
use llm_file_gateway.Converter.Convert.Parts.{
  IsNumbered, Anything, unless_lem, then_check_lem, check_then_lem, write_blocks_lem,
}
use llm_file_gateway.Converter.Render.{
  Renderer, Page, write_pages, write_text, render, extract_text, convert_rendered_document, convert,
}

-- The manifest file holds the manifest; the manifest names the source and its media type, and its parts are
-- numbered from 1 on.
abbrev pub IsConverted : Encoding → FilePath → FilePath → String → Manifest → Disk → Type 0
IsConverted encoding source output_dir media_type manifest disk =
    (read_file (manifest_path output_dir) disk ≡ some (encoding.encode manifest))
    × (manifest.source_media_type ≡ media_type)
    × (manifest.document_name ≡ last_of source)
    × IsNumbered 1 manifest.parts

-- An action of which only that it ran is used.
any_lem : {A : Type 0} {P : Disk → Type 0} (m : Action A) → Triple P m (λ _. Anything)
any_lem m = record { run = λ w p a e. tt }

module _ (libraries : Libraries) (source output_dir : FilePath) (media_type : String) where
  abbrev Converts : Action Manifest → Type 0
  Converts m = Triple Anything m (IsConverted libraries.encoding source output_dir media_type)

  finish_lem :
      {P : Disk → Type 0} (parts : List ManifestPart)
      → ((disk : Disk) → P disk → IsNumbered 1 parts)
      → Triple P
          (write_result libraries.encoding source output_dir media_type parts)
          (IsConverted libraries.encoding source output_dir media_type)
  finish_lem parts numbered = record {
    run = λ w p manifest e.
        let (content, (same, file), _) =
          (write_result_lem {P = λ disk. IsNumbered 1 parts} {R = λ _ _. IsNumbered 1 parts}
              libraries.encoding source output_dir media_type parts (λ _ _ _ n _. n)).run
            w (numbered w.disk p) manifest e in
        (
          file,
          ap (λ m. m.source_media_type) same,
          ap (λ m. m.document_name) same,
          subst (λ m. IsNumbered 1 m.parts) (sym same) (numbered w.disk p),
        );
  }

  text_document :
      (texts : List Bytes) (options : Options)
      → Converts
          (convert_text_document libraries.encoding source output_dir media_type texts options)
  unfolding convert_text_document
  text_document texts options = unless_lem (validate_text_limit texts options.max_text_chars) λ _.
      with_output_directory_lem {R = Anything} output_dir (λ _ _. tt)
        (bind_lem (write_blocks_lem output_dir 0 texts) λ parts. finish_lem parts λ disk n. n)

  pub extracted_text :
      (extractor : Extractor) (options : Options)
      → Converts (convert_extracted_text libraries source output_dir media_type extractor options)
  unfolding convert_extracted_text
  extracted_text extractor options = check_then_lem (
      bind_lem (any_lem (result_of (extract_file libraries.parsers extractor source))) λ extracted.
        check_then_lem (
          bind_lem {Q = λ _. Anything} (any_lem (from extracted))
            λ content. then_check_lem output_dir (text_document (content ∷ []) options)))

  image_document :
      (width height : ℕ)
      → Converts (convert_image_document libraries source output_dir media_type width height)
  unfolding convert_image_document
  image_document width height =
      let name = image_name libraries.parsers source in
      with_output_directory_lem {R = Anything} output_dir (λ _ _. tt)
        (bind_lem (any_lem (copy_file source (output_dir ++ name ∷ []))) λ _.
          bind_lem (any_lem (write (output_dir ++ "part-0001.txt" ∷ []) [])) λ _.
            bind_lem (any_lem (hash_file libraries.encoding (output_dir ++ name ∷ [])))
              λ digest. finish_lem _ λ disk p. (refl, tt))

  pub image : Converts (convert_image libraries source output_dir media_type)
  unfolding convert_image
  image = check_then_lem (
      bind_lem (any_lem (result_of (image_size libraries source))) λ decoded. check_then_lem (
        bind_lem {Q = λ _. Anything} (any_lem (from decoded))
          λ header. then_check_lem output_dir (image_document header.width header.height)))

  pages_lem :
      (config : ConverterConfig) (texts : Option (ℕ → Option Bytes)) (index : ℕ) (pages : List Page)
      → Triple Anything
          (write_pages libraries config output_dir texts index pages)
          (λ parts _. IsNumbered (index + 1) parts)
  unfolding write_pages
  pages_lem config texts index [] = pure_lem [] λ disk p. tt
  pages_lem config texts index (page ∷ pages) =
      bind_lem (any_lem (write_text output_dir texts page)) λ name.
        bind_lem (any_lem (hash_file libraries.encoding page.path)) λ digest.
          bind_lem (pages_lem config texts (index + 1) pages)
            λ parts. pure_lem _ λ disk p. (refl, p)

  pub rendered_document :
      (renderer : Renderer) (config : ConverterConfig) (options : Options)
      → Converts
          (convert_rendered_document libraries renderer source output_dir media_type config options)
  unfolding convert_rendered_document
  rendered_document renderer config options =
      with_output_directory_lem {R = Anything} output_dir (λ _ _. tt)
        (bind_lem (any_lem (render renderer config options source output_dir)) λ pages.
          bind_lem (any_lem (extract_text renderer config options source)) λ texts.
            bind_lem (pages_lem config texts 0 pages) λ parts. finish_lem parts λ disk n. n)

-- Of every converter, by what it calls.
converts :
    (libraries : Libraries) (renderer : Renderer) (converter : Converter)
    (source output_dir : FilePath) (options : Options)
    → Converts libraries source output_dir
        (media_type_of converter)
        (convert libraries renderer converter source output_dir options)
unfolding convert
converts libraries renderer (pdf config) source output_dir options =
    rendered_document libraries source output_dir _ renderer config options
converts libraries renderer (doc config) source output_dir options =
    rendered_document libraries source output_dir _ renderer config options
converts libraries renderer (docx config) source output_dir options =
    rendered_document libraries source output_dir _ renderer config options
converts libraries renderer (ppt config) source output_dir options =
    rendered_document libraries source output_dir _ renderer config options
converts libraries renderer (pptx config) source output_dir options =
    rendered_document libraries source output_dir _ renderer config options
converts libraries renderer (xls config) source output_dir options =
    rendered_document libraries source output_dir _ renderer config options
converts libraries renderer (xlsx config) source output_dir options =
    rendered_document libraries source output_dir _ renderer config options
converts libraries renderer (xlsm config) source output_dir options =
    rendered_document libraries source output_dir _ renderer config options
converts libraries renderer (text extension media_type extractor) source output_dir options =
    extracted_text libraries source output_dir media_type extractor options
converts libraries renderer jpg source output_dir options = image libraries source output_dir _
converts libraries renderer jpeg source output_dir options = image libraries source output_dir _
converts libraries renderer png source output_dir options = image libraries source output_dir _

-- Whatever the libraries do, and whichever calls fail: where the conversion of a file returns a manifest, the file
-- manifest.json beside the output directory holds the encoding of it, it has the media type of the converter and
-- the name of the source, and its parts are numbered from 1 on without a gap.
pub convert-IsConverted :
    (libraries : Libraries) (renderer : Renderer) (converter : Converter)
    (source output_dir : FilePath) (options : Options) (w : World) (manifest : Manifest)
    → (convert libraries renderer converter source output_dir options w).0 ≡ inr manifest
    → IsConverted libraries.encoding source output_dir
        (media_type_of converter)
        manifest
        (convert libraries renderer converter source output_dir options w).1.disk
convert-IsConverted libraries renderer converter source output_dir options w manifest e =
    (converts libraries renderer converter source output_dir options).run w tt manifest e
