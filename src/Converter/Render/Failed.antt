-- ===== src/Converter/Render/Failed.antt =====
-- What a failed conversion of internal/converter leaves behind, for every converter.
use llm_file_gateway.Prelude.{
  ℕ, ◌≡◌, refl, Bool, true, false, Option, none, some, List, [], ◌∷◌, ◌++◌, ◌⊎◌, inl, inr,
}
use llm_file_gateway.Prelude.Text.{String}
use llm_file_gateway.Store.{FilePath}
use llm_file_gateway.Files.Disk.{Disk, Bytes}
use llm_file_gateway.Files.Retry.{Failure}
use llm_file_gateway.Converter.Extract.{extract}
use llm_file_gateway.Converter.Formats.{
  ConverterConfig, Extractor, Converter, pdf, doc, docx, ppt, pptx, xls, xlsx, xlsm, text, jpg,
  jpeg, png,
}
use llm_file_gateway.Converter.Calls.{
  World, Action, ◌>>=◌, ◌>>◌, attempt, check_context, write, result_of, from,
}
use llm_file_gateway.Converter.Calls.Outcomes.{
  Outcome, Ends, from_ends, bind_ends, IsSame, attempt_ends, read_ends, result_of_ends, weaken_ends,
  result_of-IsSame, from-IsSame,
}
use llm_file_gateway.Converter.Output.{
  Manifest, validate_text_limit, with_output_directory, write_result,
}
use llm_file_gateway.Converter.Output.Left.{IsClean, removal_cleans, failed_output_clean}
use llm_file_gateway.Converter.Convert.{
  Options, Libraries, Header, write_blocks, image_name, image_part, copy_file, hash_file,
  content_of, unless, decoded, clean_if_canceled, extract_file, image_size, convert_text_document,
  convert_extracted_text, convert_image_document, convert_image,
}
use llm_file_gateway.Converter.Render.{
  Renderer, render, extract_text, write_pages, convert_rendered_document, convert,
}

-- Where no removal failed, the disk is as it was, or there is neither an output file nor a manifest.
abbrev IsLeft : FilePath → Disk → World → Type 0
IsLeft output_dir disk w = w.stuck ≡ false → (w.disk ≡ disk) ⊎ IsClean output_dir w.disk

abbrev Whatever : {A : Type 0} → A → World → Type 0
Whatever a w = Unit

module _ (output_dir : FilePath) (disk : Disk) where
  abbrev Leaves : {A : Type 0} → Action A → Type 0
  Leaves m = Ends (IsSame disk) m Whatever (IsLeft output_dir disk)

  outcome-IsLeft :
      {A : Type 0} (r : (Failure ⊎ A) × World)
      → ((failure : Failure) → r.0 ≡ inl failure → r.1.stuck ≡ false → IsClean output_dir r.1.disk)
      → Outcome Whatever (IsLeft output_dir disk) r
  outcome-IsLeft (inl failure, w) h = λ k. inr (h failure refl k)
  outcome-IsLeft (inr a, w) h = tt

  output_left : {A : Type 0} (m : Action A) → Leaves (with_output_directory output_dir m)
  output_left m = record {
    run = λ w _.
        outcome-IsLeft (with_output_directory output_dir m w)
          λ failure. failed_output_clean output_dir failure m w;
  }

  IsSame-IsLeft : (w : World) → IsSame disk w → IsLeft output_dir disk w
  IsSame-IsLeft w h = λ _. inl h

  -- What keeps the disk may come before.
  first :
      {A B : Type 0} {m : Action A} {f : A → Action B}
      → Ends (IsSame disk) m (λ _. IsSame disk) (IsSame disk)
      → ((a : A) → Leaves (f a))
      → Leaves (m >>= f)
  first h k = bind_ends (weaken_ends IsSame-IsLeft h) k

  checked : {A : Type 0} {m : Action A} → Leaves m → Leaves (check_context >>= λ _. m)
  checked h = first (attempt_ends "context canceled") λ _. h

  valued :
      {A B : Type 0} {m : Action A} {f : A → Action B}
      → Ends (IsSame disk) m (λ _. IsSame disk) (IsSame disk)
      → ((a : A) → Leaves (f a))
      → Leaves (result_of m >>= λ result. check_context >>= λ _. from result >>= f)
  valued h k = bind_ends (result_of-IsSame h) λ result. checked (first (from-IsSame result) k)

  canceled :
      {A : Type 0} (result : Failure ⊎ A) (now : Disk) (outcomes : List Bool) (stuck : Bool)
      → let w : World = record { disk = now; outcomes = outcomes; stuck = stuck } in
        Outcome Whatever (IsLeft output_dir disk) (result, w)
        → Outcome
            (λ _ w. Outcome Whatever (IsLeft output_dir disk) (result, w))
            (IsLeft output_dir disk)
            (clean_if_canceled output_dir w)
  unfolding clean_if_canceled attempt
  canceled (inl failure) now [] stuck h = h
  canceled (inl failure) now (true ∷ outcomes) stuck h = h
  canceled (inr a) now [] stuck h = tt
  canceled (inr a) now (true ∷ outcomes) stuck h = tt
  canceled result now (false ∷ outcomes) stuck h = λ k.
      inr (removal_cleans output_dir (record { disk = now; outcomes = outcomes; stuck = stuck }) k)

  then_checked :
      {A : Type 0} {m : Action A}
      → Leaves m
      → Leaves (result_of m >>= λ result. clean_if_canceled output_dir >>= λ _. from result)
  then_checked h = bind_ends (result_of_ends h) λ result.
      bind_ends {S = λ _ w. Outcome Whatever (IsLeft output_dir disk) (result, w)}
        (record { run = λ w p. canceled result w.disk w.outcomes w.stuck p })
        λ _. from_ends result λ w p. p

  unless_left : {m : Action Manifest} (early : Option Failure) → Leaves m → Leaves (unless early m)
  unfolding unless
  unless_left (some failure) h = record { run = λ w p. IsSame-IsLeft w p }
  unless_left none h = h

module _ (libraries : Libraries) (source output_dir : FilePath) (disk : Disk) where
  extract_file-IsSame :
      (extractor : Extractor)
      → Ends
          (IsSame disk)
          (extract_file libraries.parsers extractor source)
          (λ _. IsSame disk)
          (IsSame disk)
  unfolding extract_file
  extract_file-IsSame extractor =
      bind_ends (result_of-IsSame (read_ends source))
        λ content. from-IsSame (extract libraries.parsers extractor (content_of content))

  image_size-IsSame :
      Ends (IsSame disk) (image_size libraries source) (λ _. IsSame disk) (IsSame disk)
  unfolding image_size
  image_size-IsSame =
      bind_ends (read_ends source) λ content. decoded-IsSame (libraries.decode_config content)
    where
      decoded-IsSame :
          (result : String ⊎ Header)
          → Ends (IsSame disk) (decoded result) (λ _. IsSame disk) (IsSame disk)
      decoded-IsSame (inl reason) = record { run = λ w p. p }
      decoded-IsSame (inr header) = record { run = λ w p. p }

  text_left :
      (media_type : String) (texts : List Bytes) (options : Options)
      → Leaves output_dir disk
          (convert_text_document libraries.encoding source output_dir media_type texts options)
  unfolding convert_text_document
  text_left media_type texts options =
      unless_left output_dir disk (validate_text_limit texts options.max_text_chars) (
        output_left output_dir disk (
          write_blocks output_dir 0 texts
          >>= write_result libraries.encoding source output_dir media_type))

  image_document_left :
      (media_type : String) (width height : ℕ)
      → Leaves output_dir disk
          (convert_image_document libraries source output_dir media_type width height)
  unfolding convert_image_document
  image_document_left media_type width height =
      let name = image_name libraries.parsers source in
      output_left output_dir disk do
        copy_file source (output_dir ++ name ∷ [])
        write (output_dir ++ "part-0001.txt" ∷ []) []
        digest ← hash_file libraries.encoding (output_dir ++ name ∷ [])
        write_result libraries.encoding source output_dir media_type
            (image_part name width height media_type digest ∷ [])

  extracted_left :
      (media_type : String) (extractor : Extractor) (options : Options)
      → Leaves output_dir disk
          (convert_extracted_text libraries source output_dir media_type extractor options)
  unfolding convert_extracted_text
  extracted_left media_type extractor options = checked output_dir disk (
      valued output_dir disk (extract_file-IsSame extractor)
        λ content. then_checked output_dir disk (text_left media_type (content ∷ []) options))

  image_left :
      (media_type : String)
      → Leaves output_dir disk (convert_image libraries source output_dir media_type)
  unfolding convert_image
  image_left media_type = checked output_dir disk (
      valued output_dir disk image_size-IsSame λ header.
        then_checked output_dir disk (image_document_left media_type header.width header.height))

  rendered_left :
      (renderer : Renderer) (media_type : String) (config : ConverterConfig) (options : Options)
      → Leaves output_dir disk
          (convert_rendered_document libraries renderer source output_dir media_type config options)
  unfolding convert_rendered_document
  rendered_left renderer media_type config options = output_left output_dir disk do
    pages ← render renderer config options source output_dir
    texts ← extract_text renderer config options source
    parts ← write_pages libraries config output_dir texts 0 pages
    write_result libraries.encoding source output_dir media_type parts

left :
    (libraries : Libraries) (renderer : Renderer) (converter : Converter)
    (source output_dir : FilePath) (options : Options) (disk : Disk)
    → Leaves output_dir disk (convert libraries renderer converter source output_dir options)
unfolding convert
left libraries renderer (pdf config) source output_dir options disk =
    rendered_left libraries source output_dir disk renderer _ config options
left libraries renderer (doc config) source output_dir options disk =
    rendered_left libraries source output_dir disk renderer _ config options
left libraries renderer (docx config) source output_dir options disk =
    rendered_left libraries source output_dir disk renderer _ config options
left libraries renderer (ppt config) source output_dir options disk =
    rendered_left libraries source output_dir disk renderer _ config options
left libraries renderer (pptx config) source output_dir options disk =
    rendered_left libraries source output_dir disk renderer _ config options
left libraries renderer (xls config) source output_dir options disk =
    rendered_left libraries source output_dir disk renderer _ config options
left libraries renderer (xlsx config) source output_dir options disk =
    rendered_left libraries source output_dir disk renderer _ config options
left libraries renderer (xlsm config) source output_dir options disk =
    rendered_left libraries source output_dir disk renderer _ config options
left libraries renderer (text extension media_type extractor) source output_dir options disk =
    extracted_left libraries source output_dir disk media_type extractor options
left libraries renderer jpg source output_dir options disk =
    image_left libraries source output_dir disk _
left libraries renderer jpeg source output_dir options disk =
    image_left libraries source output_dir disk _
left libraries renderer png source output_dir options disk =
    image_left libraries source output_dir disk _

failed :
    {A : Type 0} (output_dir : FilePath) (disk : Disk) (r : (Failure ⊎ A) × World)
    (failure : Failure)
    → Outcome Whatever (IsLeft output_dir disk) r
    → r.0 ≡ inl failure
    → r.1.stuck ≡ false
    → (r.1.disk ≡ disk) ⊎ IsClean output_dir r.1.disk
failed output_dir disk (inl cause, w) failure h e k = h k
failed output_dir disk (inr a, w) failure h e k = absurd (cc e)

-- Where the conversion of a file fails, at whatever call, and no removal failed, the disk is as it was before, or no
-- file is left in the output directory and there is no manifest beside it, an old one included.
pub failed_conversion_clean :
    (libraries : Libraries) (renderer : Renderer) (converter : Converter)
    (source output_dir : FilePath) (options : Options) (w : World) (failure : Failure)
    → (convert libraries renderer converter source output_dir options w).0 ≡ inl failure
    → (convert libraries renderer converter source output_dir options w).1.stuck ≡ false
    → ((convert libraries renderer converter source output_dir options w).1.disk ≡ w.disk)
      ⊎ IsClean output_dir (convert libraries renderer converter source output_dir options w).1.disk
failed_conversion_clean libraries renderer converter source output_dir options w failure =
    failed output_dir w.disk (convert libraries renderer converter source output_dir options w)
      failure ((left libraries renderer converter source output_dir options w.disk).run w refl)
