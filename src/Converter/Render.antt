-- ===== src/Converter/Render.antt =====
-- The conversion of PDF and Office documents (`convertRenderedDocument` and `mapRendererError` of
-- internal/converter/converter.go), and `Convert` of every converter. The renderer of
-- github.com/mochizuki875/document-image-renderer is a parameter.
pub mod Converted
pub mod Failed
pub mod Tests
use llm_file_gateway.Prelude.{
  ℕ, zero, suc, ◌+◌, Bool, true, false, Option, none, some, List, [], ◌∷◌, ◌++◌, ◌⊎◌, inl, inr, not,
  ◌&&◌, if◌then◌else◌,
}
use llm_file_gateway.Prelude.Int.{ℤ}
use llm_file_gateway.Prelude.Text.{String, ◌+ˢ◌, ext, is_empty}
use llm_file_gateway.Store.{FilePath}
use llm_file_gateway.Files.Disk.{Disk, Bytes}
use llm_file_gateway.Files.Retry.{Failure, other, page_limit, text_limit}
use llm_file_gateway.Converter.Formats.{
  ConverterConfig, ImageFormat, png_format, jpeg_format, Converter, pdf, doc, docx, ppt, pptx, xls,
  xlsx, xlsm, text, jpg, jpeg, png, media_type_of,
}
use llm_file_gateway.Converter.Calls.{World, Action, pure, continue, ◌>>=◌, ◌>>◌, next, write, from}
use llm_file_gateway.Converter.Output.{
  ManifestPart, Manifest, last_of, with_output_directory, write_result,
}
use llm_file_gateway.Converter.Convert.{
  Options, Libraries, hash_file, convert_extracted_text, convert_image,
}

-- An error of the renderer, as errors.As finds it.
pub data RendererError : Type 0 where
  page_limit_exceeded : RendererError
  character_limit_exceeded : ℕ → RendererError
  renderer_error : String → RendererError

-- What is set; the rest are the defaults of the library.
pub record RenderOptions : Type 0 where
  pub dpi : ℤ
  pub image_format : ImageFormat
  pub render_timeout : ℤ
  pub render_libre_office_timeout : ℤ
  pub max_pages : ℕ
  pub render_max_pdf_bytes : ℕ
  pub max_page_width : ℤ
  pub max_page_height : ℤ
  pub max_page_pixels : ℕ
  pub max_document_pixels : ℕ
  pub render_max_ooxml_members : ℤ
  pub render_max_ooxml_member_bytes : ℕ
  pub render_max_ooxml_total_bytes : ℕ

pub record ExtractOptions : Type 0 where
  pub libre_office_timeout : ℤ
  pub max_characters : ℕ
  pub max_pdf_bytes : ℕ
  pub max_ooxml_members : ℤ
  pub max_ooxml_member_bytes : ℕ
  pub max_ooxml_total_bytes : ℕ

pub record Page : Type 0 where
  pub path : FilePath
  pub page_number : ℕ
  pub width : ℕ
  pub height : ℕ

-- The two calls of the library. They see whether the context is still open, and the disk, and the first writes to
-- the disk. What was extracted is a text for some of the page numbers.
pub record Renderer : Type 0 where
  pub render_document :
      RenderOptions → FilePath → FilePath → Bool → Disk → (RendererError ⊎ List Page) × Disk
  pub extract_document :
      ExtractOptions → FilePath → Bool → Disk → RendererError ⊎ (ℕ → Option Bytes)

abbrev pub render_options : ConverterConfig → Options → RenderOptions
render_options config options = record {
  dpi = config.dpi;
  image_format = config.image_format;
  render_timeout = config.render_timeout;
  render_libre_office_timeout = config.libre_office_timeout;
  max_pages = options.max_pages;
  render_max_pdf_bytes = config.max_pdf_bytes;
  max_page_width = config.max_page_width;
  max_page_height = config.max_page_height;
  max_page_pixels = config.max_page_pixels;
  max_document_pixels = config.max_document_pixels;
  render_max_ooxml_members = config.max_ooxml_members;
  render_max_ooxml_member_bytes = config.max_ooxml_member_bytes;
  render_max_ooxml_total_bytes = config.max_ooxml_total_bytes;
}

abbrev pub extract_options : ConverterConfig → Options → ExtractOptions
extract_options config options = record {
  libre_office_timeout = config.libre_office_timeout;
  max_characters = options.max_text_chars;
  max_pdf_bytes = config.max_pdf_bytes;
  max_ooxml_members = config.max_ooxml_members;
  max_ooxml_member_bytes = config.max_ooxml_member_bytes;
  max_ooxml_total_bytes = config.max_ooxml_total_bytes;
}

unfoldable pub map_renderer_error : RendererError → ℕ → Failure
map_renderer_error page_limit_exceeded limit = page_limit limit
map_renderer_error (character_limit_exceeded characters) limit = text_limit characters
map_renderer_error (renderer_error reason) limit = other reason

-- The renderer's outcome with its errors mapped.
abbrev mapped : {A : Type 0} → ℕ → RendererError ⊎ A → Failure ⊎ A
mapped limit (inl failure) = inl (map_renderer_error failure limit)
mapped limit (inr result) = inr result

unfoldable pub render :
    Renderer → ConverterConfig → Options → FilePath → FilePath → Action (List Page)
unfolding map_renderer_error
render renderer config options source output_dir w =
    let (ok, rest) = next w.outcomes in
    let (result, disk) =
      renderer.render_document (render_options config options) source output_dir ok w.disk in
    (mapped options.max_pages result, record w { outcomes = rest; disk = disk })

unfoldable pub extract_text :
    Renderer → ConverterConfig → Options → FilePath → Action (Option (ℕ → Option Bytes))
unfolding map_renderer_error
extract_text renderer config options source w =
    if options.disable_text_extraction
    then (inr none, w)
    else let (ok, rest) = next w.outcomes in
      let w' : World = record w { outcomes = rest } in
      elim (renderer.extract_document (extract_options config options) source ok w.disk) [
        | inl failure ↦ (inl (map_renderer_error failure options.max_pages), w')
        | inr texts ↦ (inr (some texts), w')
      ]

-- strings.TrimSuffix(name, filepath.Ext(name)), where the last '.' has the code 46.
unfoldable pub without_extension : String → String
without_extension String.[] = String.[]
without_extension (String.◌∷◌ c name) =
    let rest = without_extension name in
    if is_empty (ext name) && not (is_empty (ext (String.◌∷◌ c name)))
    then String.[]
    else String.◌∷◌ c rest

abbrev text_of : (ℕ → Option Bytes) → ℕ → Bytes
text_of texts page_number = elim (texts page_number) [ none ↦ [] | some content ↦ content ]

-- The text file of a page: its name, which is empty without extraction.
unfoldable pub write_text : FilePath → Option (ℕ → Option Bytes) → Page → Action String
unfolding ◌>>=◌ write without_extension
write_text output_dir none page = pure ""
write_text output_dir (some texts) page =
    let name = without_extension (last_of page.path) +ˢ ".txt" in
    do write (output_dir ++ name ∷ []) (text_of texts page.page_number); pure name

abbrev image_media_type : ImageFormat → String
image_media_type png_format = "image/png"
image_media_type jpeg_format = "image/jpeg"

abbrev page_part : ImageFormat → ℕ → Page → String → String → ManifestPart
page_part image_format number page text_path digest = record {
  part_number = number;
  page_number = some page.page_number;
  text_path = text_path;
  image_path = some (last_of page.path);
  width = some page.width;
  height = some page.height;
  media_type = some (image_media_type image_format);
  sha256 = some digest;
}

-- The pages from an index on.
unfoldable pub write_pages :
    Libraries
    → ConverterConfig
    → FilePath
    → Option (ℕ → Option Bytes)
    → ℕ
    → List Page
    → Action (List ManifestPart)
unfolding ◌>>=◌ write_text hash_file
write_pages libraries config output_dir texts index [] = pure []
write_pages libraries config output_dir texts index (page ∷ pages) = do
  name ← write_text output_dir texts page
  digest ← hash_file libraries.encoding page.path
  parts ← write_pages libraries config output_dir texts (index + 1) pages
  pure (page_part config.image_format (index + 1) page name digest ∷ parts)

unfoldable pub convert_rendered_document :
    Libraries
    → Renderer
    → FilePath
    → FilePath
    → String
    → ConverterConfig
    → Options
    → Action Manifest
unfolding ◌>>=◌ with_output_directory render extract_text write_pages write_result
convert_rendered_document libraries renderer source output_dir media_type config options =
    with_output_directory output_dir do
      pages ← render renderer config options source output_dir
      texts ← extract_text renderer config options source
      parts ← write_pages libraries config output_dir texts 0 pages
      write_result libraries.encoding source output_dir media_type parts

-- `Convert` of each converter.
unfoldable pub convert :
    Libraries → Renderer → Converter → FilePath → FilePath → Options → Action Manifest
unfolding convert_rendered_document convert_extracted_text convert_image
convert libraries renderer (pdf config) source output_dir options =
    convert_rendered_document libraries renderer source output_dir (media_type_of (pdf config))
      config options
convert libraries renderer (doc config) source output_dir options =
    convert_rendered_document libraries renderer source output_dir (media_type_of (doc config))
      config options
convert libraries renderer (docx config) source output_dir options =
    convert_rendered_document libraries renderer source output_dir (media_type_of (docx config))
      config options
convert libraries renderer (ppt config) source output_dir options =
    convert_rendered_document libraries renderer source output_dir (media_type_of (ppt config))
      config options
convert libraries renderer (pptx config) source output_dir options =
    convert_rendered_document libraries renderer source output_dir (media_type_of (pptx config))
      config options
convert libraries renderer (xls config) source output_dir options =
    convert_rendered_document libraries renderer source output_dir (media_type_of (xls config))
      config options
convert libraries renderer (xlsx config) source output_dir options =
    convert_rendered_document libraries renderer source output_dir (media_type_of (xlsx config))
      config options
convert libraries renderer (xlsm config) source output_dir options =
    convert_rendered_document libraries renderer source output_dir (media_type_of (xlsm config))
      config options
convert libraries renderer (text extension media_type extractor) source output_dir options =
    convert_extracted_text libraries source output_dir media_type extractor options
convert libraries renderer jpg source output_dir options =
    convert_image libraries source output_dir (media_type_of jpg)
convert libraries renderer jpeg source output_dir options =
    convert_image libraries source output_dir (media_type_of jpeg)
convert libraries renderer png source output_dir options =
    convert_image libraries source output_dir (media_type_of png)
