-- ===== src/Converter/Formats.antt =====
-- The converters of internal/converter, one constructor for each of its types, what they say of
-- themselves (pdf.go, doc.go, docx.go, ppt.go, pptx.go, xls.go, xlsx.go, xlsm.go, text_common.go, jpg.go,
-- jpeg.go, png.go), and the registry of all of them (registry.go).
pub mod Resolved
pub mod Tests
use llm_file_gateway.Prelude.{
  ℕ, ◌+◌, ◌*◌, ◌^◌, Option, none, some, List, [], ◌∷◌, ◌++◌, inl, inr, map,
}
use llm_file_gateway.Prelude.Int.{ℤ, pos, negsuc}
use llm_file_gateway.Prelude.Text.{String, codes}
use llm_file_gateway.Config.Load.{Config}
use llm_file_gateway.Converter.Registry.{Registry, Factory}

-- The image formats of the renderer.
pub data ImageFormat : Type 0 where
  png_format jpeg_format : ImageFormat

pub record ConverterConfig : Type 0 where
  pub dpi : ℤ
  pub image_format : ImageFormat
  pub render_timeout : ℤ
  pub libre_office_timeout : ℤ
  pub max_pdf_bytes : ℕ
  pub max_page_width : ℤ
  pub max_page_height : ℤ
  pub max_page_pixels : ℕ
  pub max_document_pixels : ℕ
  pub max_ooxml_members : ℤ
  pub max_ooxml_member_bytes : ℕ
  pub max_ooxml_total_bytes : ℕ

abbrev pub default_converter_config : ConverterConfig
default_converter_config = record {
  dpi = pos 300;
  image_format = png_format;
  render_timeout = pos (300 * 10 ^ 9);
  libre_office_timeout = pos (300 * 10 ^ 9);
  max_pdf_bytes = 128 * 2 ^ 20;
  max_page_width = pos 20000;
  max_page_height = pos 20000;
  max_page_pixels = 200000000;
  max_document_pixels = 1000000000;
  max_ooxml_members = pos 10000;
  max_ooxml_member_bytes = 256 * 2 ^ 20;
  max_ooxml_total_bytes = 2 ^ 30;
}

-- What `run` of cmd/llm-file-gateway/main.go sets from the settings.
abbrev pub converter_config : Config → ConverterConfig
converter_config settings = record default_converter_config {
  dpi = settings.document_dpi;
  render_timeout = settings.document_render_timeout;
  libre_office_timeout = settings.libre_office_timeout;
  max_pdf_bytes = settings.max_document_pdf_bytes;
  max_page_width = settings.max_document_page_width;
  max_page_height = settings.max_document_page_height;
  max_page_pixels = settings.max_document_page_pixels;
  max_document_pixels = settings.max_document_pixels;
  max_ooxml_members = settings.max_document_ooxml_members;
  max_ooxml_member_bytes = settings.max_document_ooxml_member_bytes;
  max_ooxml_total_bytes = settings.max_document_ooxml_total_bytes;
}

pub data Extractor : Type 0 where
  plain_text extract_csv extract_html : Extractor

pub data Converter : Type 0 where
  pdf doc docx ppt pptx xls xlsx xlsm : ConverterConfig → Converter
  -- `textConverter`: its extension, its media type and its extractor.
  text : String → String → Extractor → Converter
  jpg jpeg png : Converter

abbrev pub extension_of : Converter → String
extension_of (pdf config) = ".pdf"
extension_of (doc config) = ".doc"
extension_of (docx config) = ".docx"
extension_of (ppt config) = ".ppt"
extension_of (pptx config) = ".pptx"
extension_of (xls config) = ".xls"
extension_of (xlsx config) = ".xlsx"
extension_of (xlsm config) = ".xlsm"
extension_of (text extension media_type extract) = extension
extension_of jpg = ".jpg"
extension_of jpeg = ".jpeg"
extension_of png = ".png"

abbrev pub media_type_of : Converter → String
media_type_of (pdf config) = "application/pdf"
media_type_of (doc config) = "application/msword"
media_type_of (docx config) =
    "application/vnd.openxmlformats-officedocument.wordprocessingml.document"
media_type_of (ppt config) = "application/vnd.ms-powerpoint"
media_type_of (pptx config) =
    "application/vnd.openxmlformats-officedocument.presentationml.presentation"
media_type_of (xls config) = "application/vnd.ms-excel"
media_type_of (xlsx config) = "application/vnd.openxmlformats-officedocument.spreadsheetml.sheet"
media_type_of (xlsm config) = "application/vnd.ms-excel.sheet.macroEnabled.12"
media_type_of (text extension media_type extract) = media_type
media_type_of jpg = "image/jpeg"
media_type_of jpeg = "image/jpeg"
media_type_of png = "image/png"

-- The entries with `ConverterAdapter` around their constructors: such a factory never fails.
abbrev pub built_in : ConverterConfig → List (String × Converter)
built_in config =
    (".pdf", pdf config)
    ∷ (".doc", doc config)
    ∷ (".docx", docx config)
    ∷ (".ppt", ppt config)
    ∷ (".pptx", pptx config)
    ∷ (".xls", xls config)
    ∷ (".xlsx", xlsx config)
    ∷ (".xlsm", xlsm config)
    ∷ (".txt", text ".txt" "text/plain" plain_text)
    ∷ (".md", text ".md" "text/markdown" plain_text)
    ∷ (".markdown", text ".markdown" "text/markdown" plain_text)
    ∷ (".csv", text ".csv" "text/csv" extract_csv)
    ∷ (".html", text ".html" "text/html" extract_html)
    ∷ (".htm", text ".htm" "text/html" extract_html)
    ∷ (".jpg", jpg)
    ∷ (".jpeg", jpeg)
    ∷ (".png", png)
    ∷ []

abbrev adapted : String × Converter → String × Option (Factory Converter)
adapted (extension, converter) = (extension, some (inr converter))

unfoldable pub new_in_tree_registry : ConverterConfig → Registry Converter
new_in_tree_registry config = map adapted (built_in config)

-- The fallback of `NewDispatcher`.
abbrev pub fallback : Converter
fallback = text "" "text/plain" plain_text
