-- ===== src/Server/Inference/Documents.antt =====
-- The content parts that a converted document becomes (internal/server/document.go, `documentParts`).
-- `encode` is base64.
use llm_file_gateway.Prelude.{
  ℕ, ◌+◌, ◌&&◌, Option, none, some, List, [], ◌∷◌, ltb, leb, if◌then◌else◌,
}
use llm_file_gateway.Prelude.Text.{String, ◌=ˢ◌, ◌+ˢ◌, decimal}
use llm_file_gateway.Server.Json.{Json, text, object, Items, end, item, no_fields, field}

-- A part of the manifest, without the fields that no request needs.
pub record ManifestPart : Type 0 where
  pub part_number : ℕ
  pub page_number : Option ℕ
  pub text_path : String
  pub image_path : Option String
  pub media_type : Option String

-- `read` finds the files below the directory "derived" of the document; `none` is a manifest without
-- documents.
pub record Document : Type 0 where
  pub filename : String
  pub parts : Option (List ManifestPart)
  pub read : String → Option String

abbrev pub location : ManifestPart → String
location part = elim part.page_number [
  | some page ↦ "page=\"" +ˢ decimal page +ˢ "\""
  | none ↦ "part=\"" +ˢ decimal part.part_number +ˢ "\""
]

abbrev pub text_part : String → String → ManifestPart → String → Json
text_part kind filename part content = object (
    field "type" (text (if kind =ˢ "chat" then "text" else "input_text")) (
      field "text"
        (text (
          "<document filename=\""
          +ˢ filename
          +ˢ "\" "
          +ˢ location part
          +ˢ ">\n"
          +ˢ content
          +ˢ "\n</document>"))
        no_fields))

abbrev pub image_part : String → String → Json
image_part kind url =
    if kind =ˢ "responses"
    then object (
        field "type" (text "input_image")
          (field "detail" (text "auto") (field "image_url" (text url) no_fields)))
    else object (
        field "type" (text "image_url")
          (field "image_url" (object (field "url" (text url) no_fields)) no_fields))

-- The text of an artifact in front of other parts; `none` is a file that cannot be read.
abbrev pub add_text : String → Document → ManifestPart → Option Items → Option Items
add_text kind document part none = none
add_text kind document part (some parts) =
    if part.text_path =ˢ "" then some parts else elim (document.read part.text_path) [
      | none ↦ none
      | some content ↦
          if content =ˢ ""
          then some parts
          else some (item (text_part kind document.filename part content) parts)
    ]

abbrev pub add_image :
    (String → String) → String → Document → ManifestPart → String → Option Items → Option Items
add_image encode kind document part path none = none
add_image encode kind document part path (some parts) = elim (document.read path) [
  | none ↦ none
  | some image ↦
      let media_type : String = elim part.media_type [ none ↦ "image/png" | some m ↦ m ] in
      some (item (image_part kind ("data:" +ˢ media_type +ˢ ";base64," +ˢ encode image)) parts)
]

-- The number of pages that may be images is limited, and 0 is no limit.
unfoldable pub artifact_parts :
    ℕ → (String → String) → String → Document → ℕ → List ManifestPart → Option Items
artifact_parts max_pages encode kind document images [] = some end
artifact_parts max_pages encode kind document images (part ∷ rest) =
    let skipped = artifact_parts max_pages encode kind document images rest in
    let counted = artifact_parts max_pages encode kind document (images + 1) rest in
    add_text kind document part (elim part.image_path [
      | none ↦ skipped
      | some path ↦
          if ltb 0 max_pages && leb max_pages images
          then skipped
          else add_image encode kind document part path counted
    ])

unfoldable pub document_parts : ℕ → (String → String) → String → Document → Option Items
unfolding artifact_parts
document_parts max_pages encode kind document = elim document.parts [
  | none ↦ none
  | some parts ↦ artifact_parts max_pages encode kind document 0 parts
]
