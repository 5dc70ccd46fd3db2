-- ===== src/Server/Inference/Tests.antt =====
-- A run of the rewriting of internal/server/inference.go on a request with one stored file.
use llm_file_gateway.Prelude.{ℕ, ◌≡◌, refl, ◌⊎◌, inr, false, none, some, [], ◌∷◌}
use llm_file_gateway.Prelude.Text.{String}
use llm_file_gateway.ApiError.{Fault}
use llm_file_gateway.Server.Json.{Json, text, array, object, end, item, Fields, no_fields, field}
use llm_file_gateway.Server.Inference.{
  responses, Source, document_instruction, has_file_reference, expand_items, expand_item,
  expand_content, expand_part, reference_parts, reference_source,
}
use llm_file_gateway.Server.Inference.Documents.{
  Document, ManifestPart, document_parts, artifact_parts,
}
use llm_file_gateway.Server.Inference.Handling.{
  expanded, original, handle_inference, expand, instruct,
}

abbrev page : ManifestPart
page = record {
  part_number = 1;
  page_number = some 12;
  text_path = "p1.txt";
  image_path = none;
  media_type = none;
}

abbrev notes : Document
notes = record { filename = "notes.pdf"; parts = some (page ∷ []); read = λ path. some "hello" }

abbrev pub obtain : ℕ → ℕ → Source → Fault ⊎ Document
obtain index place source = inr notes

abbrev pub encode : String → String
encode s = s

abbrev pub request : Json → Fields
request part = field "model" (text "m") (
    field "input"
      (array (
        item
          (object (field "role" (text "user") (field "content" (array (item part end)) no_fields)))
          end))
      no_fields)

abbrev pub reference : Json
reference = object (field "type" (text "input_file") (field "file_id" (text "file_b") no_fields))

abbrev written : Json
written = object (
    field "type" (text "input_text") (
      field "text" (text "<document filename=\"notes.pdf\" page=\"12\">\nhello\n</document>")
        no_fields))

abbrev pub forwarded : Fields
forwarded = field "model" (text "m") (
    field "input"
      (array (
        item
          (object (
            field "role" (text "user") (
              field "content" (array (item written end))
                (field "type" (text "message") no_fields))))
          end))
      (field "instructions" (text document_instruction) no_fields))

one_file :
    handle_inference 50 encode obtain responses "m" (some (request reference)) ≡ expanded forwarded
unfolding handle_inference has_file_reference expand expand_items expand_item expand_content
    expand_part reference_parts reference_source document_parts artifact_parts instruct
one_file = refl

no_file :
    handle_inference 50 encode obtain responses "m" (some (request (text "input_file")))
    ≡ original false
unfolding handle_inference has_file_reference
no_file = refl
