-- ===== src/Server/Inference/Clean.antt =====
-- The parts that documents become in internal/server/document.go are no file parts.
use llm_file_gateway.Prelude.{
  ℕ, ◌+◌, ◌≡◌, refl, inl, inr, false, ◌&&◌, Option, none, some, List, [], ◌∷◌, Bool-cases,
  Option-cases, ltb, leb,
}
use llm_file_gateway.Prelude.Text.{String, ◌=ˢ◌}
use llm_file_gateway.Server.Json.{Items, any_item}
use llm_file_gateway.Server.Inference.Documents.{
  ManifestPart, Document, text_part, image_part, add_text, add_image, artifact_parts,
  document_parts,
}
use llm_file_gateway.Server.Inference.{Endpoint, responses, chat_completions, is_file_part, kind_of}

-- No part is a file part.
abbrev pub IsClean : Endpoint → Items → Type 0
IsClean endpoint parts = any_item (is_file_part endpoint) parts ≡ false

abbrev pub AreClean : Endpoint → Option Items → Type 0
AreClean endpoint none = Unit
AreClean endpoint (some parts) = IsClean endpoint parts

is_file_part-text_part :
    (endpoint : Endpoint) (filename : String) (part : ManifestPart) (content : String)
    → is_file_part endpoint (text_part (kind_of endpoint) filename part content) ≡ false
is_file_part-text_part responses filename part content = refl
is_file_part-text_part chat_completions filename part content = refl

is_file_part-image_part :
    (endpoint : Endpoint) (url : String)
    → is_file_part endpoint (image_part (kind_of endpoint) url) ≡ false
is_file_part-image_part responses url = refl
is_file_part-image_part chat_completions url = refl

module _ (max_pages : ℕ) (encode : String → String) (endpoint : Endpoint)
    (document : Document) where
  add_text-AreClean :
      (part : ManifestPart) (parts : Option Items)
      → AreClean endpoint parts
      → AreClean endpoint (add_text (kind_of endpoint) document part parts)
  add_text-AreClean part none h = tt
  add_text-AreClean part (some parts) h = elim (Bool-cases (part.text_path =ˢ "")) [
    | inl e ↦ rw e h
    | inr e ↦ elim (Option-cases (document.read part.text_path)) [
      | inl r ↦ rw (e, r) tt
      | inr (content, r) ↦ elim (Bool-cases (content =ˢ "")) [
        | inl k ↦ rw (e, r, k) h
        | inr k ↦ rw (e, r, k, is_file_part-text_part endpoint document.filename part content) h
      ]
    ]
  ]

  add_image-AreClean :
      (part : ManifestPart) (path : String) (parts : Option Items)
      → AreClean endpoint parts
      → AreClean endpoint (add_image encode (kind_of endpoint) document part path parts)
  add_image-AreClean part path none h = tt
  add_image-AreClean part path (some parts) h = elim (Option-cases (document.read path)) [
    | inl r ↦ rw (r, AreClean) tt
    | inr (image, r) ↦ rw (r, AreClean) (rw (is_file_part-image_part endpoint _) h)
  ]

  artifact_parts-AreClean :
      (images : ℕ) (parts : List ManifestPart)
      → AreClean endpoint (artifact_parts max_pages encode (kind_of endpoint) document images parts)
  unfolding artifact_parts
  artifact_parts-AreClean images [] = refl
  artifact_parts-AreClean images (part ∷ rest) =
      add_text-AreClean part _ (elim (Option-cases part.image_path) [
        | inl e ↦ rw e (artifact_parts-AreClean images rest)
        | inr (path, e) ↦ elim (Bool-cases (ltb 0 max_pages && leb max_pages images)) [
          | inl k ↦ rw (e, k) (artifact_parts-AreClean images rest)
          | inr k ↦
              rw (e, k) (add_image-AreClean part path _ (artifact_parts-AreClean (images + 1) rest))
        ]
      ])

  pub document_parts-AreClean :
      AreClean endpoint (document_parts max_pages encode (kind_of endpoint) document)
  unfolding document_parts
  document_parts-AreClean = elim (Option-cases document.parts) [
    | inl e ↦ rw (e, document_parts) tt
    | inr (parts, e) ↦ rw (e, document_parts) (artifact_parts-AreClean 0 parts)
  ]
