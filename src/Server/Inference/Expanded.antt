-- ===== src/Server/Inference/Expanded.antt =====
-- What the expansion of internal/server/inference.go leaves in a request: no file part, and a report
-- that says whether there was one.
use llm_file_gateway.Prelude.{
  ℕ, ◌+◌, ◌≡◌, refl, ◌∙◌, ◌⊎◌, inl, inr, Bool, true, false, Option, none, some, arith, Bool-cases,
  if◌then◌else◌,
}
use llm_file_gateway.Prelude.Text.{String, ◌+ˢ◌}
use llm_file_gateway.ApiError.{Fault, gateway, new}
use llm_file_gateway.Server.Json.{
  Json, null, boolean, number, text, array, object, Items, end, item, Fields, lookup, append,
  any_item, lookup-set,
}
use llm_file_gateway.Server.Inference.Documents.{Document, document_parts}
use llm_file_gateway.Server.Inference.Clean.{IsClean, AreClean, document_parts-AreClean}
use llm_file_gateway.Server.Inference.{
  Endpoint, responses, chat_completions, Source, is_file_part, has_file, reference_source,
  reference_parts, expand_part, expand_content, add_part, keep_part, typed, with_content,
  expand_item, add_item, expand_items, kind_of, fields_of, given, place_of,
}

any_item-append :
    (p : Json → Bool) (xs ys : Items)
    → any_item p xs ≡ false
    → any_item p (append xs ys) ≡ any_item p ys
any_item-append p end ys h = refl
any_item-append p (item x xs) ys h = ground (arith, any_item-append p xs ys)

-- Parts that take the place of one part.
abbrev Replaces : Endpoint → Fault ⊎ Items → Type 0
Replaces endpoint (inl fault) = Unit
Replaces endpoint (inr parts) = IsClean endpoint parts

-- A list of parts after its expansion, with the report for the list before.
abbrev Expands : Endpoint → Items → Fault ⊎ (Items × Bool) → Type 0
Expands endpoint before (inl fault) = Unit
Expands endpoint before (inr (after, expanded)) =
    IsClean endpoint after × (expanded ≡ any_item (is_file_part endpoint) before)

abbrev ExpandsItem : Endpoint → Json → Fault ⊎ (Json × Bool) → Type 0
ExpandsItem endpoint before (inl fault) = Unit
ExpandsItem endpoint before (inr (after, expanded)) =
    (has_file endpoint after ≡ false) × (expanded ≡ has_file endpoint before)

abbrev pub ExpandsAll : Endpoint → Items → Fault ⊎ (Items × Bool) → Type 0
ExpandsAll endpoint before (inl fault) = Unit
ExpandsAll endpoint before (inr (after, expanded)) =
    (any_item (has_file endpoint) after ≡ false) × (expanded ≡ any_item (has_file endpoint) before)

add_part-Expands :
    (endpoint : Endpoint) (raw : Json) (parts : Items) (made : Fault ⊎ Items)
    (rest : Fault ⊎ (Items × Bool))
    → is_file_part endpoint raw ≡ true
    → Replaces endpoint made
    → Expands endpoint parts rest
    → Expands endpoint (item raw parts) (add_part made rest)
add_part-Expands endpoint raw parts (inl fault) rest e new_clean rest_clean = tt
add_part-Expands endpoint raw parts (inr made) (inl fault) e new_clean rest_clean = tt
add_part-Expands endpoint raw parts (inr made) (inr (others, expanded)) e new_clean rest_clean =
    (any_item-append (is_file_part endpoint) made others new_clean ∙ rest_clean.0, rw e refl)

keep_part-Expands :
    (endpoint : Endpoint) (raw : Json) (parts : Items) (rest : Fault ⊎ (Items × Bool))
    → is_file_part endpoint raw ≡ false
    → Expands endpoint parts rest
    → Expands endpoint (item raw parts) (keep_part raw rest)
keep_part-Expands endpoint raw parts (inl fault) e rest_clean = tt
keep_part-Expands endpoint raw parts (inr (others, expanded)) e rest_clean = rw e rest_clean

-- The type that is set does not touch the content.
with_content-ExpandsItem :
    (endpoint : Endpoint) (entry : Fields) (content : Items) (rest : Fault ⊎ (Items × Bool))
    → lookup "content" entry ≡ array content
    → Expands endpoint content rest
    → ExpandsItem endpoint (object entry) (with_content endpoint entry rest)
with_content-ExpandsItem endpoint entry content (inl fault) e h = tt
with_content-ExpandsItem endpoint entry content (inr (parts, expanded)) e h =
    (rw (lookup-set "content" (array parts) (typed endpoint entry)) h.0, rw e h.1)

add_item-ExpandsAll :
    (endpoint : Endpoint) (raw : Json) (items : Items) (first : Fault ⊎ (Json × Bool))
    (rest : Fault ⊎ (Items × Bool))
    → ExpandsItem endpoint raw first
    → ExpandsAll endpoint items rest
    → ExpandsAll endpoint (item raw items) (add_item first rest)
add_item-ExpandsAll endpoint raw items (inl fault) rest h k = tt
add_item-ExpandsAll endpoint raw items (inr first) (inl fault) h k = tt
add_item-ExpandsAll endpoint raw items (inr (first, expanded)) (inr (others, more)) h k =
    (rw h.0 k.0, ground (arith, h.1, k.1))

module _ (max_pages : ℕ) (encode : String → String) (obtain : ℕ → ℕ → Source → Fault ⊎ Document)
    (endpoint : Endpoint) where
  reference_parts-Replaces :
      (param : String) (index place : ℕ) (reference : Fields)
      → Replaces endpoint
          (reference_parts max_pages encode obtain endpoint param index place reference)
  unfolding reference_parts
  reference_parts-Replaces param index place reference =
      by_source (reference_source param reference)
    where
      by_document :
          (parts : Option Items)
          → AreClean endpoint parts
          → Replaces endpoint (elim parts [
            | none ↦ inl (
                gateway (
                  new 422 "file_processing_failed" "Document artifacts are missing or unreadable."
                    param))
            | some made ↦ inr made
          ])
      by_document none h = tt
      by_document (some parts) h = h

      by_outcome :
          (o : Fault ⊎ Document)
          → Replaces endpoint (elim o [
            | inl fault ↦ inl fault
            | inr document ↦ elim (document_parts max_pages encode (kind_of endpoint) document) [
              | none ↦ inl (
                  gateway (
                    new 422 "file_processing_failed" "Document artifacts are missing or unreadable."
                      param))
              | some parts ↦ inr parts
            ]
          ])
      by_outcome (inl fault) = tt
      by_outcome (inr document) =
          by_document _ (document_parts-AreClean max_pages encode endpoint document)

      by_source :
          (s : Fault ⊎ Source)
          → Replaces endpoint (elim s [
            | inl fault ↦ inl fault
            | inr source ↦ elim (obtain index place source) [
              | inl fault ↦ inl fault
              | inr document ↦ elim (document_parts max_pages encode (kind_of endpoint) document) [
                | none ↦ inl (
                    gateway (
                      new 422 "file_processing_failed"
                        "Document artifacts are missing or unreadable." param))
                | some parts ↦ inr parts
              ]
            ]
          ])
      by_source (inl fault) = tt
      by_source (inr source) = by_outcome (obtain index place source)

module _ (max_pages : ℕ) (encode : String → String)
    (obtain : ℕ → ℕ → Source → Fault ⊎ Document) where
  expand_part-Replaces :
      (endpoint : Endpoint) (index place : ℕ) (part : Fields)
      → Replaces endpoint (expand_part max_pages encode obtain endpoint index place part)
  unfolding expand_part
  expand_part-Replaces responses index place part =
      reference_parts-Replaces max_pages encode obtain responses (place_of responses index place)
        index place part
  expand_part-Replaces chat_completions index place part = by_file (lookup "file" part)
    where
      param : String
      param = place_of chat_completions index place

      by_file :
          (file : Json)
          → Replaces chat_completions (elim file as (λ _. Fault ⊎ Items) [
            | object reference ↦
                if given "file_url" reference
                then inl (
                    gateway (
                      new 400 "invalid_file_reference"
                        "file_url is not supported by Chat Completions."
                        (param +ˢ ".file_url")))
                else reference_parts max_pages encode obtain chat_completions param index place
                    reference
            | _ ↦ inl (gateway (new 400 "invalid_file_reference" "file must be an object." param))
          ])
      by_file (object reference) = elim (Bool-cases (given "file_url" reference)) [
        | inl e ↦ rw e tt
        | inr e ↦ rw e (
            reference_parts-Replaces max_pages encode obtain chat_completions param index place
              reference)
      ]
      by_file null = tt
      by_file (boolean b) = tt
      by_file (number s) = tt
      by_file (text s) = tt
      by_file (array xs) = tt

module _ (max_pages : ℕ) (encode : String → String) (obtain : ℕ → ℕ → Source → Fault ⊎ Document)
    (endpoint : Endpoint) where
  expand_content-Expands :
      (index place : ℕ) (content : Items)
      → Expands endpoint content
          (expand_content max_pages encode obtain endpoint index place content)
  unfolding expand_content
  expand_content-Expands index place end = (refl, refl)
  expand_content-Expands index place (item raw parts) =
      elim (Bool-cases (is_file_part endpoint raw)) [
        | inl e ↦ rw e (
            add_part-Expands endpoint raw parts _ _ e
              (expand_part-Replaces max_pages encode obtain endpoint index place (fields_of raw))
              (expand_content-Expands index (place + 1) parts))
        | inr e ↦ rw e (
            keep_part-Expands endpoint raw parts _ e
              (expand_content-Expands index (place + 1) parts))
      ]

  expand_item-ExpandsItem :
      (index : ℕ) (raw : Json)
      → ExpandsItem endpoint raw (expand_item max_pages encode obtain endpoint index raw)
  unfolding expand_item
  expand_item-ExpandsItem index (object entry) = by_content (lookup "content" entry) refl
    where
      by_content :
          (content : Json)
          → lookup "content" entry ≡ content
          → ExpandsItem endpoint (object entry) (elim content as (λ _. Fault ⊎ (Json × Bool)) [
            | array parts ↦
                with_content endpoint entry
                  (expand_content max_pages encode obtain endpoint index 0 parts)
            | _ ↦ inr (object entry, false)
          ])
      by_content (array parts) e =
          with_content-ExpandsItem endpoint entry parts _ e (expand_content-Expands index 0 parts)
      by_content null e = (rw e refl, rw e refl)
      by_content (boolean b) e = (rw e refl, rw e refl)
      by_content (number s) e = (rw e refl, rw e refl)
      by_content (text s) e = (rw e refl, rw e refl)
      by_content (object other) e = (rw e refl, rw e refl)
  expand_item-ExpandsItem index null = (refl, refl)
  expand_item-ExpandsItem index (boolean b) = (refl, refl)
  expand_item-ExpandsItem index (number s) = (refl, refl)
  expand_item-ExpandsItem index (text s) = (refl, refl)
  expand_item-ExpandsItem index (array xs) = (refl, refl)

  -- The items of a request after the expansion hold no file part, and the report is whether they did
  -- before, whatever the references lead to.
  pub expand_items-ExpandsAll :
      (index : ℕ) (items : Items)
      → ExpandsAll endpoint items (expand_items max_pages encode obtain endpoint index items)
  unfolding expand_items
  expand_items-ExpandsAll index end = (refl, refl)
  expand_items-ExpandsAll index (item raw items) =
      add_item-ExpandsAll endpoint raw items _ _ (expand_item-ExpandsItem index raw)
        (expand_items-ExpandsAll (index + 1) items)
