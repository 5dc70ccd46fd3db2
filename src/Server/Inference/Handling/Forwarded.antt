-- ===== src/Server/Inference/Handling/Forwarded.antt =====
-- What the model server gets from `handleInference` of internal/server/inference.go.
use llm_file_gateway.Prelude.{
  ℕ, ◌≡◌, refl, sym, ap, subst, ◌∙◌, ◌⊎◌, inl, inr, Bool, true, false, Option, none, some,
  Bool-cases, if◌then◌else◌,
}
use llm_file_gateway.Prelude.Text.{String, append-nil, ◌=ˢ◌, ◌+ˢ◌}
use llm_file_gateway.ApiError.{Fault}
use llm_file_gateway.Server.Json.{
  Json, null, boolean, number, text, array, object, Items, item, Fields, lookup, set, is_text,
  text_of, items_of, any_item, lookup-set, lookup-set_other,
}
use llm_file_gateway.Server.Inference.Documents.{Document}
use llm_file_gateway.Server.Inference.Expanded.{ExpandsAll, expand_items-ExpandsAll}
use llm_file_gateway.Server.Inference.{
  Endpoint, responses, chat_completions, Source, document_instruction, items_key, has_file,
  has_file_reference,
}
use llm_file_gateway.Server.Inference.Handling.{
  Forward, original, expanded, refused, unexpanded, put_items, instruction_message, instruct,
  forward, expand, handle_inference,
}

-- The document instruction stands first.
abbrev pub IsInstructed : Endpoint → Fields → Type 0
IsInstructed responses payload =
    (rest : String) × (lookup "instructions" payload ≡ text (document_instruction +ˢ rest))
IsInstructed chat_completions payload =
    (rest : Items) × (lookup "messages" payload ≡ array (item instruction_message rest))

-- A request that refers to no file any more, and carries the instruction.
abbrev IsReady : Endpoint → Fields → Type 0
IsReady endpoint payload =
    (has_file_reference endpoint payload ≡ false) × IsInstructed endpoint payload

-- The items under a key that was set, whatever other key was set after it.
items_kept :
    (key other : String) (value : Json) (items : Items) (payload : Fields)
    → (key =ˢ other) ≡ false
    → items_of (lookup key (set other value (set key (array items) payload))) ≡ items
items_kept key other value items payload h = ap items_of (
    lookup-set_other other key value (set key (array items) payload) h
    ∙ lookup-set key (array items) payload)

-- The instruction in front of what the client gave.
instruction_first :
    (existing : String)
    → (rest : String) × ((if existing =ˢ ""
          then document_instruction
          else document_instruction +ˢ "\n" +ˢ existing)
        ≡ document_instruction +ˢ rest)
instruction_first existing = elim (Bool-cases (existing =ˢ "")) [
  | inl e ↦ ("", rw e (sym (append-nil document_instruction)))
  | inr e ↦ ("\n" +ˢ existing, rw e refl)
]

instruct-IsReady :
    (endpoint : Endpoint) (payload : Fields) (items : Items)
    → any_item (has_file endpoint) items ≡ false
    → IsReady endpoint (instruct endpoint (set (items_key endpoint) (array items) payload))
unfolding instruct has_file_reference
instruct-IsReady responses payload items clean =
    let before : Fields = set "input" (array items) payload in
    let (rest, first) = instruction_first (text_of (lookup "instructions" before)) in
    (
      ap (any_item (has_file responses)) (items_kept "input" "instructions" _ items payload refl)
          ∙ clean,
      (rest, lookup-set "instructions" _ before ∙ ap text first),
    )
instruct-IsReady chat_completions payload items clean =
    let before : Fields = set "messages" (array items) payload in
    (
      ap (λ j. any_item (has_file chat_completions) (items_of j)) (lookup-set "messages" _ before)
          ∙ ap (any_item (has_file chat_completions))
              (ap (λ j. items_of j) (lookup-set "messages" (array items) payload))
          ∙ clean,
      (items_of (lookup "messages" before), lookup-set "messages" _ before),
    )

-- What is forwarded after an expansion is ready, if the request had a file part.
abbrev Forwards : Endpoint → Forward → Type 0
Forwards endpoint (original stream) = Unit
Forwards endpoint (refused error) = Unit
Forwards endpoint (unexpanded fault) = Unit
Forwards endpoint (expanded payload) = IsReady endpoint payload

put_items-Forwards :
    (endpoint : Endpoint) (payload : Fields) (items : Items) (r : Fault ⊎ (Items × Bool))
    → any_item (has_file endpoint) items ≡ true
    → ExpandsAll endpoint items r
    → Forwards endpoint (forward endpoint (put_items (items_key endpoint) payload r))
put_items-Forwards endpoint payload items (inl fault) h k = tt
put_items-Forwards endpoint payload items (inr (after, changed)) h k =
    rw (k.1 ∙ h) (instruct-IsReady endpoint payload after k.0)

-- A request with a file part has an array of items.
has_file_in :
    (endpoint : Endpoint) (payload : Fields) (value : Json)
    → has_file_reference endpoint payload ≡ true
    → lookup (items_key endpoint) payload ≡ value
    → any_item (has_file endpoint) (items_of value) ≡ true
unfolding has_file_reference
has_file_in endpoint payload value h e =
    sym (ap (λ j. any_item (has_file endpoint) (items_of j)) e) ∙ h

abbrev AsCame : Endpoint → Fields → Forward → Type 0
AsCame endpoint payload (original stream) = has_file_reference endpoint payload ≡ false
AsCame endpoint payload _ = Unit

forward-AsCame :
    (endpoint : Endpoint) (payload : Fields) (r : Fault ⊎ (Fields × Bool))
    → AsCame endpoint payload (forward endpoint r)
forward-AsCame endpoint payload (inl fault) = tt
forward-AsCame endpoint payload (inr (after, changed)) = tt

module _ (max_pages : ℕ) (encode : String → String)
    (obtain : ℕ → ℕ → Source → Fault ⊎ Document) where
  expand-Forwards :
      (endpoint : Endpoint) (payload : Fields) (value : Json)
      → lookup (items_key endpoint) payload ≡ value
      → any_item (has_file endpoint) (items_of value) ≡ true
      → Forwards endpoint (forward endpoint (expand max_pages encode obtain endpoint payload))
  unfolding expand
  expand-Forwards responses payload (array items) e h =
      rw (e, expand)
        (put_items-Forwards responses payload items _ h
          (expand_items-ExpandsAll max_pages encode obtain responses 0 items))
  expand-Forwards chat_completions payload (array items) e h =
      rw (e, expand)
        (put_items-Forwards chat_completions payload items _ h
          (expand_items-ExpandsAll max_pages encode obtain chat_completions 0 items))
  expand-Forwards endpoint payload null e h = absurd (cc h)
  expand-Forwards endpoint payload (boolean b) e h = absurd (cc h)
  expand-Forwards endpoint payload (number s) e h = absurd (cc h)
  expand-Forwards endpoint payload (text s) e h = absurd (cc h)
  expand-Forwards endpoint payload (object fs) e h = absurd (cc h)

  handle_inference-Forwards :
      (endpoint : Endpoint) (model : String) (body : Option Fields)
      → Forwards endpoint (handle_inference max_pages encode obtain endpoint model body)
  unfolding handle_inference
  handle_inference-Forwards endpoint model none = tt
  handle_inference-Forwards endpoint model (some payload) =
      elim (Bool-cases (has_file_reference endpoint payload)) [
        | inl e ↦ elim (Bool-cases (is_text model (lookup "model" payload))) [
          | inl k ↦
              rw (e, k)
                (expand-Forwards endpoint payload (lookup (items_key endpoint) payload) refl
                  (has_file_in endpoint payload _ e refl))
          | inr k ↦ rw (e, k) tt
        ]
        | inr e ↦ rw e tt
      ]

  -- A request that the gateway rewrites and forwards refers to no file any more, wherever the
  -- references led, and carries the document instruction first: in front of the client's own
  -- instructions, or as the first message.
  pub forwarded_is_expanded :
      (endpoint : Endpoint) (model : String) (body : Option Fields) (payload : Fields)
      → handle_inference max_pages encode obtain endpoint model body ≡ expanded payload
      → (has_file_reference endpoint payload ≡ false) × IsInstructed endpoint payload
  forwarded_is_expanded endpoint model body payload e =
      subst (Forwards endpoint) e (handle_inference-Forwards endpoint model body)

  handle_inference-AsCame :
      (endpoint : Endpoint) (model : String) (payload : Fields)
      → AsCame endpoint payload
          (handle_inference max_pages encode obtain endpoint model (some payload))
  unfolding handle_inference
  handle_inference-AsCame endpoint model payload =
      elim (Bool-cases (has_file_reference endpoint payload)) [
        | inr h ↦ rw h h
        | inl h ↦ elim (Bool-cases (is_text model (lookup "model" payload))) [
          | inl k ↦ rw (h, k) (forward-AsCame endpoint payload _)
          | inr k ↦ rw (h, k) tt
        ]
      ]

  -- A body that is forwarded as it came refers to no file.
  pub original_without_file :
      (endpoint : Endpoint) (model : String) (payload : Fields) (stream : Bool)
      → handle_inference max_pages encode obtain endpoint model (some payload) ≡ original stream
      → has_file_reference endpoint payload ≡ false
  original_without_file endpoint model payload stream e =
      subst (AsCame endpoint payload) e (handle_inference-AsCame endpoint model payload)
