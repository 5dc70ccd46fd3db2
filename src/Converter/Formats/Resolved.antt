-- ===== src/Converter/Formats/Resolved.antt =====
-- What the dispatcher of internal/converter/dispatcher.go finds in the registry of all converters.
use llm_file_gateway.Prelude.{
  ◌≡◌, refl, ◌∙◌, none, some, List, [], ◌∷◌, map, ◌⊎◌, inl, inr, All, Bool-cases,
}
use llm_file_gateway.Prelude.Text.{String, ◌=ˢ◌, eq_iff, ext}
use llm_file_gateway.Converter.Registry.{Registry, find, for_path, resolve_converter}
use llm_file_gateway.Converter.Formats.{
  ConverterConfig, Converter, extension_of, built_in, adapted, new_in_tree_registry, fallback,
}

-- The converter of an entry has the entry's extension.
abbrev Agrees : String × Converter → Type 0
Agrees entry = extension_of entry.1 ≡ entry.0

built_in-Agrees : (config : ConverterConfig) → All Agrees (built_in config)
built_in-Agrees config = (
  refl,
  (
    refl,
    (
      refl,
      (
        refl,
        (
          refl,
          (
            refl,
            (
              refl,
              (refl, (refl, (refl, (refl, (refl, (refl, (refl, (refl, (refl, (refl, tt)))))))))),
            ),
          ),
        ),
      ),
    ),
  ),
)

found_or_none :
    (key : String) (entries : List (String × Converter))
    → All Agrees entries
    → (find key (map adapted entries) ≡ none)
      ⊎ ((c : Converter) × (find key (map adapted entries) ≡ some (some (inr c)))
          × (extension_of c ≡ key))
unfolding find
found_or_none key [] h = inl refl
found_or_none key ((k, c) ∷ entries) h = elim (Bool-cases (k =ˢ key)) [
  | inl e ↦ inr (c, rw e refl, h.0 ∙ (eq_iff k key).0 e)
  | inr e ↦ rw e (found_or_none key entries h.1)
]

module _ {C : Type 0} (lower : String → String) (other : C) (registry : Registry C)
    (path : String) where
  resolve_missing :
      find (lower (ext path)) registry ≡ none
      → resolve_converter lower other registry path ≡ inr other
  unfolding resolve_converter for_path
  resolve_missing e = rw (resolve_converter, for_path, e) refl

  resolve_found :
      (c : C)
      → find (lower (ext path)) registry ≡ some (some (inr c))
      → resolve_converter lower other registry path ≡ inr c
  unfolding resolve_converter for_path
  resolve_found c e = rw (resolve_converter, for_path, e) refl

-- With the built-in converters a file always gets a converter: the one for its extension in lower case, or,
-- only if there is none for that extension, the plain-text converter.
resolve_in_tree :
    (lower : String → String) (config : ConverterConfig) (path : String)
    → (c : Converter) × (resolve_converter lower fallback (new_in_tree_registry config) path
        ≡ inr c)
      × ((extension_of c ≡ lower (ext path))
          ⊎ ((find (lower (ext path)) (new_in_tree_registry config) ≡ none) × (c ≡ fallback)))
unfolding new_in_tree_registry
resolve_in_tree lower config path =
    elim (found_or_none (lower (ext path)) (built_in config) (built_in-Agrees config)) [
      | inl e ↦ (
        fallback,
        resolve_missing lower fallback (new_in_tree_registry config) path e,
        inr (e, refl),
      )
      | inr (c, e, same) ↦
          (c, resolve_found lower fallback (new_in_tree_registry config) path c e, inl same)
    ]
