-- ===== src/Converter/Registry/Tests.antt =====
-- Registries of internal/converter/registry.go with numbers for converters.
use llm_file_gateway.Prelude.{ℕ, ◌≡◌, refl, Option, none, some, [], ◌∷◌, inr}
use llm_file_gateway.Prelude.Text.{String}
use llm_file_gateway.Converter.Registry.{
  Failure, Factory, Registry, find, assign, register, register_all, assign_all, merge,
}
use llm_file_gateway.Converter.Registry.Keys.{IsKeyed, or_else}
use llm_file_gateway.Converter.Registry.Entries.{CanMerge, lowered}
use llm_file_gateway.Converter.Registry.Merged.{swap, merge_exact, merge_any_order}

-- An extension that is in lower case already.
abbrev same : String → String
same s = s

abbrev makes : ℕ → Option (Factory ℕ)
makes n = some (inr n)

abbrev texts : Registry ℕ
texts = (".txt", makes 1) ∷ (".md", makes 2) ∷ []

abbrev images : Registry ℕ
images = (".png", makes 3) ∷ (".jpg", makes 4) ∷ []

abbrev images_again : Registry ℕ
images_again = (".jpg", makes 4) ∷ (".png", makes 3) ∷ []

texts-IsKeyed : IsKeyed texts
texts-IsKeyed = ((refl, tt), (tt, tt))

images_merged : (merge same images texts).0 ≡ none
unfolding merge register_all register assign_all assign find
images_merged = refl

texts_twice : (merge same texts texts).1 ≡ texts
unfolding merge register_all register assign_all assign find
texts_twice = refl

merge_exact_example :
    ((merge same images texts).0 ≡ none → CanMerge texts (lowered same images))
    × (CanMerge texts (lowered same images)
        → ((merge same images texts).0 ≡ none)
          × ((key : String)
              → find key (merge same images texts).1
                ≡ or_else (find key texts) (find key (lowered same images))))
    × ((failure : Failure)
        → (merge same images texts).0 ≡ some failure
        → (merge same images texts).1 ≡ texts)
merge_exact_example = merge_exact same images texts texts-IsKeyed

merge_any_order_example :
    ((merge same images_again texts).0 ≡ none)
    × ((key : String)
        → find key (merge same images_again texts).1 ≡ find key (merge same images texts).1)
merge_any_order_example =
    merge_any_order same images images_again texts texts-IsKeyed
      (swap (".png", makes 3) (".jpg", makes 4) []) images_merged

png_registered : (register same ".png" (makes 3) texts).0 ≡ none
unfolding register find
png_registered = refl
