-- ===== src/Converter/Formats/Tests.antt =====
-- Files and the converters of internal/converter that they get.
use llm_file_gateway.Prelude.{◌≡◌, refl, inr}
use llm_file_gateway.Prelude.Text.{String}
use llm_file_gateway.Converter.Registry.{find, resolve_converter, for_path}
use llm_file_gateway.Converter.Formats.{
  default_converter_config, pdf, fallback, new_in_tree_registry,
}

abbrev same : String → String
same s = s

a_pdf :
    resolve_converter same fallback (new_in_tree_registry default_converter_config) "a.b.pdf"
    ≡ inr (pdf default_converter_config)
unfolding resolve_converter for_path new_in_tree_registry find
a_pdf = refl

no_extension :
    resolve_converter same fallback (new_in_tree_registry default_converter_config) "Makefile"
    ≡ inr fallback
unfolding resolve_converter for_path new_in_tree_registry find
no_extension = refl
