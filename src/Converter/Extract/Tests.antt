-- ===== src/Converter/Extract/Tests.antt =====
-- Texts of files that internal/converter/extractor reads.
use llm_file_gateway.Prelude.{◌≡◌, refl, some, [], ◌∷◌, inl, inr}
use llm_file_gateway.Prelude.Text.{String, codes}
use llm_file_gateway.Files.Retry.{validation}
use llm_file_gateway.Converter.Utf8.{rune_width, valid_from, space_width}
use llm_file_gateway.Converter.Formats.{plain_text, extract_csv}
use llm_file_gateway.Converter.Extract.{
  Node, Parsers, element, text_node, nil, cons, is_hidden, is_block, walk, split_lines, fields_from,
  join, normalized, csv_text, read_utf8, visible_text, extract,
}
use llm_file_gateway.Converter.Extract.Pruned.{prune, visible_text-prune}

abbrev same : String → String
same s = s

abbrev leaf : String → Node
leaf s = text_node (codes s) nil

abbrev page : Node
page = element "html" (
    cons (element "head" (cons (element "title" (cons (leaf "hidden") nil)) nil)) (
      cons
        (element "body" (
          cons (element "h1" (cons (leaf "Report") nil)) (
            cons
              (element "p"
                (cons (leaf "  Hello ") (cons (element "b" (cons (leaf "world") nil)) nil)))
              (cons (element "script" (cons (leaf "bad()") nil)) nil))))
        nil))

page_text : visible_text same page ≡ codes "Report\nHello world"
unfolding visible_text walk is_hidden is_block split_lines fields_from space_width join normalized
page_text = refl

abbrev two_records : Parsers
two_records = record {
  csv_records = λ text. inr ((codes "a" ∷ codes "b" ∷ []) ∷ (codes "c" ∷ []) ∷ []);
  parse_html = λ text. inr page;
  lower = same;
}

records_joined : extract two_records extract_csv (some (codes "a,b\nc")) ≡ inr (codes "a\tb\nc")
unfolding extract read_utf8 valid_from rune_width csv_text join
records_joined = refl

mark_removed : extract two_records plain_text (some (239 ∷ 187 ∷ 191 ∷ 65 ∷ [])) ≡ inr (65 ∷ [])
unfolding extract read_utf8 valid_from rune_width
mark_removed = refl

surrogate_rejected :
    extract two_records plain_text (some (237 ∷ 160 ∷ 128 ∷ []))
    ≡ inl (validation "text file must be valid UTF-8")
unfolding extract read_utf8 valid_from rune_width
surrogate_rejected = refl

visible_text-prune_example : visible_text same (prune same page) ≡ visible_text same page
visible_text-prune_example = visible_text-prune same page
