-- ===== src/Converter/Extract.antt =====
-- internal/converter/extractor: the text of a plain, a CSV or an HTML file. The parsers of encoding/csv and
-- golang.org/x/net/html are parameters, and so is strings.ToLower.
pub mod Pruned
pub mod Tests
use llm_file_gateway.Prelude.{
  ℕ, zero, suc, ◌+◌, ◌-◌, Bool, true, false, not, ◌&&◌, ◌||◌, Option, none, some, List, [], ◌∷◌,
  ◌++◌, ◌⊎◌, inl, inr, map, select, ◌==◌, if◌then◌else◌,
}
use llm_file_gateway.Prelude.Text.{String, ◌=ˢ◌, ◌+ˢ◌}
use llm_file_gateway.Files.Disk.{Bytes}
use llm_file_gateway.Files.Retry.{Failure, validation, other}
use llm_file_gateway.Converter.Utf8.{valid_from, space_width}
use llm_file_gateway.Converter.Formats.{Extractor, plain_text, extract_csv, extract_html}

-- A node of a parsed document: an element with its name, a text, or one of the other kinds.
mutual
  pub data Node : Type 0 where
    element : String → Nodes → Node
    text_node : Bytes → Nodes → Node
    other_node : Nodes → Node

  pub data Nodes : Type 0 where
    nil : Nodes
    cons : Node → Nodes → Nodes

-- The parsers: the records of a CSV text or the text of the error, and the tree of a document.
pub record Parsers : Type 0 where
  pub csv_records : Bytes → String ⊎ List (List Bytes)
  pub parse_html : Bytes → String ⊎ Node
  pub lower : String → String

abbrev is_empty : Bytes → Bool
is_empty [] = true
is_empty (b ∷ bytes) = false

abbrev has_nul : Bytes → Bool
has_nul [] = false
has_nul (b ∷ bytes) = b == 0 || has_nul bytes

-- Without a byte order mark in front.
abbrev pub without_mark : Bytes → Bytes
without_mark (a ∷ b ∷ c ∷ rest) =
    if a == 239 && (b == 187 && c == 191) then rest else a ∷ b ∷ c ∷ rest
without_mark bytes = bytes

-- `readUTF8`, of what os.ReadFile returns; `none` is its error.
unfoldable pub read_utf8 : Option Bytes → Failure ⊎ Bytes
unfolding valid_from
read_utf8 none = inl (other "read source")
read_utf8 (some content) =
    let bytes = without_mark content in
    if not (valid_from 0 bytes)
    then inl (validation "text file must be valid UTF-8")
    else if has_nul bytes
    then inl (validation "text file must not contain null bytes")
    else inr bytes

-- strings.Join with a separator of one byte.
unfoldable pub join : ℕ → List Bytes → Bytes
join separator [] = []
join separator (part ∷ []) = part
join separator (part ∷ next ∷ parts) = part ++ separator ∷ join separator (next ∷ parts)

-- Cells are joined by tabs, records by line feeds.
unfoldable pub csv_text : List (List Bytes) → Bytes
unfolding join
csv_text records = join 10 (map (join 9) records)

abbrev one_of : List String → String → Bool
one_of [] name = false
one_of (first ∷ names) name = name =ˢ first || one_of names name

unfoldable pub is_hidden : String → Bool
is_hidden = one_of ("head" ∷ "script" ∷ "style" ∷ "template" ∷ [])

unfoldable pub is_block : String → Bool
is_block = one_of (
    "address" ∷ "article" ∷ "aside" ∷ "blockquote" ∷ "br" ∷ "div" ∷ "footer" ∷ "h1" ∷ "h2" ∷ "h3"
    ∷ "h4" ∷ "h5" ∷ "h6" ∷ "header" ∷ "hr" ∷ "li" ∷ "main" ∷ "nav" ∷ "ol" ∷ "p" ∷ "pre" ∷ "section"
    ∷ "table" ∷ "td" ∷ "th" ∷ "tr" ∷ "ul" ∷ [])

abbrev pub line_feed : Bool → Bytes
line_feed true = 10 ∷ []
line_feed false = []

-- What `walk` writes for a node, and for its children.
unfoldable mutual
  pub walk : (String → String) → Bool → Node → Bytes
  walk lower inside_hidden (element name children) =
      let hidden = inside_hidden || is_hidden (lower name) in
      let feed = line_feed (not hidden && is_block (lower name)) in
      feed ++ walk_all lower hidden children ++ feed
  walk lower inside_hidden (text_node bytes children) =
      (if inside_hidden then [] else bytes) ++ walk_all lower inside_hidden children
  walk lower inside_hidden (other_node children) = walk_all lower inside_hidden children

  pub walk_all : (String → String) → Bool → Nodes → Bytes
  walk_all lower inside_hidden nil = []
  walk_all lower inside_hidden (cons node nodes) =
      walk lower inside_hidden node ++ walk_all lower inside_hidden nodes

-- strings.Split at line feeds.
unfoldable pub split_lines : Bytes → List Bytes
split_lines [] = [] ∷ []
split_lines (b ∷ bytes) = elim (split_lines bytes) [
  | [] ↦ []
  | line ∷ lines ↦ if b == 10 then [] ∷ line ∷ lines else (b ∷ line) ∷ lines
]

-- strings.Fields: the number is what is left of a space of several bytes, and then comes the word so far.
unfoldable pub fields_from : ℕ → Bytes → Bytes → List Bytes
unfolding space_width
fields_from n word [] = if is_empty word then [] else word ∷ []
fields_from (suc n) word (b ∷ bytes) = fields_from n word bytes
fields_from zero word (b ∷ bytes) =
    let width = space_width (b ∷ bytes) in
    let rest = fields_from (width - 1) (if width == 0 then word ++ b ∷ [] else []) bytes in
    if width == 0 || is_empty word then rest else word ∷ rest

-- The words of each line joined by one space, without the lines that have none.
unfoldable pub normalized : Bytes → Bytes
unfolding join split_lines fields_from
normalized output = join 10 (
    select (λ line. not (is_empty line))
      (map (λ line. join 32 (fields_from 0 [] line)) (split_lines output)))

unfoldable pub visible_text : (String → String) → Node → Bytes
unfolding walk normalized
visible_text lower root = normalized (walk lower false root)

unfoldable pub extract : Parsers → Extractor → Option Bytes → Failure ⊎ Bytes
unfolding read_utf8 csv_text visible_text
extract parsers plain_text content = read_utf8 content
extract parsers extract_csv content = elim (read_utf8 content) [
  | inl failure ↦ inl failure
  | inr bytes ↦ elim (parsers.csv_records bytes) [
    | inl text ↦ inl (validation ("CSV file is malformed: " +ˢ text))
    | inr records ↦ inr (csv_text records)
  ]
]
extract parsers extract_html content = elim (read_utf8 content) [
  | inl failure ↦ inl failure
  | inr bytes ↦ elim (parsers.parse_html bytes) [
    | inl text ↦ inl (other text)
    | inr root ↦ inr (visible_text parsers.lower root)
  ]
]
