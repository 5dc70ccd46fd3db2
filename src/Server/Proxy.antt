-- ===== src/Server/Proxy.antt =====
-- The headers that the gateway passes on (internal/server/proxy.go, `copyHeaders` and what
-- `forwardRequest` and `forwardJSON` do with the request's headers). A header is the list of its keys
-- with their values. strings.ToLower, strings.TrimSpace and the canonical form that package net/http
-- gives a key are parameters.
pub mod Headers
pub mod Bodies
pub mod Forward
pub mod Timeout
pub mod Tests
use llm_file_gateway.Prelude.{
  ℕ, Bool, true, false, not, ◌&&◌, ◌||◌, Option, none, some, List, [], ◌∷◌, ◌++◌, any, select, ◌==◌,
  if◌then◌else◌,
}
use llm_file_gateway.Prelude.Text.{String, code, ◌=ˢ◌, ◌+ˢ◌}

abbrev pub Header : Type 0
Header = List (String × List String)

abbrev pub hop_by_hop_headers : List String
hop_by_hop_headers =
    "connection" ∷ "keep-alive" ∷ "proxy-authenticate" ∷ "proxy-authorization" ∷ "proxy-connection"
    ∷ "te" ∷ "trailer" ∷ "transfer-encoding" ∷ "upgrade" ∷ "host" ∷ "content-length" ∷ []

abbrev pub is_member : String → List String → Bool
is_member name = any λ other. name =ˢ other

-- strings.Split at ',', which is 44: the part before the first comma, and the other parts.
abbrev split_from : String → String → List String
split_from String.[] part = part ∷ []
split_from (String.◌∷◌ c s) part =
    if code c == 44
    then part ∷ split_from s String.[]
    else split_from s (part +ˢ String.◌∷◌ c String.[])

abbrev pub split_commas : String → List String
split_commas value = split_from value String.[]

-- header.Values
abbrev pub values_of : String → Header → List String
values_of key [] = []
values_of key ((name, values) ∷ header) = if key =ˢ name then values else values_of key header

-- The key with one more value.
abbrev pub add_value : String → String → Header → Header
add_value key value [] = (key, value ∷ []) ∷ []
add_value key value ((name, values) ∷ header) =
    if key =ˢ name
    then (name, values ++ value ∷ []) ∷ header
    else (name, values) ∷ add_value key value header

-- header.Del and header.Set
abbrev pub remove_key : String → Header → Header
remove_key key = select λ entry. not (key =ˢ entry.0)

abbrev pub set_value : String → String → Header → Header
set_value key value header = (key, value ∷ []) ∷ remove_key key header

module _ (to_lower trim_space canonical : String → String) where
  abbrev pub names_in : List String → List String
  names_in [] = []
  names_in (part ∷ parts) =
      let name = trim_space part in
      let rest = names_in parts in if name =ˢ "" then rest else to_lower name ∷ rest

  abbrev pub names_in_all : List String → List String
  names_in_all [] = []
  names_in_all (value ∷ values) = names_in (split_commas value) ++ names_in_all values

  -- The headers that belong to one hop because the header Connection names them.
  abbrev pub connection_headers : Header → List String
  connection_headers source = names_in_all (values_of "Connection" source)

  abbrev pub add_all : String → List String → Header → Header
  add_all name [] destination = destination
  add_all name (value ∷ values) destination =
      add_all name values (add_value (canonical name) value destination)

  abbrev pub is_dropped : List String → String → Bool
  is_dropped connection name =
      is_member (to_lower name) hop_by_hop_headers || is_member (to_lower name) connection

  abbrev pub copy_entries : List String → Header → Header → Header
  copy_entries connection destination [] = destination
  copy_entries connection destination ((name, values) ∷ source) =
      copy_entries connection
        (if is_dropped connection name then destination else add_all name values destination) source

  unfoldable pub copy_headers : Header → Header → Header
  copy_headers destination source = copy_entries (connection_headers source) destination source

  -- The headers of the request to the model server: the client's own Authorization is replaced.
  unfoldable pub upstream_headers : String → Header → Header
  unfolding copy_headers
  upstream_headers api_key source =
      set_value "Authorization" ("Bearer " +ˢ api_key)
        (remove_key "Authorization" (copy_headers [] source))
