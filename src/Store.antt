-- ===== src/Store.antt =====
-- internal/store/store.go: the table of uploaded files and the SQL statements that the store runs.
-- The table is the list of its rows. A text column is a text, a path column the list of the path's
-- elements (the empty path is the empty list), an INTEGER column a number, since the times and sizes
-- that the gateway stores are not negative. NULL is `none`. Statements that the database refuses to
-- run are the business of the callers (Files/Threads.antt); the primary key is checked here.
pub mod Order
pub mod Rows
pub mod Visibility
pub mod Listing
pub mod Exact
pub mod Status
pub mod Gone
pub mod Changes
pub mod Tests
use llm_file_gateway.Prelude.{
  ℕ, Bool, true, false, not, ◌&&◌, ◌||◌, Option, none, some, List, [], ◌∷◌, ◌++◌, map, is_some,
  take, select, any, ltb, leb, ◌==◌, if◌then◌else◌,
}
use llm_file_gateway.Prelude.Text.{String, ◌=ˢ◌, str_lt}
use llm_file_gateway.Prelude.Sorting.{sort}

abbrev pub FilePath : Type 0
FilePath = List String

pub record File : Type 0 where
  pub id : String
  pub tenant_id : String
  pub filename : String
  pub media_type : String
  pub purpose : String
  pub bytes : ℕ
  pub sha256 : String
  pub status : String
  pub source_path : FilePath
  pub manifest_path : Option FilePath
  pub error_message : Option String
  pub created_at : ℕ
  pub expires_at : ℕ
  pub deleted_at : Option ℕ

abbrev pub Table : Type 0
Table = List File

-- The tenant of all files when gateway authentication is disabled.
abbrev pub shared_tenant_id : String
shared_tenant_id = "shared"

-- UPDATE files SET ... WHERE ...: the rows that pass the test are replaced.
abbrev pub update_rows : (File → Bool) → (File → File) → Table → Table
update_rows where? set [] = []
update_rows where? set (row ∷ rows) =
    (if where? row then set row else row) ∷ update_rows where? set rows

-- The first row of a query for at most one row.
abbrev pub first_row : Table → Option File
first_row [] = none
first_row (row ∷ rows) = some row

unfoldable pub consolidate_tenants : Table → Table
consolidate_tenants =
    update_rows (λ row. not (row.tenant_id =ˢ shared_tenant_id))
      λ row. record row { tenant_id = shared_tenant_id }

-- `none` is the violation of PRIMARY KEY.
unfoldable pub add : File → Table → Option Table
add file table = if any (λ row. row.id =ˢ file.id) table then none else some (table ++ file ∷ [])

-- deleted_at IS NULL AND (expires_at = 0 OR expires_at > now)
unfoldable pub live : ℕ → File → Bool
live now row = not (is_some row.deleted_at) && (row.expires_at == 0 || ltb now row.expires_at)

unfoldable pub get : ℕ → String → String → Table → Option File
unfolding live
get now id tenant_id table =
    first_row (select (λ row. row.id =ˢ id && (row.tenant_id =ˢ tenant_id && live now row)) table)

unfoldable pub get_internal : String → Table → Option File
get_internal id table = first_row (select (λ row. row.id =ˢ id) table)

unfoldable pub source_paths : Table → List FilePath
source_paths = map λ row. row.source_path

-- The key of the total order in which files are listed.
abbrev pub Key : Type 0
Key = ℕ × String

abbrev pub key : File → Key
key row = (row.created_at, row.id)

unfoldable pub key_lt : Key → Key → Bool
key_lt (s, i) (t, j) = if ltb s t then true else s == t && str_lt i j

-- ORDER BY created_at DESC, id DESC, or ASC for the order "asc".
unfoldable pub precedes : String → Key → Key → Bool
precedes order a b = if order =ˢ "asc" then key_lt a b else key_lt b a

-- The key of the cursor file, if the tenant has such a row, deleted or not.
unfoldable pub find_cursor : String → String → Table → Option Key
find_cursor after tenant_id table =
    elim (first_row (select (λ row. row.id =ˢ after && row.tenant_id =ˢ tenant_id) table)) [
      | none ↦ none
      | some row ↦ some (key row)
    ]

abbrev pub beyond : String → Option Key → File → Bool
beyond order none row = true
beyond order (some cursor) row = precedes order cursor (key row)

-- The rows that a listing is about, before the cursor.
unfoldable pub listed : ℕ → String → String → File → Bool
unfolding live
listed now tenant_id purpose row =
    row.tenant_id =ˢ tenant_id && (live now row && (purpose =ˢ "" || row.purpose =ˢ purpose))

unfoldable pub list_files : ℕ → String → String → ℕ → String → String → Table → List File
unfolding listed find_cursor precedes
list_files now tenant_id purpose limit order after table =
    let cursor = if after =ˢ "" then none else find_cursor after tenant_id table in
    take limit (
      sort (λ a b. precedes order (key a) (key b))
        (select (beyond order cursor) (select (listed now tenant_id purpose) table)))

abbrev pub null_if_empty : String → Option String
null_if_empty text = if text =ˢ "" then none else some text

abbrev pub null_if_no_path : FilePath → Option FilePath
null_if_no_path [] = none
null_if_no_path (element ∷ path) = some (element ∷ path)

-- How many rows a statement changed, as `count == 1`.
abbrev pub exactly_one : Table → Bool
exactly_one [] = false
exactly_one (row ∷ []) = true
exactly_one (row ∷ other ∷ rows) = false

unfoldable pub update_status : String → String → FilePath → String → Table → Bool × Table
update_status id status manifest_path error_message table =
    let matches : File → Bool = λ row. row.id =ˢ id && not (is_some row.deleted_at) in
    (
      exactly_one (select matches table),
      update_rows matches
          (λ row. record row {
            status = status;
            manifest_path = null_if_no_path manifest_path;
            error_message = null_if_empty error_message;
          })
          table,
    )

unfoldable pub mark_deleted : ℕ → String → String → Table → Bool × Table
mark_deleted now id tenant_id table =
    let matches : File → Bool =
      λ row. row.id =ˢ id && (row.tenant_id =ˢ tenant_id && not (is_some row.deleted_at)) in
    (
      exactly_one (select matches table),
      update_rows matches (λ row. record row { deleted_at = some now }) table,
    )

unfoldable pub delete : String → String → Table → Bool × Table
delete id tenant_id table =
    let matches : File → Bool = λ row. row.id =ˢ id && row.tenant_id =ˢ tenant_id in
    (exactly_one (select matches table), select (λ row. not (matches row)) table)

unfoldable pub pending : ℕ → Table → List String
unfolding live
pending now table =
    map (λ row. row.id)
      (select (λ row. (row.status =ˢ "uploaded" || row.status =ˢ "processing") && live now row)
        table)

-- deleted_at IS NOT NULL OR (expires_at > 0 AND expires_at <= now)
unfoldable pub past : ℕ → File → Bool
past now row = is_some row.deleted_at || (ltb 0 row.expires_at && leb row.expires_at now)

unfoldable pub expired : ℕ → Table → List File
unfolding past
expired now = select (past now)
