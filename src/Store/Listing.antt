-- ===== src/Store/Listing.antt =====
-- `List` of internal/store/store.go: its result is a page of one total order, and following the
-- cursor goes through that order without a gap or a repetition.
use mathlib.Core.List.{append_assoc}
use mathlib.Core.Path.{ap₂}
use llm_file_gateway.Prelude.{
  ℕ, ◌+◌, ◌≡◌, refl, sym, ap, subst, ◌∙◌, Bool, true, false, Option, none, some, List, [], ◌∷◌,
  ◌++◌, arith, All, All-both, All-take, All-select, All-append_right, select-All, All-map, select,
  take, drop, take-append-drop, take-add, select_imp, if◌then◌else◌,
}
use llm_file_gateway.Prelude.Text.{String, ◌=ˢ◌}
use llm_file_gateway.Prelude.Sorting.{
  StrictOrder, IsIncreasing, IsSorted-IsIncreasing, All-sort, sort, sort-IsSorted, sort-Pairs,
  select-sort, select_above,
}
use llm_file_gateway.Store.{
  File, Key, Table, key, listed, precedes, beyond, find_cursor, list_files,
}
use llm_file_gateway.Store.Order.{precedes-StrictOrder, precedes_total}
use llm_file_gateway.Store.Rows.{Has, Apart, IsKeyed, All-Has, select_keyed, select-IsKeyed}

-- The order of rows that the key and the direction give.
abbrev pub row_precedes : String → File → File → Bool
row_precedes order a b = precedes order (key a) (key b)

-- The cursor of a request: none if it names none, or a file that the tenant does not have.
abbrev pub cursor_of : String → String → Table → Option Key
cursor_of after tenant_id table = if after =ˢ "" then none else find_cursor after tenant_id table

row_order : (order : String) → StrictOrder (row_precedes order)
row_order order = record {
  irrefl = λ a. (precedes-StrictOrder order).irrefl (key a);
  trans = λ a b c. (precedes-StrictOrder order).trans (key a) (key b) (key c);
  neg_trans = λ a b c. (precedes-StrictOrder order).neg_trans (key a) (key b) (key c);
}

Apart-sym : (a b : File) → Apart a b → Apart b a
Apart-sym a b h e = h (sym e)

-- The whole listing, before LIMIT.
abbrev pub whole : ℕ → String → String → String → Option Key → Table → List File
whole now tenant_id purpose order cursor table =
    sort (row_precedes order)
      (select (beyond order cursor) (select (listed now tenant_id purpose) table))

pub whole-IsIncreasing :
    (now : ℕ) (tenant_id purpose order : String) (cursor : Option Key) (table : Table)
    → IsKeyed table
    → IsIncreasing (row_precedes order) (whole now tenant_id purpose order cursor table)
whole-IsIncreasing now tenant_id purpose order cursor table keyed =
    IsSorted-IsIncreasing (row_precedes order) Apart Apart-sym
      (λ a b h k. precedes_total order (key a) (key b) h k) _
      (sort-Pairs (row_precedes order) Apart Apart-sym _ (
        select-IsKeyed (beyond order cursor) _
          (select-IsKeyed (listed now tenant_id purpose) table keyed)))
      (sort-IsSorted (row_order order) _)

module _ (now : ℕ) (tenant_id purpose order after : String) (table : Table)
    (keyed : IsKeyed table) where
  abbrev cursor : Option Key
  cursor = cursor_of after tenant_id table

  -- What the listings from this cursor go through.
  abbrev all_rows : List File
  all_rows = whole now tenant_id purpose order cursor table

  abbrev IsKnown : File → Type 0
  IsKnown row =
      Has row table × ((row.tenant_id =ˢ tenant_id) ≡ true) × (beyond order cursor row ≡ true)

  listed_tenant :
      (row : File) → listed now tenant_id purpose row ≡ true → (row.tenant_id =ˢ tenant_id) ≡ true
  unfolding listed
  listed_tenant row h = ground arith

  all_rows-IsKnown : All IsKnown all_rows
  all_rows-IsKnown = All-sort (row_precedes order) Apart Apart-sym IsKnown _ (
      All-map _ IsKnown (λ row h. (h.0.0, listed_tenant row h.0.1, h.1)) _
        (All-both _ _ _ (All-select _ (beyond order cursor) matching matching-Has)
          (select-All (beyond order cursor) matching)))
    where
      matching : List File
      matching = select (listed now tenant_id purpose) table

      matching-Has : All (λ row. Has row table × (listed now tenant_id purpose row ≡ true)) matching
      matching-Has =
          All-both _ _ _ (All-select _ (listed now tenant_id purpose) table (All-Has table))
            (select-All (listed now tenant_id purpose) table)

  find_cursor_known :
      (row : File) → IsKnown row → find_cursor row.id tenant_id table ≡ some (key row)
  unfolding find_cursor
  find_cursor_known row h =
      rw (find_cursor, select_keyed (λ r. r.tenant_id =ˢ tenant_id) table row keyed h.0)
        (ground (arith, h.1))

  beyond_trans :
      (row : File)
      → IsKnown row
      → (c : Option Key) → cursor ≡ c
      → (z : File) → row_precedes order row z ≡ true
      → beyond order c z ≡ true
  beyond_trans row h none e z k = refl
  beyond_trans row h (some c) e z k =
      (precedes-StrictOrder order).trans c (key row) (key z)
        (subst (λ c. beyond order c row ≡ true) e h.2) k

  -- The listing from a row of this listing is what stands behind that row.
  whole_known :
      (before : List File) (row : File) (rest : List File)
      → all_rows ≡ before ++ row ∷ rest
      → IsKnown row
      → whole now tenant_id purpose order (some (key row)) table ≡ rest
  whole_known before row rest e h =
      ap (sort (row_precedes order)) (
        sym (
          select_imp (row_precedes order row) (beyond order cursor) (beyond_trans row h cursor refl)
            _))
      ∙ sym (select-sort (row_order order) (row_precedes order row) _)
      ∙ ap (select (row_precedes order row)) e
      ∙ select_above (row_order order) before row rest (
          subst (IsIncreasing (row_precedes order)) e
            (whole-IsIncreasing now tenant_id purpose order cursor table keyed))

  list_files_whole :
      (n : ℕ) → list_files now tenant_id purpose n order after table ≡ take n all_rows
  unfolding list_files
  list_files_whole n = refl

  list_files_after :
      (m : ℕ) (row : File)
      → (row.id =ˢ "") ≡ false
      → IsKnown row
      → list_files now tenant_id purpose m order row.id table
        ≡ take m (whole now tenant_id purpose order (some (key row)) table)
  unfolding list_files
  list_files_after m row h k = rw (list_files, h, find_cursor_known row k)

  -- Pages join up, from any cursor: a page of `n` entries that ends with some row, followed by the
  -- page of `m` entries after that row's id, is the page of `n + m` entries. The ids of rows are not
  -- empty, and the same instant is taken for all three listings.
  pub pages_join :
      (n m : ℕ) (before : List File) (last : File)
      → list_files now tenant_id purpose n order after table ≡ before ++ last ∷ []
      → (last.id =ˢ "") ≡ false
      → list_files now tenant_id purpose n order after table
          ++ list_files now tenant_id purpose m order last.id table
        ≡ list_files now tenant_id purpose (n + m) order after table
  pages_join n m before last e h =
      ap₂ ◌++◌ (list_files_whole n) (list_files_after m last h known ∙ ap (take m) behind)
      ∙ sym (take-add n m all_rows)
      ∙ sym (list_files_whole (n + m))
    where
      page : take n all_rows ≡ before ++ last ∷ []
      page = sym (list_files_whole n) ∙ e

      known : IsKnown last
      known =
          (All-append_right IsKnown before (last ∷ [])
            (subst (All IsKnown) page (All-take IsKnown n all_rows all_rows-IsKnown))).0

      behind : whole now tenant_id purpose order (some (key last)) table ≡ drop n all_rows
      behind =
          whole_known before last (drop n all_rows)
            (sym (take-append-drop n all_rows)
              ∙ ap (λ rows. rows ++ drop n all_rows) page
              ∙ append_assoc before (last ∷ []) (drop n all_rows))
            known
