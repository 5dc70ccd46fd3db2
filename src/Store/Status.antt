-- ===== src/Store/Status.antt =====
-- `UpdateStatus`, `MarkDeleted` and `Delete` of internal/store/store.go: what they report, what they
-- change, and that a logically deleted row stays so.
use mathlib.Core.Path.{fun_ext}
use llm_file_gateway.Prelude.{
  ℕ, ◌≡◌, refl, ap, subst, ◌∙◌, Bool, true, false, not, ◌&&◌, Option, none, some, [], ◌∷◌, arith,
  select, is_some, if◌then◌else◌,
}
use llm_file_gateway.Prelude.Text.{String, ◌=ˢ◌, eq_iff, eq_refl}
use llm_file_gateway.Store.{
  File, FilePath, Table, first_row, exactly_one, update_rows, null_if_empty, null_if_no_path, live,
  get, get_internal, update_status, mark_deleted,
}
use llm_file_gateway.Store.Rows.{
  Has, IsKeyed, Has-select, first_row-Has, select_keyed, update_rows-IsKeyed, update_rows-Has,
}

-- The row that the primary key finds.
pub get_internal_keyed :
    (table : Table) (row : File)
    → IsKeyed table
    → Has row table
    → get_internal row.id table ≡ some row
unfolding get_internal
get_internal_keyed table row keyed h =
    ap (λ p. first_row (select p table)) (fun_ext λ (r : File). and_true (r.id =ˢ row.id))
    ∙ ap first_row (select_keyed (λ r. true) table row keyed h)
  where
    and_true : (b : Bool) → b ≡ (b && true)
    and_true b = ground arith

-- A statement that names the row's id and tests it by `p`: how many rows it finds, and what is
-- under the id afterwards.
module _ (p : File → Bool) (set : File → File)
    (same_id : (row : File) → (set row).id ≡ row.id) where
  abbrev matches : String → File → Bool
  matches id row = row.id =ˢ id && p row

  pub found_one :
      (table : Table) (row : File)
      → IsKeyed table
      → Has row table
      → exactly_one (select (matches row.id) table) ≡ p row
  found_one table row keyed h = ap exactly_one (select_keyed p table row keyed h) ∙ one_if (p row)
    where
      one_if : (b : Bool) → exactly_one (if b then row ∷ [] else []) ≡ b
      one_if true = refl
      one_if false = refl

  pub get_internal-update :
      (table : Table) (row : File)
      → IsKeyed table
      → Has row table
      → get_internal row.id (update_rows (matches row.id) set table)
        ≡ some (if p row then set row else row)
  get_internal-update table row keyed h =
      subst (λ (id : String). get_internal id after ≡ some row') same
        (get_internal_keyed after row'
          (update_rows-IsKeyed (matches row.id) set same_id table keyed) there)
    where
      after : Table
      after = update_rows (matches row.id) set table

      row' : File
      row' = if p row then set row else row

      same : row'.id ≡ row.id
      same = ground (arith, same_id row)

      there : Has row' after
      there =
          subst (λ b. Has (if b then set row else row) after) (rw (eq_refl row.id))
            (update_rows-Has (matches row.id) set same_id table row h)

-- The row as `UpdateStatus` writes it.
abbrev pub with_status : String → FilePath → String → File → File
with_status status manifest_path error_message row = record row {
  status = status;
  manifest_path = null_if_no_path manifest_path;
  error_message = null_if_empty error_message;
}

abbrev not_deleted : File → Bool
not_deleted row = not (is_some row.deleted_at)

module _ (status : String) (manifest_path : FilePath) (error_message : String) where
  pub update_status-IsKeyed :
      (id : String) (table : Table)
      → IsKeyed table
      → IsKeyed (update_status id status manifest_path error_message table).1
  unfolding update_status
  update_status-IsKeyed id table keyed =
      update_rows-IsKeyed _ (with_status status manifest_path error_message) (λ row. refl) table
        keyed

  -- `UpdateStatus` reports success exactly for a row that is not logically deleted; that row then has
  -- the new status, path and message, with empty texts stored as NULL, and a deleted row stays as it
  -- was.
  pub update_status_exact :
      (table : Table) (row : File)
      → IsKeyed table
      → Has row table
      → let (updated, after) = update_status row.id status manifest_path error_message table in
        (updated ≡ not (is_some row.deleted_at))
        × (get_internal row.id after
            ≡ some (if updated then with_status status manifest_path error_message row else row))
  unfolding update_status
  update_status_exact table row keyed h =
      let one = found_one not_deleted set (λ r. refl) table row keyed h in
      (one, rw one (get_internal-update not_deleted set (λ r. refl) table row keyed h))
    where
      set : File → File
      set = with_status status manifest_path error_message

-- A predicate on the row under an id, whatever else is in the table.
module _ (now : ℕ) where
  abbrev with_deletion : File → File
  with_deletion row = record row { deleted_at = some now }

  pub mark_deleted-IsKeyed :
      (id tenant_id : String) (table : Table)
      → IsKeyed table
      → IsKeyed (mark_deleted now id tenant_id table).1
  unfolding mark_deleted
  mark_deleted-IsKeyed id tenant_id table keyed =
      update_rows-IsKeyed _ with_deletion (λ row. refl) table keyed

  -- `MarkDeleted` reports success exactly for a row of the tenant that is not deleted yet, and that
  -- row then carries the deletion time; any other row stays as it was.
  mark_deleted_exact :
      (tenant_id : String) (table : Table) (row : File)
      → IsKeyed table
      → Has row table
      → let (marked, after) = mark_deleted now row.id tenant_id table in
        (marked ≡ (row.tenant_id =ˢ tenant_id && not_deleted row))
        × (get_internal row.id after ≡ some (if marked then with_deletion row else row))
  unfolding mark_deleted
  mark_deleted_exact tenant_id table row keyed h =
      let one = found_one claimable with_deletion (λ r. refl) table row keyed h in
      (one, rw one (get_internal-update claimable with_deletion (λ r. refl) table row keyed h))
    where
      claimable : File → Bool
      claimable r = r.tenant_id =ˢ tenant_id && not_deleted r

pub get_internal-Has :
    (id : String) (table : Table) (row : File)
    → get_internal id table ≡ some row
    → Has row table × (row.id ≡ id)
unfolding get_internal
get_internal-Has id table row e =
    let (found, same) = Has-select _ row table (first_row-Has _ row e) in
    (found, (eq_iff row.id id).0 same)

-- What a logically deleted row is for the statements that name its id.
module _ (table : Table) (row : File) (keyed : IsKeyed table) (h : Has row table) (time : ℕ)
    (gone : row.deleted_at ≡ some time) where
  get_deleted : (later : ℕ) (tenant : String) → get later row.id tenant table ≡ none
  unfolding get live
  get_deleted later tenant =
      ap first_row (select_keyed (λ r. r.tenant_id =ˢ tenant && live later r) table row keyed h)
      ∙ ground (arith, gone)

  mark_deleted_again :
      (later : ℕ) (tenant : String)
      → let (marked, after) = mark_deleted later row.id tenant table in
        (marked ≡ false) × (get_internal row.id after ≡ some row)
  mark_deleted_again later tenant =
      let (exact, found) = mark_deleted_exact later tenant table row keyed h in
      let refused : (mark_deleted later row.id tenant table).0 ≡ false =
        ground (arith, gone, exact) in
      (refused, found ∙ rw refused refl)

  update_status_deleted :
      (status : String) (path : FilePath) (message : String)
      → let (updated, after) = update_status row.id status path message table in
        (updated ≡ false) × (get_internal row.id after ≡ some row)
  update_status_deleted status path message =
      let (exact, found) = update_status_exact status path message table row keyed h in
      let refused = exact ∙ ap (λ (d : Option ℕ). not (is_some d)) gone in
      (refused, found ∙ rw refused refl)

-- Once a row is marked as deleted, it is gone for good: no tenant finds it at any time, a second mark
-- and every status update report that they did nothing and leave the row as the first mark left it,
-- with its deletion time, so that a conversion which ends late cannot bring the file back.
pub mark_deleted_final :
    (now : ℕ) (tenant_id : String) (table : Table) (row : File)
    → IsKeyed table
    → Has row table
    → (mark_deleted now row.id tenant_id table).0 ≡ true
    → let after = (mark_deleted now row.id tenant_id table).1 in
      ((later : ℕ) (tenant : String) → get later row.id tenant after ≡ none)
      × ((later : ℕ) (tenant : String)
          → ((mark_deleted later row.id tenant after).0 ≡ false)
            × (get_internal row.id (mark_deleted later row.id tenant after).1
                ≡ some (record row { deleted_at = some now })))
      × ((status : String) (path : FilePath) (message : String)
          → ((update_status row.id status path message after).0 ≡ false)
            × (get_internal row.id (update_status row.id status path message after).1
                ≡ some (record row { deleted_at = some now })))
mark_deleted_final now tenant_id table row keyed h marked = (
  get_deleted after gone keyed' there now refl,
  mark_deleted_again after gone keyed' there now refl,
  update_status_deleted after gone keyed' there now refl,
)
  where
    after : Table
    after = (mark_deleted now row.id tenant_id table).1

    gone : File
    gone = record row { deleted_at = some now }

    keyed' : IsKeyed after
    keyed' = mark_deleted-IsKeyed now row.id tenant_id table keyed

    there : Has gone after
    there =
        (get_internal-Has row.id after gone
          ((mark_deleted_exact now tenant_id table row keyed h).1 ∙ rw marked refl)).0
