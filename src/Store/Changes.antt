-- ===== src/Store/Changes.antt =====
-- What the statements of internal/store/store.go do to one row while the gateway runs: workers update the status
-- of files, deletions mark and delete rows, and requests add rows.
use llm_file_gateway.Prelude.{
  ℕ, ◌≡◌, ◌≢◌, refl, sym, ap, subst, ◌∙◌, inl, inr, Bool, false, not, ◌&&◌, Option, none, some,
  List, [], ◌∷◌, ◌++◌, arith, All, is_some, Bool-cases, if◌then◌else◌, any,
}
use llm_file_gateway.Prelude.Text.{String, ◌=ˢ◌, eq_iff}
use llm_file_gateway.Store.{
  File, FilePath, Table, add, update_status, mark_deleted, delete, update_rows, null_if_empty,
  null_if_no_path,
}
use llm_file_gateway.Store.Rows.{
  Has, IsKeyed, add-IsKeyed, delete-IsKeyed, select-Has, update_rows-Has,
}
use llm_file_gateway.Store.Status.{update_status-IsKeyed, mark_deleted-IsKeyed}

pub data Change : Type 0 where
  updated : String → String → FilePath → String → Change
  marked : ℕ → String → String → Change
  deleted : String → String → Change
  added : File → Change

abbrev pub run_change : Change → Table → Table
run_change (updated id status manifest_path error) table =
    (update_status id status manifest_path error table).1
run_change (marked now id tenant) table = (mark_deleted now id tenant table).1
run_change (deleted id tenant) table = (delete id tenant table).1
run_change (added file) table = elim (add file table) [ none ↦ table | some after ↦ after ]

abbrev pub run_changes : List Change → Table → Table
run_changes [] table = table
run_changes (change ∷ changes) table = run_changes changes (run_change change table)

-- Nobody deletes the file.
abbrev pub Spares : String → Change → Type 0
Spares id (updated other status manifest_path error) = Unit
Spares id (marked now other tenant) = other ≢ id
Spares id (deleted other tenant) = other ≢ id
Spares id (added file) = Unit

-- The status of a file, if it had another one before.
abbrev pub last_status : String → String → List Change → String
last_status id status [] = status
last_status id status (updated other next manifest_path error ∷ changes) =
    last_status id (if id =ˢ other then next else status) changes
last_status id status (marked now other tenant ∷ changes) = last_status id status changes
last_status id status (deleted other tenant ∷ changes) = last_status id status changes
last_status id status (added file ∷ changes) = last_status id status changes

-- The row of a file at another time: only the outcome of the conversion may differ.
pub record SameFile (a b : File) : Type 0 where
  pub id : a.id ≡ b.id
  pub tenant_id : a.tenant_id ≡ b.tenant_id
  pub filename : a.filename ≡ b.filename
  pub media_type : a.media_type ≡ b.media_type
  pub purpose : a.purpose ≡ b.purpose
  pub bytes : a.bytes ≡ b.bytes
  pub created_at : a.created_at ≡ b.created_at
  pub expires_at : a.expires_at ≡ b.expires_at
  pub deleted_at : a.deleted_at ≡ b.deleted_at

pub same_file : (a : File) → SameFile a a
same_file a = record {
  id = refl;
  tenant_id = refl;
  filename = refl;
  media_type = refl;
  purpose = refl;
  bytes = refl;
  created_at = refl;
  expires_at = refl;
  deleted_at = refl;
}

SameFile-trans : (a b c : File) → SameFile a b → SameFile b c → SameFile a c
SameFile-trans a b c h k = record {
  id = h.id ∙ k.id;
  tenant_id = h.tenant_id ∙ k.tenant_id;
  filename = h.filename ∙ k.filename;
  media_type = h.media_type ∙ k.media_type;
  purpose = h.purpose ∙ k.purpose;
  bytes = h.bytes ∙ k.bytes;
  created_at = h.created_at ∙ k.created_at;
  expires_at = h.expires_at ∙ k.expires_at;
  deleted_at = h.deleted_at ∙ k.deleted_at;
}

-- The row that stands where `row` stood, with a status.
abbrev pub Stands : File → String → Table → Type 0
Stands row status table = (now : File) × Has now table × SameFile row now × (now.status ≡ status)

Has-append : (row : File) (table rest : Table) → Has row table → Has row (table ++ rest)
Has-append row [] rest h = elim h [ ]
Has-append row (first ∷ table) rest (inl e) = inl e
Has-append row (first ∷ table) rest (inr h) = inr (Has-append row table rest h)

add-append :
    (file : File) (table after : Table) → add file table ≡ some after → table ++ file ∷ [] ≡ after
unfolding add
add-append file table after e = elim (Bool-cases (any (λ row. row.id =ˢ file.id) table)) [
  | inl taken ↦ ground arith
  | inr free ↦ ground arith
]

-- A row is added, unless its id is taken.
run_added :
    (P : Table → Type 0) (file : File) (table : Table)
    → P table
    → ((after : Table) → add file table ≡ some after → P after)
    → P (run_change (added file) table)
run_added P file table h k = go (add file table) refl
  where
    go : (o : Option Table) → add file table ≡ o → P (elim o [ none ↦ table | some after ↦ after ])
    go none e = h
    go (some after) e = k after e

pub run_change-IsKeyed :
    (change : Change) (table : Table) → IsKeyed table → IsKeyed (run_change change table)
run_change-IsKeyed (updated id status manifest_path error) table h =
    update_status-IsKeyed status manifest_path error id table h
run_change-IsKeyed (marked now id tenant) table h = mark_deleted-IsKeyed now id tenant table h
run_change-IsKeyed (deleted id tenant) table h = delete-IsKeyed id tenant table h
run_change-IsKeyed (added file) table h =
    run_added IsKeyed file table h λ after e. add-IsKeyed file table after e h

pub run_changes-IsKeyed :
    (changes : List Change) (table : Table) → IsKeyed table → IsKeyed (run_changes changes table)
run_changes-IsKeyed [] table h = h
run_changes-IsKeyed (change ∷ changes) table h =
    run_changes-IsKeyed changes (run_change change table) (run_change-IsKeyed change table h)

module _ (row : File) (table : Table) (there : Has row table) (alive : row.deleted_at ≡ none) where
  not_other : (other : String) (b : Bool) → other ≢ row.id → (row.id =ˢ other && b) ≡ false
  not_other other b h = ground (arith, eq_iff row.id other, h)

  updated-Stands :
      (id status : String) (manifest_path : FilePath) (error : String)
      → Stands row
          (if row.id =ˢ id then status else row.status)
          (run_change (updated id status manifest_path error) table)
  unfolding update_status
  updated-Stands id status manifest_path error = elim (Bool-cases (row.id =ˢ id)) [
    | inl e ↦ rw e (
      record row {
        status = status;
        manifest_path = null_if_no_path manifest_path;
        error_message = null_if_empty error;
      },
      subst (λ r. Has r (run_change (updated id status manifest_path error) table))
          (rw (e, alive) refl) moved,
      same_row,
      refl,
    )
    | inr e ↦ rw e (
      row,
      subst (λ r. Has r (run_change (updated id status manifest_path error) table)) (rw e refl)
          moved,
      same_file row,
      refl,
    )
  ]
    where
      set : File → File
      set r = record r {
        status = status;
        manifest_path = null_if_no_path manifest_path;
        error_message = null_if_empty error;
      }

      same_row : SameFile row (set row)
      same_row = record {
        id = refl;
        tenant_id = refl;
        filename = refl;
        media_type = refl;
        purpose = refl;
        bytes = refl;
        created_at = refl;
        expires_at = refl;
        deleted_at = refl;
      }

      moved :
          Has
            (if row.id =ˢ id && not (is_some row.deleted_at) then set row else row)
            (update_rows (λ r. r.id =ˢ id && not (is_some r.deleted_at)) set table)
      moved =
          update_rows-Has (λ r. r.id =ˢ id && not (is_some r.deleted_at)) set (λ r. refl) table row
            there

  marked-Has :
      (now : ℕ) (id tenant : String)
      → id ≢ row.id
      → Has row (run_change (marked now id tenant) table)
  unfolding mark_deleted
  marked-Has now id tenant other =
      subst (λ r. Has r (run_change (marked now id tenant) table))
        (rw (not_other id (row.tenant_id =ˢ tenant && not (is_some row.deleted_at)) other) refl)
        (update_rows-Has (λ r. r.id =ˢ id && (r.tenant_id =ˢ tenant && not (is_some r.deleted_at)))
          (λ r. record r { deleted_at = some now }) (λ r. refl) table row there)

  deleted-Has : (id tenant : String) → id ≢ row.id → Has row (run_change (deleted id tenant) table)
  unfolding delete
  deleted-Has id tenant other =
      select-Has (λ r. not (r.id =ˢ id && r.tenant_id =ˢ tenant)) row table there
        (rw (not_other id (row.tenant_id =ˢ tenant) other) refl)

  added-Has : (file : File) → Has row (run_change (added file) table)
  added-Has file = run_added (Has row) file table there λ after e.
      subst (Has row) (add-append file table after e) (Has-append row table (file ∷ []) there)

-- A row that nobody deletes stays, with the status of the last update.
pub run_changes-Stands :
    (changes : List Change) (row : File) (table : Table)
    → Has row table
    → row.deleted_at ≡ none
    → All (Spares row.id) changes
    → Stands row (last_status row.id row.status changes) (run_changes changes table)
run_changes-Stands [] row table there alive spared = (row, there, same_file row, refl)
run_changes-Stands (updated id status manifest_path error ∷ changes) row table there alive spared =
    let (row', there', same, found) =
      updated-Stands row table there alive id status manifest_path error in
    let (now, stands, same', ends) =
      run_changes-Stands changes row' (run_change (updated id status manifest_path error) table)
        there' (sym same.deleted_at ∙ alive)
        (subst (λ i. All (Spares i) changes) same.id spared.1) in
    (
      now,
      stands,
      SameFile-trans row row' now same same',
      ends
          ∙ ap (λ i. last_status i row'.status changes) (sym same.id)
          ∙ ap (λ s. last_status row.id s changes) found,
    )
run_changes-Stands (marked now id tenant ∷ changes) row table there alive spared =
    run_changes-Stands changes row _ (marked-Has row table there alive now id tenant spared.0) alive
      spared.1
run_changes-Stands (deleted id tenant ∷ changes) row table there alive spared =
    run_changes-Stands changes row _ (deleted-Has row table there alive id tenant spared.0) alive
      spared.1
run_changes-Stands (added file ∷ changes) row table there alive spared =
    run_changes-Stands changes row _ (added-Has row table there alive file) alive spared.1
