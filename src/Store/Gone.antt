-- ===== src/Store/Gone.antt =====
-- Files that are logically deleted or not there, and what the statements of internal/store/store.go do
-- to them.
use llm_file_gateway.Prelude.{
  ℕ, ◌≡◌, refl, sym, ap, ◌∙◌, inl, inr, Bool, true, false, not, ◌&&◌, ◌||◌, some, [], ◌∷◌, arith,
  All, All-select, All-map, All-both, is_some, select, if◌then◌else◌, Bool-cases,
}
use llm_file_gateway.Prelude.Text.{String, ◌=ˢ◌, eq_iff}
use llm_file_gateway.Store.{
  File, FilePath, Table, update_rows, first_row, exactly_one, get_internal, update_status,
  mark_deleted, delete, expired, past,
}
use llm_file_gateway.Store.Rows.{Apart, IsKeyed}

-- No row with an id is left that is not logically deleted.
abbrev pub IsGone : String → Table → Type 0
IsGone id table = All (λ row. (not (row.id =ˢ id) || is_some row.deleted_at) ≡ true) table

All-update_rows :
    (P : File → Type 0) (p : File → Bool) (set : File → File)
    → ((row : File) → P row → P (set row))
    → (table : Table) → All P table
    → All P (update_rows p set table)
All-update_rows P p set keeps [] h = tt
All-update_rows P p set keeps (row ∷ rows) h = elim (Bool-cases (p row)) [
  | inl e ↦ rw e (keeps row h.0, All-update_rows P p set keeps rows h.1)
  | inr e ↦ rw e (h.0, All-update_rows P p set keeps rows h.1)
]

module _ (id : String) where
  pub update_status-IsGone :
      (other status : String) (path : FilePath) (message : String) (table : Table)
      → IsGone id table
      → IsGone id (update_status other status path message table).1
  unfolding update_status
  update_status-IsGone other status path message table h =
      All-update_rows (λ row. (not (row.id =ˢ id) || is_some row.deleted_at) ≡ true) _ _
        (λ row k. k) table h

  pub mark_deleted-IsGone :
      (now : ℕ) (other tenant : String) (table : Table)
      → IsGone id table
      → IsGone id (mark_deleted now other tenant table).1
  unfolding mark_deleted
  mark_deleted-IsGone now other tenant table h =
      All-update_rows (λ row. (not (row.id =ˢ id) || is_some row.deleted_at) ≡ true) _
        (λ row. record row { deleted_at = some now }) (λ row k. ground arith) table h

  pub delete-IsGone :
      (other tenant : String) (table : Table)
      → IsGone id table
      → IsGone id (delete other tenant table).1
  unfolding delete
  delete-IsGone other tenant table h = All-select _ _ table h

  -- Nothing of a file that is gone is updated.
  gone_select :
      (table : Table)
      → IsGone id table
      → select (λ row. row.id =ˢ id && not (is_some row.deleted_at)) table ≡ []
  gone_select [] h = refl
  gone_select (row ∷ rows) h = ground (arith, gone_select rows h.1, h.0)

  pub update_status_refused :
      (status : String) (path : FilePath) (message : String) (table : Table)
      → IsGone id table
      → (update_status id status path message table).0 ≡ false
  unfolding update_status
  update_status_refused status path message table h = ap exactly_one (gone_select table h)

  -- In a keyed table, a mark that succeeds makes its file gone.
  matching : String → File → Bool
  matching tenant row = row.id =ˢ id && (row.tenant_id =ˢ tenant && not (is_some row.deleted_at))

  alone_in :
      (tenant : String) (row : File) (rows : Table)
      → All (Apart row) rows
      → exactly_one (select (matching tenant) rows) ≡ true
      → (row.id =ˢ id) ≡ false
  unfolding matching
  alone_in tenant row [] apart h = absurd (cc h)
  alone_in tenant row (first ∷ rows) apart h = elim (Bool-cases (matching tenant first)) [
    | inl e ↦ ground (arith, apart.0, eq_iff first.id id, eq_iff row.id id, e)
    | inr e ↦ alone_in tenant row rows apart.1 (ground (arith, e, h))
  ]

  rest-IsGone :
      (p : File → Bool) (now : ℕ) (row : File) (rows : Table)
      → row.id ≡ id
      → All (Apart row) rows
      → IsGone id (update_rows p (λ r. record r { deleted_at = some now }) rows)
  rest-IsGone p now row [] e apart = tt
  rest-IsGone p now row (first ∷ rows) e apart =
      (ground (arith, apart.0, eq_iff first.id id, e), rest-IsGone p now row rows e apart.1)

  pub marked-IsGone :
      (now : ℕ) (tenant : String) (table : Table)
      → IsKeyed table
      → (mark_deleted now id tenant table).0 ≡ true
      → IsGone id (mark_deleted now id tenant table).1
  unfolding mark_deleted matching
  marked-IsGone now tenant [] keyed h = tt
  marked-IsGone now tenant (row ∷ rows) keyed h = elim (Bool-cases (matching tenant row)) [
    | inl e ↦ (
      ground (arith, e),
      rest-IsGone (matching tenant) now row rows (ground (arith, e, eq_iff row.id id)) keyed.0,
    )
    | inr e ↦ (
      ground (arith, e, alone_in tenant row rows keyed.0 (rest e)),
      marked-IsGone now tenant rows keyed.1 (rest e),
    )
  ]
    where
      rest : matching tenant row ≡ false → exactly_one (select (matching tenant) rows) ≡ true
      rest e = ground (arith, e, h)

  -- A row that the lookup of a worker finds is deleted, if its file is gone.
  pub get_internal_gone :
      (table : Table) (row : File)
      → IsGone id table
      → get_internal id table ≡ some row
      → is_some row.deleted_at ≡ true
  unfolding get_internal
  get_internal_gone [] row h e = absurd (cc e)
  get_internal_gone (first ∷ rows) row h e = elim (Bool-cases (first.id =ˢ id)) [
    | inl k ↦ first_deleted k (first_is k)
    | inr k ↦ get_internal_gone rows row h.1 (ground (arith, e, k))
  ]
    where
      first_is : (first.id =ˢ id) ≡ true → first ≡ row
      first_is k = cc (
          sym (
            ap
              (λ b. first_row (
                if b then first ∷ select (λ r. r.id =ˢ id) rows else select (λ r. r.id =ˢ id) rows))
              k)
          ∙ e)

      first_deleted : (first.id =ˢ id) ≡ true → first ≡ row → is_some row.deleted_at ≡ true
      first_deleted k same =
          sym (ap (λ (r : File). is_some r.deleted_at) same) ∙ ground (arith, h.0, k)

others-IsGone : (row : File) (rows : Table) → All (Apart row) rows → IsGone row.id rows
others-IsGone row [] apart = tt
others-IsGone row (first ∷ rows) apart =
    (ground (arith, apart.0, eq_iff first.id row.id), others-IsGone row rows apart.1)

-- A row of a keyed table that is marked belongs to a file that is gone.
pub deleted-IsGone :
    (table : Table)
    → IsKeyed table
    → All (λ row. is_some row.deleted_at ≡ true → IsGone row.id table) table
deleted-IsGone [] keyed = tt
deleted-IsGone (row ∷ rows) keyed = (
  λ deleted. (ground (arith, deleted), others-IsGone row rows keyed.0),
  All-map (λ r. Apart row r × (is_some r.deleted_at ≡ true → IsGone r.id rows)) _
      (λ r h deleted. (ground (arith, h.0, eq_iff row.id r.id), h.1 deleted)) rows
      (All-both (Apart row) _ rows keyed.0 (deleted-IsGone rows keyed.1)),
)

-- So do the marked rows that the janitor's query returns.
pub expired-IsGone :
    (now : ℕ) (table : Table)
    → IsKeyed table
    → All (λ row. is_some row.deleted_at ≡ true → IsGone row.id table) (expired now table)
unfolding expired
expired-IsGone now table keyed = All-select _ (past now) table (deleted-IsGone table keyed)
