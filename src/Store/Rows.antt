-- ===== src/Store/Rows.antt =====
-- Rows of the table of internal/store/store.go by their primary key, and the statements that keep it.
use llm_file_gateway.Prelude.{
  ◌≡◌, ◌≢◌, refl, sym, subst, ◌⊎◌, inl, inr, Bool, true, false, ◌&&◌, some, [], ◌∷◌, ◌++◌, arith,
  All, All-append, All-map, All-select, select, any, if◌then◌else◌, Bool-cases,
}
use llm_file_gateway.Prelude.Text.{String, ◌=ˢ◌, eq_iff, eq_refl}
use llm_file_gateway.Prelude.Sorting.{Pairs}
use llm_file_gateway.Store.{File, Table, update_rows, first_row, add, delete, consolidate_tenants}

-- A row stands in a table.
abbrev pub Has : File → Table → Type 0
Has row [] = ⊥
Has row (first ∷ rows) = (row ≡ first) ⊎ Has row rows

abbrev pub Apart : File → File → Type 0
Apart a b = a.id ≢ b.id

pub All-Has : (table : Table) → All (λ row. Has row table) table
All-Has [] = tt
All-Has (first ∷ rows) = (
  inl refl,
  All-map (λ row. Has row rows) (λ row. Has row (first ∷ rows)) (λ row. inr) rows (All-Has rows),
)

-- The primary key: no two rows share their id.
abbrev pub IsKeyed : Table → Type 0
IsKeyed = Pairs Apart

pub Has-All : (P : File → Type 0) (row : File) (table : Table) → All P table → Has row table → P row
Has-All P row [] h k = elim k [ ]
Has-All P row (first ∷ rows) h (inl e) = rw e h.0
Has-All P row (first ∷ rows) h (inr k) = Has-All P row rows h.1 k

module _ (p : File → Bool) where
  Has-under_if :
      (b : Bool) (row first : File) (rows : Table)
      → Has row (if b then first ∷ rows else rows)
      → ((row ≡ first) × (b ≡ true)) ⊎ Has row rows
  Has-under_if true row first rows (inl e) = inl (e, refl)
  Has-under_if true row first rows (inr h) = inr h
  Has-under_if false row first rows h = inr h

  -- A selected row is a row that passes the test, and the other way round.
  pub Has-select :
      (row : File) (table : Table) → Has row (select p table) → Has row table × (p row ≡ true)
  Has-select row [] h = elim h [ ]
  Has-select row (first ∷ rows) h = elim (Has-under_if (p first) row first (select p rows) h) [
    | inl (e, passes) ↦ (inl e, rw e passes)
    | inr k ↦ let (found, passes) = Has-select row rows k in (inr found, passes)
  ]

  pub select-Has :
      (row : File) (table : Table) → Has row table → p row ≡ true → Has row (select p table)
  select-Has row [] h k = elim h [ ]
  select-Has row (first ∷ rows) (inl e) k = rw (← e, k) (inl refl)
  select-Has row (first ∷ rows) (inr h) k = elim (Bool-cases (p first)) [
    | inl passes ↦ rw passes (inr (select-Has row rows h k))
    | inr fails ↦ rw fails (select-Has row rows h k)
  ]

pub first_row-Has : (table : Table) (row : File) → first_row table ≡ some row → Has row table
first_row-Has [] row e = cc
first_row-Has (first ∷ rows) row e = inl (cc)

module _ (p : File → Bool) where
  select_none :
      (id : String) (table : Table)
      → All (λ row. id ≢ row.id) table
      → select (λ row. row.id =ˢ id && p row) table ≡ []
  select_none id [] h = refl
  select_none id (first ∷ rows) h = ground (arith, eq_iff first.id id, select_none id rows h.1)

  -- A statement that names the id of a row finds that row or none.
  pub select_keyed :
      (table : Table) (row : File)
      → IsKeyed table
      → Has row table
      → select (λ r. r.id =ˢ row.id && p r) table ≡ (if p row then row ∷ [] else [])
  select_keyed [] row h k = elim k [ ]
  select_keyed (first ∷ rows) row h (inl e) =
      subst (λ r. select (λ x. x.id =ˢ r.id && p x) (first ∷ rows) ≡ (if p r then r ∷ [] else []))
        (sym e) (rw (eq_refl first.id, select_none first.id rows h.0))
  select_keyed (first ∷ rows) row h (inr k) = ground (
    arith,
    eq_iff first.id row.id,
    Has-All (λ r. first.id ≢ r.id) row rows h.0 k,
    select_keyed rows row h.1 k,
  )

-- A change of rows that leaves the ids alone.
module _ (p : File → Bool) (set : File → File)
    (same_id : (row : File) → (set row).id ≡ row.id) where
  update-All-id :
      (id : String) (table : Table)
      → All (λ row. id ≢ row.id) table
      → All (λ row. id ≢ row.id) (update_rows p set table)
  update-All-id id [] h = tt
  update-All-id id (first ∷ rows) h =
      (ground (arith, same_id first, h.0), update-All-id id rows h.1)

  pub update_rows-IsKeyed : (table : Table) → IsKeyed table → IsKeyed (update_rows p set table)
  update_rows-IsKeyed [] h = tt
  update_rows-IsKeyed (first ∷ rows) h = elim (Bool-cases (p first)) [
    | inl e ↦ rw (e, same_id first) (update-All-id first.id rows h.0, update_rows-IsKeyed rows h.1)
    | inr e ↦ rw e (update-All-id first.id rows h.0, update_rows-IsKeyed rows h.1)
  ]

  -- The row that stands where `row` stood.
  pub update_rows-Has :
      (table : Table) (row : File)
      → Has row table
      → Has (if p row then set row else row) (update_rows p set table)
  update_rows-Has [] row h = elim h [ ]
  update_rows-Has (first ∷ rows) row (inl e) = inl (rw e)
  update_rows-Has (first ∷ rows) row (inr k) = inr (update_rows-Has rows row k)

pub select-IsKeyed : (p : File → Bool) (table : Table) → IsKeyed table → IsKeyed (select p table)
select-IsKeyed p [] h = tt
select-IsKeyed p (first ∷ rows) h = elim (Bool-cases (p first)) [
  | inl e ↦ rw e (All-select (Apart first) p rows h.0, select-IsKeyed p rows h.1)
  | inr e ↦ rw e (select-IsKeyed p rows h.1)
]

append-IsKeyed :
    (table : Table) (file : File)
    → any (λ row. row.id =ˢ file.id) table ≡ false
    → IsKeyed table
    → IsKeyed (table ++ file ∷ [])
append-IsKeyed [] file e h = (tt, tt)
append-IsKeyed (first ∷ rows) file e h = (
  All-append (Apart first) rows (file ∷ []) h.0 (ground (arith, eq_iff first.id file.id), tt),
  append-IsKeyed rows file (ground arith) h.1,
)

pub add-IsKeyed :
    (file : File) (table after : Table)
    → add file table ≡ some after
    → IsKeyed table
    → IsKeyed after
unfolding add
add-IsKeyed file table after e h = elim (Bool-cases (any (λ row. row.id =ˢ file.id) table)) [
  | inl taken ↦ ground arith
  | inr free ↦ subst IsKeyed (ground arith) (append-IsKeyed table file free h)
]

pub delete-IsKeyed :
    (id tenant_id : String) (table : Table) → IsKeyed table → IsKeyed (delete id tenant_id table).1
unfolding delete
delete-IsKeyed id tenant_id table h = select-IsKeyed _ table h

pub consolidate_tenants-IsKeyed :
    (table : Table) → IsKeyed table → IsKeyed (consolidate_tenants table)
unfolding consolidate_tenants
consolidate_tenants-IsKeyed table h = update_rows-IsKeyed _ _ (λ row. refl) table h
