-- ===== src/Store/Exact.antt =====
-- What `List` of internal/store/store.go returns, by the rows themselves: who sees them, and in which order.
use llm_file_gateway.Prelude.{
  ℕ, ◌≡◌, ◌<◌, refl, sym, subst, ◌⊎◌, inl, inr, Bool, true, false, ◌&&◌, ◌||◌, Option, none, some,
  List, [], ◌∷◌, arith, All-map, take, select, Bool-cases, Option-cases, if◌then◌else◌,
}
use llm_file_gateway.Prelude.Text.{String, ◌=ˢ◌, str_lt, eq_iff}
use llm_file_gateway.Prelude.Sorting.{IsIncreasing, Pairs, sort, insert}
use llm_file_gateway.Store.{
  File, Table, Key, key, key_lt, live, listed, precedes, beyond, find_cursor, first_row, list_files,
}
use llm_file_gateway.Store.Rows.{Has, IsKeyed, Has-select, select-Has, first_row-Has, select_keyed}
use llm_file_gateway.Store.Listing.{row_precedes, cursor_of, whole, whole-IsIncreasing}

-- A row was created before another one, or at the same time and has the smaller id.
abbrev pub IsEarlier : File → File → Type 0
IsEarlier a b =
    (a.created_at < b.created_at) ⊎ ((a.created_at ≡ b.created_at) × (str_lt a.id b.id ≡ true))

-- The newest first, unless the order is "asc".
abbrev pub ComesBefore : String → File → File → Type 0
ComesBefore order a b =
    (((order =ˢ "asc") ≡ true) × IsEarlier a b) ⊎ (((order =ˢ "asc") ≡ false) × IsEarlier b a)

-- A row that a tenant may see at some time, with the purpose that is asked for, if one is.
abbrev pub IsVisible : ℕ → String → String → File → Type 0
IsVisible now tenant purpose row =
    (row.tenant_id ≡ tenant)
    × (row.deleted_at ≡ none)
    × ((row.expires_at ≡ 0) ⊎ (now < row.expires_at))
    × ((purpose ≡ "") ⊎ (row.purpose ≡ purpose))

-- A row behind the cursor: the tenant's row whose id is given, deleted or not. Without one, every row is.
abbrev pub IsBehind : String → String → String → Table → File → Type 0
IsBehind order after tenant table row =
    (cursor : File)
    → ¬ (after ≡ "")
    → Has cursor table
    → cursor.id ≡ after
    → cursor.tenant_id ≡ tenant
    → ComesBefore order cursor row

key_lt-IsEarlier : (a b : File) → key_lt (key a) (key b) ≡ true → IsEarlier a b
unfolding key_lt
key_lt-IsEarlier a b h = ground (arith, h)

IsEarlier-key_lt : (a b : File) → IsEarlier a b → key_lt (key a) (key b) ≡ true
unfolding key_lt
IsEarlier-key_lt a b h = ground (arith, h)

precedes-ComesBefore :
    (order : String) (a b : File) → row_precedes order a b ≡ true → ComesBefore order a b
unfolding precedes
precedes-ComesBefore order a b h = elim (Bool-cases (order =ˢ "asc")) [
  | inl e ↦ inl (e, key_lt-IsEarlier a b (ground (arith, e, h)))
  | inr e ↦ inr (e, key_lt-IsEarlier b a (ground (arith, e, h)))
]

ComesBefore-precedes :
    (order : String) (a b : File) → ComesBefore order a b → row_precedes order a b ≡ true
unfolding precedes
ComesBefore-precedes order a b (inl (e, h)) = ground (arith, e, IsEarlier-key_lt a b h)
ComesBefore-precedes order a b (inr (e, h)) = ground (arith, e, IsEarlier-key_lt b a h)

increasing-Pairs :
    (order : String) (rows : List File)
    → IsIncreasing (row_precedes order) rows
    → Pairs (ComesBefore order) rows
increasing-Pairs order [] h = tt
increasing-Pairs order (row ∷ rows) h = (
  All-map (λ r. row_precedes order row r ≡ true) (ComesBefore order row)
      (precedes-ComesBefore order row) rows h.0,
  increasing-Pairs order rows h.1,
)

listed-IsVisible :
    (now : ℕ) (tenant purpose : String) (row : File)
    → listed now tenant purpose row ≡ true
    → IsVisible now tenant purpose row
unfolding listed live
listed-IsVisible now tenant purpose row h = (
  (eq_iff row.tenant_id tenant).0 (ground (arith, h)),
  ground (arith, h),
  ground (arith, h),
  elim (Bool-cases (purpose =ˢ "")) [
    | inl e ↦ inl ((eq_iff purpose "").0 e)
    | inr e ↦ inr ((eq_iff row.purpose purpose).0 (ground (arith, h, e)))
  ],
)

IsVisible-listed :
    (now : ℕ) (tenant purpose : String) (row : File)
    → IsVisible now tenant purpose row
    → listed now tenant purpose row ≡ true
unfolding listed live
IsVisible-listed now tenant purpose row (own, there, time, same) =
    ground (arith, (eq_iff row.tenant_id tenant).1 own, there, time, by_purpose same)
  where
    by_purpose :
        (purpose ≡ "") ⊎ (row.purpose ≡ purpose) → (purpose =ˢ "" || row.purpose =ˢ purpose) ≡ true
    by_purpose (inl e) = ground (arith, (eq_iff purpose "").1 e)
    by_purpose (inr e) = ground (arith, (eq_iff row.purpose purpose).1 e)

-- Sorting leaves the rows as they are.
module _ (lt : File → File → Bool) where
  insert-Has : (x row : File) (rows : List File) → Has row (insert lt x rows) → Has row (x ∷ rows)
  unfolding insert
  insert-Has x row [] h = h
  insert-Has x row (first ∷ rows) h = elim (Bool-cases (lt first x)) [
    | inl e ↦
        elim (subst (λ b. Has row (if b then first ∷ insert lt x rows else x ∷ first ∷ rows)) e h) [
          | inl here ↦ inr (inl here)
          | inr there ↦ elim (insert-Has x row rows there) [
            | inl new ↦ inl new
            | inr old ↦ inr (inr old)
          ]
        ]
    | inr e ↦ subst (λ b. Has row (if b then first ∷ insert lt x rows else x ∷ first ∷ rows)) e h
  ]

  Has-insert : (x row : File) (rows : List File) → Has row (x ∷ rows) → Has row (insert lt x rows)
  unfolding insert
  Has-insert x row [] h = h
  Has-insert x row (first ∷ rows) h = elim (Bool-cases (lt first x)) [
    | inl e ↦ rw e (elim h [
      | inl new ↦ inr (Has-insert x row rows (inl new))
      | inr (inl here) ↦ inl here
      | inr (inr there) ↦ inr (Has-insert x row rows (inr there))
    ])
    | inr e ↦ rw e h
  ]

  sort-Has : (row : File) (rows : List File) → Has row (sort lt rows) → Has row rows
  unfolding sort
  sort-Has row [] h = h
  sort-Has row (x ∷ rows) h = elim (insert-Has x row (sort lt rows) h) [
    | inl new ↦ inl new
    | inr old ↦ inr (sort-Has row rows old)
  ]

  Has-sort : (row : File) (rows : List File) → Has row rows → Has row (sort lt rows)
  unfolding sort
  Has-sort row [] h = h
  Has-sort row (x ∷ rows) (inl new) = Has-insert x row (sort lt rows) (inl new)
  Has-sort row (x ∷ rows) (inr old) = Has-insert x row (sort lt rows) (inr (Has-sort row rows old))

module _ (order after tenant : String) (table : Table) (keyed : IsKeyed table) where
  -- The row that the query for the cursor finds.
  find_cursor_keyed :
      (cursor : File)
      → Has cursor table
      → cursor.id ≡ after
      → cursor.tenant_id ≡ tenant
      → find_cursor after tenant table ≡ some (key cursor)
  unfolding find_cursor
  find_cursor_keyed cursor there same own =
      subst (λ id. find_cursor id tenant table ≡ some (key cursor)) same
        (rw
          (
            find_cursor,
            select_keyed (λ r. r.tenant_id =ˢ tenant) table cursor keyed there,
            (eq_iff cursor.tenant_id tenant).1 own,
          )
          refl)

  abbrev IsRowKey : Option Key → Type 0
  IsRowKey none = Unit
  IsRowKey (some k) =
      (cursor : File) × Has cursor table
      × (cursor.id ≡ after)
      × (cursor.tenant_id ≡ tenant)
      × (k ≡ key cursor)

  find_cursor-IsRowKey : IsRowKey (find_cursor after tenant table)
  unfolding find_cursor
  find_cursor-IsRowKey =
      let matches : File → Bool = λ row. row.id =ˢ after && row.tenant_id =ˢ tenant in
      elim (Option-cases (first_row (select matches table))) [
        | inl e ↦ rw (find_cursor, e) tt
        | inr (row, e) ↦
            let (there, found) =
              Has-select matches row table (first_row-Has (select matches table) row e) in
            rw (find_cursor, e)
              (
                row,
                there,
                (eq_iff row.id after).0 (ground (arith, found)),
                (eq_iff row.tenant_id tenant).0 (ground (arith, found)),
                refl,
              )
      ]

  beyond-IsBehind :
      (row : File)
      → beyond order (cursor_of after tenant table) row ≡ true
      → IsBehind order after tenant table row
  beyond-IsBehind row h cursor named there same own =
      precedes-ComesBefore order cursor row (subst (λ c. beyond order c row ≡ true) by_id h)
    where
      by_id : cursor_of after tenant table ≡ some (key cursor)
      by_id = elim (Bool-cases (after =ˢ "")) [
        | inl e ↦ elim (named ((eq_iff after "").0 e)) [ ]
        | inr e ↦ rw e (find_cursor_keyed cursor there same own)
      ]

  IsBehind-beyond :
      (row : File)
      → IsBehind order after tenant table row
      → beyond order (cursor_of after tenant table) row ≡ true
  IsBehind-beyond row h = elim (Bool-cases (after =ˢ "")) [
    | inl e ↦ rw e refl
    | inr e ↦ rw e (
        by_key (λ empty. cc (e, (eq_iff after "").1 empty)) (find_cursor after tenant table)
          find_cursor-IsRowKey)
  ]
    where
      by_key : ¬ (after ≡ "") → (c : Option Key) → IsRowKey c → beyond order c row ≡ true
      by_key named none k = refl
      by_key named (some k) (cursor, there, same, own, e) =
          subst (λ k. precedes order k (key row) ≡ true) (sym e)
            (ComesBefore-precedes order cursor row (h cursor named there same own))

-- A listing of a table with one row for each id is the first `limit` entries of a list of rows. In it
-- every row comes before all that follow it: the newest first, by id among rows of the same time, or the
-- oldest first if the order is "asc". It holds exactly the rows of the table that belong to the tenant, are not
-- deleted, have not expired, have the purpose, if one is asked for, and come behind the row of
-- the tenant that the cursor names, if it names one.
pub list_files_exact :
    (now : ℕ) (tenant purpose : String) (limit : ℕ) (order after : String) (table : Table)
    → IsKeyed table
    → (rows : List File) × (list_files now tenant purpose limit order after table ≡ take limit rows)
      × Pairs (ComesBefore order) rows
      × ((row : File)
          → (Has row rows
              → Has row table
                × IsVisible now tenant purpose row
                × IsBehind order after tenant table row)
            × (Has row table
                  × IsVisible now tenant purpose row
                  × IsBehind order after tenant table row
                → Has row rows))
unfolding list_files
list_files_exact now tenant purpose limit order after table keyed = (
  whole now tenant purpose order (cursor_of after tenant table) table,
  refl,
  increasing-Pairs order _
      (whole-IsIncreasing now tenant purpose order (cursor_of after tenant table) table keyed),
  λ row. (shown_only row, shown_all row),
)
  where
    shown_only :
        (row : File)
        → Has row (
            sort (row_precedes order) (
              select
                (beyond order (cursor_of after tenant table))
                (select (listed now tenant purpose) table)))
        → Has row table × IsVisible now tenant purpose row × IsBehind order after tenant table row
    shown_only row h =
        let (some_listed, behind) =
          Has-select (beyond order (cursor_of after tenant table)) row
            (select (listed now tenant purpose) table) (sort-Has (row_precedes order) row _ h) in
        let (there, visible) = Has-select (listed now tenant purpose) row table some_listed in
        (
          there,
          listed-IsVisible now tenant purpose row visible,
          beyond-IsBehind order after tenant table keyed row behind,
        )

    shown_all :
        (row : File)
        → Has row table × IsVisible now tenant purpose row × IsBehind order after tenant table row
        → Has row (
            sort (row_precedes order) (
              select
                (beyond order (cursor_of after tenant table))
                (select (listed now tenant purpose) table)))
    shown_all row (there, visible, behind) = Has-sort (row_precedes order) row _ (
        select-Has (beyond order (cursor_of after tenant table)) row
          (select (listed now tenant purpose) table)
          (select-Has (listed now tenant purpose) row table there
            (IsVisible-listed now tenant purpose row visible))
          (IsBehind-beyond order after tenant table keyed row behind))
