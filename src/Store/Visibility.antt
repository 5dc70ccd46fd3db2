-- ===== src/Store/Visibility.antt =====
-- Which rows the queries of internal/store/store.go return: `Get` and `Expired` divide the rows
-- between them, and a tenant sees its own rows only.
use llm_file_gateway.Prelude.{
  ℕ, ◌<◌, ◌≡◌, ap, ◌⊎◌, inl, inr, true, not, ◌&&◌, none, some, [], ◌∷◌, arith, if◌then◌else◌,
  Bool-cases,
}
use llm_file_gateway.Prelude.Text.{String, ◌=ˢ◌, eq_iff, eq_refl}
use llm_file_gateway.Store.{File, Table, first_row, live, past, get, expired}
use llm_file_gateway.Store.Rows.{Has, IsKeyed, Has-select, select-Has, first_row-Has, select_keyed}

-- Expiry is the other side of visibility.
pub live-not-past : (now : ℕ) (row : File) → live now row ≡ not (past now row)
unfolding live past
live-not-past now row = ground arith

-- In a keyed table, a row that the janitor's query returns is invisible to its own tenant, and every
-- other row is what its id and tenant find, at every instant.
get-or-expired :
    (now : ℕ) (table : Table) (row : File)
    → IsKeyed table
    → Has row table
    → ((Has row (expired now table)) × (get now row.id row.tenant_id table ≡ none))
      ⊎ ((¬ Has row (expired now table)) × (get now row.id row.tenant_id table ≡ some row))
unfolding get expired
get-or-expired now table row keyed h = elim (Bool-cases (past now row)) [
  | inl e ↦ inl (
    select-Has (past now) row table h e,
    rw (found, eq_refl row.tenant_id, live-not-past now row, e),
  )
  | inr e ↦ inr (
    λ k. cc (e, (Has-select (past now) row table k).1),
    rw (found, eq_refl row.tenant_id, live-not-past now row, e),
  )
]
  where
    found :
        get now row.id row.tenant_id table
        ≡ first_row (if row.tenant_id =ˢ row.tenant_id && live now row then row ∷ [] else [])
    found =
        ap first_row
          (select_keyed (λ r. r.tenant_id =ˢ row.tenant_id && live now r) table row keyed h)

-- What a tenant gets is a row of the table with the asked id, of that tenant, not deleted and not
-- expired: no other tenant's file can be had by guessing its id.
get_sound :
    (now : ℕ) (id tenant_id : String) (table : Table) (row : File)
    → get now id tenant_id table ≡ some row
    → Has row table
      × (row.id ≡ id)
      × (row.tenant_id ≡ tenant_id)
      × (row.deleted_at ≡ none)
      × ((row.expires_at ≡ 0) ⊎ (now < row.expires_at))
unfolding get live
get_sound now id tenant_id table row e = (
  found.0,
  (eq_iff row.id id).0 (ground (arith, found.1)),
  (eq_iff row.tenant_id tenant_id).0 (ground (arith, found.1)),
  ground (arith, found.1),
  ground (arith, found.1),
)
  where
    found : Has row table × ((row.id =ˢ id && (row.tenant_id =ˢ tenant_id && live now row)) ≡ true)
    found = Has-select _ row table (first_row-Has _ row e)
