-- ===== src/Server/FileApi/Handlers/Isolated.antt =====
-- What a request of the Files API depends on (internal/server/server.go, internal/store/store.go).
use llm_file_gateway.Prelude.{
  ℕ, ◌+◌, ◌≡◌, refl, sym, ap, ◌∙◌, ◌&&◌, ◌⊎◌, inl, inr, arith, select, select_imp,
}
use llm_file_gateway.Prelude.Text.{String, ◌=ˢ◌}
use llm_file_gateway.Prelude.{Option}
use llm_file_gateway.Prelude.Int.{ℤ}
use llm_file_gateway.ApiError.{Error}
use llm_file_gateway.Store
use llm_file_gateway.Store.{File, Table, live, listed, find_cursor, first_row, key}
use llm_file_gateway.Server.FileApi
use llm_file_gateway.Server.FileApi.{list_page, with_parameters}
use llm_file_gateway.Server.FileApi.Handlers.{
  Settings, Access, Query, tenant_of, handle_list, handle_retrieve,
}

-- The rows of a tenant.
abbrev pub own : String → Table → Table
own tenant = select λ row. row.tenant_id =ˢ tenant

get-own :
    (now : ℕ) (id tenant : String) (table : Table)
    → Store.get now id tenant (own tenant table) ≡ Store.get now id tenant table
unfolding Store.get
get-own now id tenant table = ap first_row (
    select_imp (λ row. row.id =ˢ id && (row.tenant_id =ˢ tenant && live now row))
      (λ row. row.tenant_id =ˢ tenant) (λ row h. ground (arith, h)) table)

find_cursor-own :
    (after tenant : String) (table : Table)
    → find_cursor after tenant (own tenant table) ≡ find_cursor after tenant table
unfolding find_cursor
find_cursor-own after tenant table =
    rw
      (
        find_cursor,
        select_imp (λ row. row.id =ˢ after && row.tenant_id =ˢ tenant)
            (λ row. row.tenant_id =ˢ tenant) (λ row h. ground (arith, h)) table,
      )
      refl

listed-own :
    (now : ℕ) (tenant purpose : String) (table : Table)
    → select (listed now tenant purpose) (own tenant table)
      ≡ select (listed now tenant purpose) table
unfolding listed
listed-own now tenant purpose table =
    select_imp (listed now tenant purpose) (λ row. row.tenant_id =ˢ tenant)
      (λ row h. ground (arith, h)) table

list_files-own :
    (now : ℕ) (tenant purpose : String) (limit : ℕ) (order after : String) (table : Table)
    → Store.list_files now tenant purpose limit order after (own tenant table)
      ≡ Store.list_files now tenant purpose limit order after table
unfolding Store.list_files
list_files-own now tenant purpose limit order after table =
    rw (find_cursor-own after tenant table, listed-own now tenant purpose table) refl

page-own :
    (now : ℕ) (tenant : String) (limit : Option (Option ℤ)) (order purpose after : String)
    (table : Table)
    → FileApi.list_files now tenant limit order purpose after (own tenant table)
      ≡ FileApi.list_files now tenant limit order purpose after table
unfolding FileApi.list_files list_page
page-own now tenant limit order purpose after table =
    ap (with_parameters limit order) λ i n direction. same n direction i
  where
    same :
        (n : ℕ) (direction : String)
        → list_page now tenant purpose n direction after (own tenant table)
          ≡ list_page now tenant purpose n direction after table
    same n direction =
        rw (list_page, list_files-own now tenant purpose (n + 1) direction after table) refl

-- Two tables with the same rows of a tenant.
module _ (tenant : String) (table other : Table) (same : own tenant table ≡ own tenant other) where
  same_file :
      (now : ℕ) (id : String) → Store.get now id tenant table ≡ Store.get now id tenant other
  same_file now id =
      sym (get-own now id tenant table)
      ∙ ap (Store.get now id tenant) same
      ∙ get-own now id tenant other

  same_listing :
      (now : ℕ) (limit : Option (Option ℤ)) (order purpose after : String)
      → FileApi.list_files now tenant limit order purpose after table
        ≡ FileApi.list_files now tenant limit order purpose after other
  same_listing now limit order purpose after =
      sym (page-own now tenant limit order purpose after table)
      ∙ ap (FileApi.list_files now tenant limit order purpose after) same
      ∙ page-own now tenant limit order purpose after other

module _ (settings : Settings) (authorization id : String) (query : Query) (access : Access) where
  by_tenant :
      (table other : Table) (who : Error ⊎ String)
      → tenant_of settings authorization ≡ who
      → ((tenant : String) → who ≡ inr tenant → own tenant table ≡ own tenant other)
      → (handle_list settings authorization query access table
          ≡ handle_list settings authorization query access other)
        × (handle_retrieve settings authorization id access table
            ≡ handle_retrieve settings authorization id access other)
  unfolding handle_list handle_retrieve
  by_tenant table other (inl error) e h = (rw (handle_list, e) refl, rw (handle_retrieve, e) refl)
  by_tenant table other (inr tenant) e h = (
    rw
        (
          handle_list,
          e,
          same_listing tenant table other (h tenant refl) access.now query.limit query.order
              query.purpose query.after,
        )
        refl,
    rw (handle_retrieve, e, same_file tenant table other (h tenant refl) access.now id) refl,
  )

  -- What the Files API shows of files, listed or one by one, depends on no row of another tenant: the replies are
  -- the same for every two tables that have the same rows of the request's own tenant. A cursor of another
  -- tenant, for one, makes no difference.
  pub tenant_isolation :
      (table other : Table)
      → ((tenant : String)
          → tenant_of settings authorization ≡ inr tenant
          → own tenant table ≡ own tenant other)
      → (handle_list settings authorization query access table
          ≡ handle_list settings authorization query access other)
        × (handle_retrieve settings authorization id access table
            ≡ handle_retrieve settings authorization id access other)
  tenant_isolation table other h = by_tenant table other (tenant_of settings authorization) refl h
