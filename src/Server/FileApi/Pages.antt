-- ===== src/Server/FileApi/Pages.antt =====
-- Going through the files page by page, as a client of internal/server/server.go does.
use Prim.Native.Nat.{min}
use llm_file_gateway.Prelude.{
  ℕ, zero, suc, ◌+◌, ◌≤◌, ◌≡◌, refl, sym, ap, subst, ◌∙◌, inl, inr, Bool, true, false, List, [],
  ◌∷◌, ◌++◌, arith, take, length, length-take, length-append, ltb, Bool-cases, if◌then◌else◌,
}
use llm_file_gateway.Prelude.Text.{String, ◌=ˢ◌}
use llm_file_gateway.Store
use llm_file_gateway.Store.{File, Table}
use llm_file_gateway.Store.Rows.{IsKeyed}
use llm_file_gateway.Store.Listing.{pages_join}
use llm_file_gateway.Server.FileApi.{list_page}

-- The page that is cut from one row more.
cut : (n m : ℕ) (rows : List File) → List File
cut n m rows = if ltb n (length (take m rows)) then take n (take m rows) else take m rows

take-take : (n : ℕ) (rows : List File) → take n (take (suc n) rows) ≡ take n rows
take-take zero rows = refl
take-take (suc n) [] = refl
take-take (suc n) (row ∷ rows) = ap (◌∷◌ row) (take-take n rows)

take_short :
    (n : ℕ) (rows : List File) → length (take (suc n) rows) ≤ n → take (suc n) rows ≡ take n rows
take_short zero [] h = refl
take_short zero (row ∷ rows) h = absurd (omega (arith, h))
take_short (suc n) [] h = refl
take_short (suc n) (row ∷ rows) h = ap (◌∷◌ row) (take_short n rows (omega (arith, h)))

cut_one_more : (n m : ℕ) (rows : List File) → suc n ≡ m → cut n m rows ≡ take n rows
unfolding cut
cut_one_more n m rows e =
    subst (λ k. cut n k rows ≡ take n rows) e
      (elim (Bool-cases (ltb n (length (take (suc n) rows)))) [
        | inl more ↦ rw (more, cut) (take-take n rows)
        | inr fits ↦ rw (fits, cut) (take_short n rows (ground (arith, fits)))
      ])

-- Whether a list has an item.
abbrev pub is_nonempty : List File → Bool
is_nonempty [] = false
is_nonempty (row ∷ rows) = true

module _ (now : ℕ) (tenant purpose : String) (limit : ℕ) (order after : String)
    (table : Table) where
  -- What is shown is the page that was asked for.
  files_page :
      (list_page now tenant purpose limit order after table).files
      ≡ Store.list_files now tenant purpose limit order after table
  unfolding list_page Store.list_files cut
  files_page = cut_one_more limit (limit + 1) _ (omega arith)

  -- How long the page and the one-row-longer page are.
  sizes :
      (n : ℕ) × (length (Store.list_files now tenant purpose limit order after table) ≡ min limit n)
      × (length (Store.list_files now tenant purpose (limit + 1) order after table)
          ≡ min (limit + 1) n)
  unfolding Store.list_files
  sizes = (_, length-take limit _, length-take (limit + 1) _)

  -- In a keyed table, a page says that there are more files exactly if the page after its last file
  -- would not be empty at the same instant.
  has_more_exact :
      (before : List File) (last : File)
      → IsKeyed table
      → (list_page now tenant purpose limit order after table).files ≡ before ++ last ∷ []
      → (last.id =ˢ "") ≡ false
      → (list_page now tenant purpose limit order after table).has_more
        ≡ is_nonempty (Store.list_files now tenant purpose 1 order last.id table)
  unfolding list_page
  has_more_exact before last keyed e named =
      by_rest (Store.list_files now tenant purpose 1 order last.id table) (
        sym (length-append (Store.list_files now tenant purpose limit order after table) _)
        ∙ ap length (
            pages_join now tenant purpose order after table keyed limit 1 before last
              (sym files_page ∙ e) named))
    where
      by_rest :
          (rest : List File)
          → length (Store.list_files now tenant purpose limit order after table) + length rest
            ≡ length (Store.list_files now tenant purpose (limit + 1) order after table)
          → ltb limit (length (Store.list_files now tenant purpose (limit + 1) order after table))
            ≡ is_nonempty rest
      by_rest [] h = let (n, a, b) = sizes in ground (arith, a, b, h)
      by_rest (row ∷ rows) h = let (n, a, b) = sizes in ground (arith, a, b, h)
