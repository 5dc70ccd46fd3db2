-- ===== src/Store/Tests.antt =====
-- Runs of the store of internal/store/store.go on a small table.
use llm_file_gateway.Prelude.{
  ℕ, ◌+◌, ◌≡◌, refl, inl, inr, false, none, some, List, [], ◌∷◌, ◌++◌, map, arith, take,
}
use llm_file_gateway.Prelude.Text.{String, str_lt, eq_iff}
use llm_file_gateway.Prelude.Sorting.{sort, insert, Pairs}
use llm_file_gateway.Store.{
  File, Table, shared_tenant_id, list_files, mark_deleted, pending, get_internal, key_lt,
}
use llm_file_gateway.Store.Rows.{Has, IsKeyed}
use llm_file_gateway.Store.Listing.{pages_join}
use llm_file_gateway.Store.Exact.{ComesBefore, IsVisible, IsBehind, list_files_exact}
use llm_file_gateway.Store.Status.{mark_deleted_final}

abbrev pub upload : String → ℕ → ℕ → File
upload id created expires = record {
  id = id;
  tenant_id = shared_tenant_id;
  filename = "notes.txt";
  media_type = "text/plain";
  purpose = "user_data";
  bytes = 5;
  sha256 = "00";
  status = "uploaded";
  source_path = "files" ∷ shared_tenant_id ∷ id ∷ "source.txt" ∷ [];
  manifest_path = none;
  error_message = none;
  created_at = created;
  expires_at = expires;
  deleted_at = none;
}

abbrev pub first_upload : File
first_upload = upload "file_a" 100 0

abbrev pub second_upload : File
second_upload = upload "file_b" 100 400

abbrev third_upload : File
third_upload = upload "file_c" 90 400

abbrev pub uploads : Table
uploads = first_upload ∷ second_upload ∷ third_upload ∷ []

pub uploads-IsKeyed : IsKeyed uploads
uploads-IsKeyed = (
  (ground (arith, eq_iff "file_a" "file_b"), (ground (arith, eq_iff "file_a" "file_c"), tt)),
  ((ground (arith, eq_iff "file_b" "file_c"), tt), (tt, tt)),
)

pub second_there : Has second_upload uploads
second_there = inr (inl refl)

list_desc :
    map (λ row. row.id) (list_files 200 "shared" "" 2 "desc" "" uploads) ≡ "file_b" ∷ "file_a" ∷ []
unfolding list_files sort insert key_lt str_lt
list_desc = refl

list_asc_after :
    map (λ row. row.id) (list_files 200 "shared" "user_data" 5 "asc" "file_c" uploads)
    ≡ "file_a" ∷ "file_b" ∷ []
unfolding list_files sort insert key_lt str_lt
list_asc_after = refl

list_expired : map (λ row. row.id) (list_files 400 "shared" "" 5 "asc" "" uploads) ≡ "file_a" ∷ []
unfolding list_files sort insert key_lt str_lt
list_expired = refl

-- The second listing leaves out a file that is deleted in between.
pending_after_delete :
    pending 200 (mark_deleted 150 "file_a" "shared" uploads).1 ≡ "file_b" ∷ "file_c" ∷ []
unfolding pending mark_deleted
pending_after_delete = refl

list_files_exact_example :
    (rows : List File) × (list_files 200 "shared" "user_data" 2 "asc" "file_c" uploads
      ≡ take 2 rows)
    × Pairs (ComesBefore "asc") rows
    × ((row : File)
        → (Has row rows
            → Has row uploads
              × IsVisible 200 "shared" "user_data" row
              × IsBehind "asc" "file_c" "shared" uploads row)
          × (Has row uploads
                × IsVisible 200 "shared" "user_data" row
                × IsBehind "asc" "file_c" "shared" uploads row
              → Has row rows))
list_files_exact_example =
    list_files_exact 200 "shared" "user_data" 2 "asc" "file_c" uploads uploads-IsKeyed

pages_join_example :
    list_files 200 "shared" "" 1 "desc" "" uploads
      ++ list_files 200 "shared" "" 2 "desc" "file_b" uploads
    ≡ list_files 200 "shared" "" (1 + 2) "desc" "" uploads
unfolding list_files sort insert key_lt str_lt
pages_join_example =
    pages_join 200 "shared" "" "desc" "" uploads uploads-IsKeyed 1 2 [] second_upload refl refl

-- A second mark twenty seconds later.
mark_deleted_final_example :
    ((mark_deleted 170 "file_b" "shared" (mark_deleted 150 "file_b" "shared" uploads).1).0 ≡ false)
    × (get_internal "file_b"
          (mark_deleted 170 "file_b" "shared" (mark_deleted 150 "file_b" "shared" uploads).1).1
        ≡ some (record second_upload { deleted_at = some 150 }))
unfolding mark_deleted
mark_deleted_final_example =
    (mark_deleted_final 150 "shared" uploads second_upload uploads-IsKeyed second_there refl).1 170
      "shared"
