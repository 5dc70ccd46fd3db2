-- ===== src/Server/FileApi/Handlers/Created.antt =====
-- What a request to create a file leaves in the storage, and what its tenant sees of it afterwards
-- (`createFile` and `retrieveFile` of internal/server/server.go, `Create` of internal/files/service.go).
use llm_file_gateway.Prelude.{
  ℕ, ◌<◌, ◌≡◌, refl, sym, ap, subst, ◌∙◌, true, ◌&&◌, inl, inr, arith, ltb, Bool-cases, none, some,
  List, All, if◌then◌else◌, [], ◌∷◌, ◌++◌,
}
use llm_file_gateway.Prelude.Text.{String, ◌=ˢ◌, eq_refl}
use llm_file_gateway.ApiError.{Ended}
use llm_file_gateway.Store
use llm_file_gateway.Store.{File, Table, live, first_row}
use llm_file_gateway.Store.Changes.{
  Change, Spares, SameFile, same_file, last_status, run_changes, run_changes-IsKeyed,
  run_changes-Stands,
}
use llm_file_gateway.Store.Rows.{Has, IsKeyed, add-IsKeyed, select_keyed}
use llm_file_gateway.Files.Upload.{Calls, Storage, file_dir}
use llm_file_gateway.Files.Upload.Rejected.{IsUnused, rejected_upload_leaves_nothing}
use llm_file_gateway.Files.Upload.Accepted.{accepted_upload_complete}
use llm_file_gateway.Server.FileApi.{OpenAiFile, open_ai_file}
use llm_file_gateway.Server.FileApi.Handlers.{
  Reply, shown, Settings, Service, Access, Form, tenant_of, handle_create, handle_retrieve,
}
use llm_file_gateway.Server.FileApi.Handlers.Told.{
  Tells-shown, Tells-other, asked, create_from-Tells, handle_create-Tells,
}

-- A file that a reply shows is a row that was added for the tenant.
abbrev IsAdded : String → String → Storage → Storage → OpenAiFile → Type 0
IsAdded tenant purpose before after f =
    (row : File) × (Store.add row before.table ≡ some after.table)
    × (after.table ≡ before.table ++ row ∷ [])
    × (row.tenant_id ≡ tenant)
    × (row.purpose ≡ purpose)
    × (row.status ≡ "uploaded")
    × (row.deleted_at ≡ none)
    × (f ≡ open_ai_file row)

open_ai_file-live :
    (now : ℕ) (row : File)
    → row.deleted_at ≡ none
    → ((time : ℕ) → (open_ai_file row).expires_at ≡ some time → now < time)
    → live now row ≡ true
unfolding live open_ai_file
open_ai_file-live now row e h = elim (Bool-cases (ltb 0 row.expires_at)) [
  | inl positive ↦ ground (arith, e, positive, h row.expires_at (rw positive refl))
  | inr zero ↦ ground (arith, e, zero)
]

last-Has : (table : Table) (row : File) → Has row (table ++ row ∷ [])
last-Has [] row = inl refl
last-Has (first ∷ table) row = inr (last-Has table row)

get-live :
    (now : ℕ) (table : Table) (row : File)
    → IsKeyed table
    → Has row table
    → live now row ≡ true
    → Store.get now row.id row.tenant_id table ≡ some row
unfolding Store.get
get-live now table row keyed there alive =
    ap first_row
      (select_keyed (λ r. r.tenant_id =ˢ row.tenant_id && live now r) table row keyed there)
    ∙ rw (eq_refl row.tenant_id, alive) refl

-- The status that the API reports.
abbrev reported : String → String
reported status =
    if status =ˢ "processed"
    then "processed"
    else if status =ˢ "failed"
    then "error"
    else "uploaded"

-- The same file at another time.
abbrev pub IsStill : OpenAiFile → String → OpenAiFile → Type 0
IsStill f status g =
    (g.id ≡ f.id)
    × (g.bytes ≡ f.bytes)
    × (g.created_at ≡ f.created_at)
    × (g.expires_at ≡ f.expires_at)
    × (g.filename ≡ f.filename)
    × (g.purpose ≡ f.purpose)
    × (g.status ≡ reported status)

open_ai_file-IsStill :
    (row now : File) (status : String)
    → SameFile row now
    → now.status ≡ status
    → IsStill (open_ai_file row) status (open_ai_file now)
unfolding open_ai_file
open_ai_file-IsStill row now status same ends = (
  sym same.id,
  sym same.bytes,
  sym same.created_at,
  ap (λ time. if ltb 0 time then some time else none) (sym same.expires_at),
  sym same.filename,
  sym same.purpose,
  ap reported ends,
)

SameFile-live : (now : ℕ) (a b : File) → SameFile a b → live now a ≡ true → live now b ≡ true
unfolding live
SameFile-live now a b same h = ground (arith, h, same.deleted_at, same.expires_at)

module _ (service : Service) (settings : Settings) (authorization : String) (ended : Ended)
    (calls : Calls) (form : Form) (storage : Storage) where
  abbrev after : Storage × Reply
  after = handle_create service settings authorization ended calls form storage

  -- A row of the tenant that sent the request.
  abbrev Shows : OpenAiFile → Storage → Type 0
  Shows f s =
      (tenant : String) × (tenant_of settings authorization ≡ inr tenant)
      × IsAdded tenant form.purpose storage s f

  shown-IsAdded : (f : OpenAiFile) → after.1 ≡ shown f → Shows f after.0
  shown-IsAdded f =
      Tells-shown Shows (λ s. Unit) after f
        (handle_create-Tells service settings ended calls form storage Shows (λ s. Unit) tt
          authorization
          λ tenant filename bytes e.
            create_from-Tells service settings ended calls form storage Shows (λ s. Unit) tt tenant
              filename bytes
              (λ ttl row created.
                let (appended, added, source, size, fits, own, purpose, status, kept, expiry) =
                  accepted_upload_complete service.to_lower service.digest service.display
                    settings.max_file_bytes calls
                    (asked service settings ended calls form storage tenant filename bytes ttl)
                    storage row created in
                (tenant, e, (row, added, appended, own, purpose, status, kept, refl)))
              (λ ttl fault failed. tt))

  -- What a retrieval of a row that stands in the table shows.
  retrieves :
      (tenant : String) (access : Access) (row now : File) (table : Table)
      → tenant_of settings authorization ≡ inr tenant
      → row.tenant_id ≡ tenant
      → access.error ≡ none
      → IsKeyed table
      → Has now table
      → SameFile row now
      → live access.now row ≡ true
      → handle_retrieve settings authorization row.id access table ≡ shown (open_ai_file now)
  unfolding handle_retrieve
  retrieves tenant access row now table who own ok keyed there same alive =
      let found =
        subst (λ id. Store.get access.now id tenant table ≡ some now) (sym same.id)
          (subst (λ t. Store.get access.now now.id t table ≡ some now) (sym same.tenant_id ∙ own)
            (get-live access.now table now keyed there
              (SameFile-live access.now row now same alive))) in
      rw (handle_retrieve, who, ok, found) refl

  -- A request to create a file that is answered with a file has stored it, in a table with one row
  -- for each id. Before anything else changes the table, a request with the same authorization retrieves by its id
  -- exactly what was shown, with the purpose that was asked for and the status "uploaded". Afterwards workers
  -- update the status of any file, other files are deleted, and files are added: as long as the file
  -- itself is not deleted, the retrieval shows the same id, size, times, name and purpose, and the status of the
  -- last update: "processed", "error" for one that failed, and "uploaded" until then. Both hold until the file
  -- expires, and unless the query of the database fails.
  pub created_file_retrieved :
      (f : OpenAiFile) (changes : List Change) (access : Access)
      → IsKeyed storage.table
      → after.1 ≡ shown f
      → All (Spares f.id) changes
      → access.error ≡ none
      → ((time : ℕ) → f.expires_at ≡ some time → access.now < time)
      → (handle_retrieve settings authorization f.id access after.0.table ≡ shown f)
        × (f.purpose ≡ form.purpose)
        × (f.status ≡ "uploaded")
        × ((g : OpenAiFile) × (handle_retrieve settings authorization f.id access
                (run_changes changes after.0.table)
              ≡ shown g)
            × IsStill f (last_status f.id "uploaded" changes) g)
  unfolding open_ai_file
  created_file_retrieved f changes access keyed e spared ok alive =
      let (tenant, who, (row, added, appended, own, purpose, uploaded, kept, shape)) =
        shown-IsAdded f e in
      let live_row =
        open_ai_file-live access.now row kept
          (λ time h. alive time (ap (λ g. g.expires_at) shape ∙ h)) in
      let keyed' = add-IsKeyed row storage.table after.0.table added keyed in
      let there = subst (Has row) (sym appended) (last-Has storage.table row) in
      let (now, there', same, ends) =
        run_changes-Stands changes row after.0.table there kept
          (subst (λ g. All (Spares g.id) changes) shape spared) in
      let status = ends ∙ ap (λ s. last_status row.id s changes) uploaded in
      subst
        (λ g.
          (handle_retrieve settings authorization g.id access after.0.table ≡ shown g)
          × (g.purpose ≡ form.purpose)
          × (g.status ≡ "uploaded")
          × ((later : OpenAiFile) × (handle_retrieve settings authorization g.id access
                  (run_changes changes after.0.table)
                ≡ shown later)
              × IsStill g (last_status g.id "uploaded" changes) later))
        (sym shape)
        (
          retrieves tenant access row row after.0.table who own ok keyed' there (same_file row)
              live_row,
          purpose,
          rw (open_ai_file, uploaded) refl,
          (
            open_ai_file now,
            retrieves tenant access row now (run_changes changes after.0.table) who own ok
                (run_changes-IsKeyed changes after.0.table keyed') there' same live_row,
            open_ai_file-IsStill row now (last_status row.id "uploaded" changes) same status,
          ),
        )

  -- A request to create a file that is answered with anything but a file leaves the table and the disk as they
  -- were, provided that an incomplete directory can be removed and that the random id names a directory of the
  -- tenant that does not exist yet.
  pub refused_request_leaves_nothing :
      calls.cleanup_ok ≡ true
      → ((tenant id : String)
          → tenant_of settings authorization ≡ inr tenant
          → calls.new_id ≡ some id
          → IsUnused (file_dir tenant id) storage.disk)
      → ((f : OpenAiFile) → ¬ (after.1 ≡ shown f))
      → after.0 ≡ storage
  refused_request_leaves_nothing cleaned unused =
      Tells-other (λ f s. Unit) (λ s. s ≡ storage) after
        (handle_create-Tells service settings ended calls form storage (λ f s. Unit)
          (λ s. s ≡ storage) refl authorization
          λ tenant filename bytes e.
            create_from-Tells service settings ended calls form storage (λ f s. Unit)
              (λ s. s ≡ storage) refl tenant filename bytes (λ ttl row created. tt)
              λ ttl fault rejected.
                rejected_upload_leaves_nothing service.to_lower service.digest service.display
                  settings.max_file_bytes calls
                  (asked service settings ended calls form storage tenant filename bytes ttl)
                  storage fault cleaned (λ id i. unused tenant id e i) rejected)
