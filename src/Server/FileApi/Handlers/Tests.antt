-- ===== src/Server/FileApi/Handlers/Tests.antt =====
-- Runs of whole requests of the Files API of internal/server/server.go.
use llm_file_gateway.Prelude.{
  ℕ, ◌<◌, ◌≡◌, ◌≢◌, List, [], refl, subst, ◌⊎◌, inl, inr, true, Option, none, some, ◌∷◌, arith,
}
use llm_file_gateway.Prelude.Int.{pos, ◌*ℤ◌, wrap64}
use llm_file_gateway.Prelude.Text.{String, decimal, eq_iff}
use llm_file_gateway.ApiError.{Error, running, client_gone, failed, new, write_any_error}
use llm_file_gateway.Store
use llm_file_gateway.Store.{File, Table, live}
use llm_file_gateway.Store.Changes.{Change, updated, marked, deleted, added, run_changes}
use llm_file_gateway.Store.Tests.{uploads, uploads-IsKeyed, first_upload}
use llm_file_gateway.Files.Disk.{Bytes}
use llm_file_gateway.Files.Upload
use llm_file_gateway.Files.Upload.{file_dir, check_source}
use llm_file_gateway.Files.Upload.Rejected.{IsUnused}
use llm_file_gateway.Files.Upload.Tests.{calls, short, long, storage, same, digest}
use llm_file_gateway.Server.FileApi.{OpenAiFile, open_ai_file, tenant_id, expires_after}
use llm_file_gateway.Server.FileApi.Handlers.{
  refused, shown, silent, Settings, Service, Access, Query, Form, file, asked_expiry, create_from,
  handle_create, handle_retrieve, handle_list, handle_delete, not_found, tenant_of,
}
use llm_file_gateway.Server.FileApi.Handlers.Isolated.{own, tenant_isolation}
use llm_file_gateway.Server.FileApi.Handlers.Created.{
  IsStill, created_file_retrieved, refused_request_leaves_nothing,
}

abbrev settings : Settings
settings = record {
  digest = λ token. "shared";
  auth_required = true;
  api_key = "key";
  max_file_bytes = 3;
  file_ttl = pos 300000000000;
}

abbrev service : Service
service = record { to_lower = same; digest = digest; display = decimal }

abbrev access : Access
access = record { error = none; ended = running; now = 250 }

abbrev all : Query
all = record { limit = none; order = ""; purpose = ""; after = "file_z" }

abbrev foreign : File
foreign = record first_upload { id = "file_z"; tenant_id = "other" }

abbrev form_of : Bytes → Form
form_of bytes = record {
  form_file = λ limit. file "a/hello.txt" bytes;
  purpose = "user_data";
  expires_after = "";
  expires_json = none;
  expires_anchor = "created_at";
  expires_seconds_text = "60";
  expires_seconds = pos 60;
}

abbrev hello : OpenAiFile
hello = record {
  id = "file_d";
  bytes = 2;
  created_at = 200;
  expires_at = some 260;
  filename = "hello.txt";
  purpose = "user_data";
  status = "uploaded";
  status_details = none;
}

accepted :
    (handle_create service settings "Bearer key" running calls (form_of short) storage).1
    ≡ shown hello
unfolding handle_create create_from tenant_id asked_expiry expires_after wrap64 ◌*ℤ◌ Upload.create
    check_source Store.add open_ai_file
accepted = refl

unauthorized :
    (handle_create service settings "Bearer kez" running calls (form_of short) storage).1
    ≡ refused (new 401 "invalid_api_key" "Invalid API key." "")
unfolding handle_create tenant_id
unauthorized = refl

too_large :
    (handle_create service settings "Bearer key" running calls (form_of long) storage).1
    ≡ refused (new 400 "file_too_large" "File exceeds the configured limit of 3." "file")
unfolding handle_create create_from tenant_id asked_expiry expires_after wrap64 ◌*ℤ◌ Upload.create
    check_source write_any_error
too_large = refl

missing : handle_retrieve settings "Bearer key" "file_z" access (foreign ∷ uploads) ≡ not_found
unfolding handle_retrieve tenant_id Store.get live
missing = refl

delete_unseen :
    handle_delete settings "Bearer key" "file_z" client_gone (λ tenant. inl (failed "delete"))
    ≡ silent
unfolding handle_delete tenant_id write_any_error
delete_unseen = refl

abbrev AgreeFor : Error ⊎ String → Type 0
AgreeFor (inl error) = Unit
AgreeFor (inr tenant) = own tenant (foreign ∷ uploads) ≡ own tenant uploads

agree : (tenant : String) → tenant_of settings "Bearer key" ≡ inr tenant → AgreeFor (inr tenant)
unfolding tenant_id
agree tenant e = subst AgreeFor e refl

tenant_isolation_example :
    (handle_list settings "Bearer key" all access (foreign ∷ uploads)
      ≡ handle_list settings "Bearer key" all access uploads)
    × (handle_retrieve settings "Bearer key" "file_z" access (foreign ∷ uploads)
        ≡ handle_retrieve settings "Bearer key" "file_z" access uploads)
tenant_isolation_example =
    tenant_isolation settings "Bearer key" "file_z" all access (foreign ∷ uploads) uploads agree

-- The upload is converted while another file is deleted and a third one is added.
abbrev meanwhile : List Change
meanwhile =
    updated "file_d" "processing" [] ""
    ∷ marked 210 "file_a" "shared"
    ∷ updated "file_d" "processed" ("files" ∷ "manifest.json" ∷ []) ""
    ∷ deleted "file_a" "shared"
    ∷ added foreign
    ∷ []

created_file_retrieved_example :
    (handle_retrieve settings "Bearer key" "file_d" access
        (handle_create service settings "Bearer key" running calls (form_of short) storage).0.table
      ≡ shown hello)
    × (hello.purpose ≡ "user_data")
    × (hello.status ≡ "uploaded")
    × ((g : OpenAiFile) × (handle_retrieve settings "Bearer key" "file_d" access (
            run_changes meanwhile
              (handle_create service settings "Bearer key" running calls
                (form_of short)
                storage).0.table)
          ≡ shown g)
        × IsStill hello "processed" g)
created_file_retrieved_example =
    created_file_retrieved service settings "Bearer key" running calls (form_of short) storage hello
      meanwhile access uploads-IsKeyed accepted (tt, (other, (tt, (other, (tt, tt))))) refl
      λ time e. subst (λ o. 250 < or_250 o) e (omega arith)
  where
    or_250 : Option ℕ → ℕ
    or_250 none = 250
    or_250 (some n) = n

    other : ◌≢◌ {A = String} "file_a" "file_d"
    other = ground (arith, eq_iff "file_a" "file_d")

abbrev UnusedFor : Error ⊎ String → Option String → Type 0
UnusedFor (inr tenant) (some id) = IsUnused (file_dir tenant id) storage.disk
UnusedFor who id = Unit

unused :
    (tenant id : String)
    → tenant_of settings "Bearer key" ≡ inr tenant
    → some "file_d" ≡ some id
    → UnusedFor (inr tenant) (some id)
unfolding tenant_id
unused tenant id e f =
    subst (λ w. UnusedFor w (some id)) e (subst (UnusedFor (inr "shared")) f (refl, tt))

refused_request_leaves_nothing_example :
    (handle_create service settings "Bearer key" running calls (form_of long) storage).0 ≡ storage
refused_request_leaves_nothing_example =
    refused_request_leaves_nothing service settings "Bearer key" running calls (form_of long)
      storage refl unused λ f e. absurd (cc (e, too_large))
