-- ===== src/Server/FileApi/Handlers/Told.antt =====
-- What the reply to a request to create a file says of the storage (`createFile` of internal/server/server.go), by
-- what its upload leaves there.
use llm_file_gateway.Prelude.{
  ◌≡◌, refl, subst, ◌⊎◌, inl, inr, Bool-cases, Option-cases, Option, none, some,
}
use llm_file_gateway.Prelude.Text.{String, ◌=ˢ◌}
use llm_file_gateway.Prelude.Int.{ℤ}
use llm_file_gateway.ApiError.{Error, Fault, Ended, write_any_error}
use llm_file_gateway.Store.{File}
use llm_file_gateway.Files.Disk.{Bytes}
use llm_file_gateway.Files.Upload
use llm_file_gateway.Files.Upload.{Calls, Storage, file_dir}
use llm_file_gateway.Server.FileApi.{OpenAiFile, open_ai_file, expires_after, valid_file_purpose}
use llm_file_gateway.Server.FileApi.Handlers.{
  Reply, silent, refused, listed, shown, content, deleted, Settings, Service, FormFile,
  body_too_large, no_file, file, Form, tenant_of, body_limit, asked_expiry, created, create_upload,
  create_from, handle_create,
}

-- What the reply says of the storage: a file is shown after a row is added, and anything else when nothing changed.
abbrev pub Tells : (OpenAiFile → Storage → Type 0) → (Storage → Type 0) → Storage × Reply → Type 0
Tells shows keeps (after, shown f) = shows f after
Tells shows keeps (after, _) = keeps after

module _ (shows : OpenAiFile → Storage → Type 0) (keeps : Storage → Type 0) where
  refuses :
      (after : Storage) (error : Option Error)
      → keeps after
      → Tells shows keeps (after, elim error [ none ↦ silent | some e ↦ refused e ])
  refuses after none h = h
  refuses after (some error) h = h

  created-Tells :
      (ended : Ended) (r : Storage × (Fault ⊎ File))
      → ((row : File) → r.1 ≡ inr row → shows (open_ai_file row) r.0)
      → ((fault : Fault) → r.1 ≡ inl fault → keeps r.0)
      → Tells shows keeps (created ended r)
  created-Tells ended (after, inl fault) shown? kept =
      refuses after (write_any_error ended fault) (kept fault refl)
  created-Tells ended (after, inr row) shown? kept = shown? row refl

  pub Tells-shown :
      (r : Storage × Reply) (f : OpenAiFile) → Tells shows keeps r → r.1 ≡ shown f → shows f r.0
  Tells-shown (after, shown g) f h e = subst (λ x. shows x after) (cc e) h
  Tells-shown (after, silent) f h e = absurd (cc e)
  Tells-shown (after, refused error) f h e = absurd (cc e)
  Tells-shown (after, listed page) f h e = absurd (cc e)
  Tells-shown (after, content media_type filename bytes) f h e = absurd (cc e)
  Tells-shown (after, deleted id) f h e = absurd (cc e)

  pub Tells-other :
      (r : Storage × Reply)
      → Tells shows keeps r
      → ((f : OpenAiFile) → ¬ (r.1 ≡ shown f))
      → keeps r.0
  Tells-other (after, shown f) h other = absurd (other f refl)
  Tells-other (after, silent) h other = h
  Tells-other (after, refused error) h other = h
  Tells-other (after, listed page) h other = h
  Tells-other (after, content media_type filename bytes) h other = h
  Tells-other (after, deleted id) h other = h

module _ (service : Service) (settings : Settings) (ended : Ended) (calls : Calls) (form : Form)
    (storage : Storage) where
  -- The upload that a form asks for.
  abbrev pub asked : String → String → Bytes → ℤ → Upload.Upload
  asked tenant filename bytes ttl = record {
    filename = filename;
    content = bytes;
    purpose = form.purpose;
    tenant_id = tenant;
    ttl = ttl;
  }

  module _ (shows : OpenAiFile → Storage → Type 0) (keeps : Storage → Type 0)
      (kept : keeps storage) where
    pub create_from-Tells :
        (tenant filename : String) (bytes : Bytes)
        → ((ttl : ℤ) (row : File)
            → (create_upload service settings calls (asked tenant filename bytes ttl) storage).1
              ≡ inr row
            → shows
                (open_ai_file row)
                (create_upload service settings calls (asked tenant filename bytes ttl) storage).0)
        → ((ttl : ℤ) (fault : Fault)
            → (create_upload service settings calls (asked tenant filename bytes ttl) storage).1
              ≡ inl fault
            → keeps
                (create_upload service settings calls (asked tenant filename bytes ttl) storage).0)
        → Tells shows keeps
            (create_from service settings ended calls form tenant filename bytes storage)
    unfolding create_from
    create_from-Tells tenant filename bytes accepted rejected =
        elim (Bool-cases (form.purpose =ˢ "")) [
          | inl p ↦ rw p kept
          | inr p ↦ elim (Bool-cases (valid_file_purpose form.purpose)) [
            | inr v ↦ rw (p, v) kept
            | inl v ↦ elim (Option-cases (expires_after settings.file_ttl (asked_expiry form))) [
              | inl x ↦ rw (p, v, x) kept
              | inr (ttl, x) ↦
                  rw (p, v, x) (created-Tells shows keeps ended _ (accepted ttl) (rejected ttl))
            ]
          ]
        ]

    pub handle_create-Tells :
        (authorization : String)
        → ((tenant filename : String) (bytes : Bytes)
            → tenant_of settings authorization ≡ inr tenant
            → Tells shows keeps
                (create_from service settings ended calls form tenant filename bytes storage))
        → Tells shows keeps (handle_create service settings authorization ended calls form storage)
    unfolding handle_create
    handle_create-Tells authorization h = by_tenant (tenant_of settings authorization) refl
      where
        by_file :
            (tenant : String) (found : FormFile)
            → tenant_of settings authorization ≡ inr tenant
            → form.form_file (body_limit settings) ≡ found
            → Tells shows keeps
                (handle_create service settings authorization ended calls form storage)
        by_file tenant body_too_large e f = rw (handle_create, e, f) kept
        by_file tenant no_file e f = rw (handle_create, e, f) kept
        by_file tenant (file filename bytes) e f =
            rw (handle_create, e, f) (h tenant filename bytes e)

        by_tenant :
            (who : Error ⊎ String)
            → tenant_of settings authorization ≡ who
            → Tells shows keeps
                (handle_create service settings authorization ended calls form storage)
        by_tenant (inl error) e = rw (handle_create, e) kept
        by_tenant (inr tenant) e = by_file tenant (form.form_file (body_limit settings)) e refl
