-- ===== src/Server/Inference/Inline/Tests.antt =====
-- Runs of inline documents of internal/server/document.go.
use llm_file_gateway.Prelude.{◌≡◌, refl, subst, inl, inr, ◌⊎◌, true, none, some, List, [], ◌∷◌}
use llm_file_gateway.Prelude.Text.{decimal}
use llm_file_gateway.ApiError.{Fault, running, gateway, new}
use llm_file_gateway.Store.{FilePath}
use llm_file_gateway.Files.Disk.{Disk}
use llm_file_gateway.Files.Upload.Rejected.{IsUnused}
use llm_file_gateway.Files.Upload.Tests.{same, digest}
use llm_file_gateway.Server.Inference.Inline.{
  Calls, Inline, Work, page_limit, request_dir, prepare_inline, prepare_all, remove_temporaries,
}
use llm_file_gateway.Server.Inference.Inline.Removed.{IsFresh, inline_documents_removed}

abbrev converts : Calls
converts = record {
  with_content = running;
  made = some "gateway-request-1";
  chmod_ok = true;
  write_ok = true;
  partly = none;
  resolve_error = none;
  with_converter = running;
  invalid = none;
  with_validation = running;
  outputs = ("page-1.txt" ∷ [], 104 ∷ []) ∷ [];
  manifest = some (123 ∷ []);
  with_result = running;
  failure = none;
}

abbrev fails : Calls
fails = record converts { made = some "gateway-request-2"; failure = some (page_limit "too many") }

abbrev inline : Inline
inline = record { filename = "a.txt"; content = 104 ∷ []; param = "input" }

abbrev stored : Disk
stored = ("files" ∷ "shared" ∷ "file_a" ∷ "source.txt" ∷ [], 104 ∷ []) ∷ []

abbrev idle : Work
idle = record { disk = stored; temporary = [] }

abbrev documents : List (Calls × Inline)
documents = (converts, inline) ∷ (fails, inline) ∷ []

too_many_pages :
    (prepare_inline same digest decimal 0 fails inline idle).1
    ≡ inl (gateway (new 400 "too_many_pages" "too many" "input"))
unfolding prepare_inline
too_many_pages = refl

both_made :
    (prepare_all same digest decimal 0 documents idle).temporary
    ≡ request_dir "gateway-request-1" ∷ request_dir "gateway-request-2" ∷ []
unfolding prepare_all prepare_inline
both_made = refl

abbrev UnusedBy : Fault ⊎ FilePath → Type 0
UnusedBy (inl fault) = Unit
UnusedBy (inr dir) = IsUnused dir stored

converts-IsFresh : IsFresh stored (converts, inline)
converts-IsFresh dir e = subst UnusedBy e (refl, tt)

fails-IsFresh : IsFresh stored (fails, inline)
fails-IsFresh dir e = subst UnusedBy e (refl, tt)

inline_documents_removed_example :
    let work = prepare_all same digest decimal 0 documents idle in
    remove_temporaries (λ dir. true) work.temporary work.disk ≡ stored
inline_documents_removed_example =
    inline_documents_removed same digest decimal 0 stored documents
      (converts-IsFresh, (fails-IsFresh, tt))
