-- ===== src/Files/Threads/Conversions/Facts.antt =====
-- What stays known of the other threads when one of internal/files/service.go's threads moves.
use llm_file_gateway.Prelude.{ℕ, ◌≡◌, refl, List, [], ◌∷◌, arith, All, All-map}
use llm_file_gateway.Prelude.Text.{String, eq_refl}
use llm_file_gateway.Store.{File}
use llm_file_gateway.Store.Gone.{IsGone}
use llm_file_gateway.Files.Threads.{
  World, Thread, Phase, Origin, sweeping, claiming, cleanup, looking_up, starting, converting,
  recording, ending_conversion, marking, handler, janitor, checking_conversion, checking_lease,
  removing, erasing, ending, awaiting_conversion, awaiting_lease,
}
use llm_file_gateway.Files.Threads.Counting.{sum_over}
use llm_file_gateway.Files.Threads.Conversions.{
  works, IsRegistered, KnowsGone, IsStale, AreStale, SkipsRightly, Fact,
}

module _ (w w' : World) (gone : (id : String) → IsGone id w.table → IsGone id w'.table) where
  stale : (rows : List File) → All (IsStale w.table) rows → All (IsStale w'.table) rows
  stale rows =
      All-map (IsStale w.table) (IsStale w'.table) (λ row h deleted. gone row.id (h deleted)) rows

  AreStale-kept : (origin : Origin) → AreStale w.table origin → AreStale w'.table origin
  AreStale-kept handler h = tt
  AreStale-kept (janitor rows) h = stale rows h

  SkipsRightly-kept :
      (origin : Origin) (row : File)
      → SkipsRightly w.table origin row
      → SkipsRightly w'.table origin row
  SkipsRightly-kept handler row h = tt
  SkipsRightly-kept (janitor rows) row h = λ deleted. gone row.id (h deleted)

  KnowsGone-kept :
      (id : String) (phase : Phase) → KnowsGone w.table id phase → KnowsGone w'.table id phase
  KnowsGone-kept id marking h = tt
  KnowsGone-kept id ending h = tt
  KnowsGone-kept id checking_conversion h = gone id h
  KnowsGone-kept id checking_lease h = gone id h
  KnowsGone-kept id removing h = gone id h
  KnowsGone-kept id erasing h = gone id h
  KnowsGone-kept id (awaiting_conversion address) h = gone id h
  KnowsGone-kept id (awaiting_lease address) h = gone id h

  -- A fact stays if what is gone stays gone and the thread's own registration stays.
  pub Fact-kept :
      (u : Thread)
      → ((id : String) (address : ℕ)
          → works id u ≡ 1
          → IsRegistered w.locks id address
          → IsRegistered w'.locks id address)
      → Fact w u
      → Fact w' u
  Fact-kept (looking_up id address) k h = k id address (rw (eq_refl id) refl) h
  Fact-kept (starting row address) k h = k row.id address (rw (eq_refl row.id) refl) h
  Fact-kept (converting row address) k h = k row.id address (rw (eq_refl row.id) refl) h
  Fact-kept (recording row address) k h = k row.id address (rw (eq_refl row.id) refl) h
  Fact-kept (ending_conversion id address) k h = k id address (rw (eq_refl id) refl) h
  Fact-kept (sweeping rows) k h = stale rows h
  Fact-kept (claiming origin row) k h = (AreStale-kept origin h.0, SkipsRightly-kept origin row h.1)
  Fact-kept (cleanup origin row channel phase) k h =
      (AreStale-kept origin h.0, SkipsRightly-kept origin row h.1, KnowsGone-kept row.id phase h.2)
  Fact-kept _ k h = tt

-- Nobody else works on a file that a thread works on.
pub others_idle :
    (id : String) (us : List Thread) → sum_over (works id) us ≡ 0 → All (λ u. works id u ≡ 0) us
others_idle id [] h = tt
others_idle id (u ∷ us) h = (omega (arith, h), others_idle id us (omega (arith, h)))
