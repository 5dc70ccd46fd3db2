-- ===== src/Files/Threads/Exclusion/Kept.antt =====
-- Steps of a thread that keep the locks coherent without a critical section.
use llm_file_gateway.Prelude.{ℕ, ◌≡◌, refl, Option, none, some, List, arith}
use llm_file_gateway.Prelude.Text.{String}
use llm_file_gateway.Store.{File}
use llm_file_gateway.Files.Threads.{World, Thread, Phase, Origin, cleanup}
use llm_file_gateway.Files.Threads.Exclusion.{reads, claims, Safe, LeaseFact, Coherent}
use llm_file_gateway.Files.Threads.Exclusion.Frame.{SameCounts, frame-Coherent}

-- A step leads to a coherent state, or is none.
abbrev pub Leads : List Thread → Option (Thread × World) → Type 0
Leads others none = Unit
Leads others (some (t', w')) = Coherent w'.locks t' others

-- The thread counts as before: it holds no lease and no claim, or the same claim.
pub no_counts :
    {t t' : Thread}
    → ((a : ℕ) → reads a t' ≡ reads a t)
    → ((id : String) → claims id t' ≡ claims id t)
    → SameCounts t t'
no_counts r c = record { reads_same = r; claims_same = c }

module _ (w : World) (others : List Thread) where
  -- A step that leaves the locks alone.
  pub quiet :
      {t t' : Thread}
      → SameCounts t t'
      → Safe w.locks t'
      → Coherent w.locks t others
      → Coherent w.locks t' others
  quiet {t} {t'} same safe h =
      frame-Coherent w.locks w.locks t t' others refl refl refl (omega arith) same safe h

  -- The same for a phase of a cleanup.
  pub phase :
      {origin : Origin} {row : File} {channel : ℕ} {before : Phase} (behind : Phase)
      → LeaseFact w.locks row.id behind
      → Coherent w.locks (cleanup origin row channel before) others
      → Coherent w.locks (cleanup origin row channel behind) others
  phase behind fact h = quiet (no_counts (λ a. refl) (λ id. refl)) (h.safe.0, fact) h
