-- ===== src/Files/Threads/Conversions/Apart.antt =====
-- What the registry of conversions of internal/files/service.go guarantees for every interleaving.
use llm_file_gateway.Prelude.{
  ℕ, ◌+◌, ◌≤◌, ◌<◌, ◌≡◌, ◌≢◌, sym, ap, subst, ◌∙◌, ◌⊎◌, inl, inr, Bool, true, false, Option, none,
  some, List, [], ◌∷◌, ◌++◌, arith, All, All-map, All-both,
}
use llm_file_gateway.Prelude.Text.{String, ◌=ˢ◌, eq_iff}
use llm_file_gateway.Store.{File}
use llm_file_gateway.Store.Rows.{IsKeyed}
use llm_file_gateway.Files.Disk.{Bytes}
use llm_file_gateway.Files.Locks.{no_locks}
use llm_file_gateway.Files.Threads.{
  World, Thread, Phase, Origin, reader, deleter, sweeper, cleanup, worker, converting, recording,
  removing, erasing, run,
}
use llm_file_gateway.Files.Threads.Counting.{
  sum_over, sum_over-split, All-split, All-join, run_keeps,
}
use llm_file_gateway.Files.Threads.Exclusion.Soundness.{IsInitial}
use llm_file_gateway.Files.Threads.Exclusion.Safety.{Among, Among-All}
use llm_file_gateway.Files.Threads.Conversions.{works, Fact, Clear, Respects, Guarded}
use llm_file_gateway.Files.Threads.Conversions.Facts.{Fact-kept}
use llm_file_gateway.Files.Threads.Conversions.Waits.{Leads}
use llm_file_gateway.Files.Threads.Conversions.Steps.{step-Leads}

abbrev Both : Thread → Thread → Type 0
Both t u = Respects t u × Respects u t

abbrev Pairs : List Thread → Type 0
Pairs [] = Unit
Pairs (t ∷ ts) = All (Both t) ts × Pairs ts

module _ (t : Thread) (behind : List Thread) where
  Pairs-split :
      (before : List Thread)
      → Pairs (before ++ t ∷ behind)
      → All (Both t) (before ++ behind) × Pairs (before ++ behind)
  Pairs-split [] h = h
  Pairs-split (u ∷ before) h =
      let (first, rest) = All-split (Both u) before t behind h.0 in
      let (all, pairs) = Pairs-split before h.1 in (((first.1, first.0), all), (rest, pairs))

  Pairs-join :
      (before : List Thread)
      → All (Both t) (before ++ behind)
      → Pairs (before ++ behind)
      → Pairs (before ++ t ∷ behind)
  Pairs-join [] all pairs = (all, pairs)
  Pairs-join (u ∷ before) all pairs = (
    All-join (Both u) before t behind (all.0.1, all.0.0) pairs.0,
    Pairs-join before all.1 pairs.1,
  )

pair_of :
    (t u : Thread) (ts : List Thread) → Pairs ts → Among t ts → Among u ts → (t ≡ u) ⊎ Both t u
pair_of t u [] h j k = elim j [ ]
pair_of t u (v ∷ ts) h (inl e) (inl k) = inl (e ∙ sym k)
pair_of t u (v ∷ ts) h (inl e) (inr k) =
    inr (subst (λ x. Both x u) (sym e) (Among-All (Both v) u ts h.0 k))
pair_of t u (v ∷ ts) h (inr j) (inl k) =
    let both = Among-All (Both v) t ts h.0 j in inr (subst (λ x. Both t x) (sym k) (both.1, both.0))
pair_of t u (v ∷ ts) h (inr j) (inr k) = pair_of t u ts h.1 j k

record Peaceful (ts : List Thread) (w : World) : Type 0 where
  keyed : IsKeyed w.table
  bound :
      (id : String) (address : ℕ) → w.locks.conversions id ≡ some address → address < w.locks.next
  separate :
      (id other : String) (address : ℕ)
      → w.locks.conversions id ≡ some address
      → w.locks.conversions other ≡ some address
      → id ≡ other
  alone : (id : String) → sum_over (works id) ts ≤ 1
  facts : All (Fact w) ts
  pairs : Pairs ts

module _ (before behind : List Thread) (t : Thread) (w : World) where
  to_Guarded : Peaceful (before ++ t ∷ behind) w → Guarded w t (before ++ behind)
  to_Guarded h = record {
    keyed = h.keyed;
    bound = h.bound;
    separate = h.separate;
    alone = λ id. omega (arith, sum_over-split (works id) before t behind, h.alone id);
    fact = (All-split (Fact w) before t behind h.facts).0;
    facts = (All-split (Fact w) before t behind h.facts).1;
    respects =
        All-map (Both t) (Respects t) (λ u k. k.0) (before ++ behind)
          (Pairs-split t behind before h.pairs).0;
    respected =
        All-map (Both t) (λ u. Respects u t) (λ u k. k.1) (before ++ behind)
          (Pairs-split t behind before h.pairs).0;
  }

  of_Guarded :
      Pairs (before ++ behind) → Guarded w t (before ++ behind) → Peaceful (before ++ t ∷ behind) w
  of_Guarded pairs h = record {
    keyed = h.keyed;
    bound = h.bound;
    separate = h.separate;
    alone = λ id. omega (arith, sum_over-split (works id) before t behind, h.alone id);
    facts = All-join (Fact w) before t behind h.fact h.facts;
    pairs =
        Pairs-join t behind before
          (All-both (Respects t) (λ u. Respects u t) (before ++ behind) h.respects h.respected)
          pairs;
  }

run-Peaceful :
    (schedule : List (Option Bytes × ℕ)) (ts : List Thread) (w : World)
    → Peaceful ts w
    → Peaceful (run schedule ts w).0 (run schedule ts w).1
run-Peaceful =
    run_keeps Peaceful
      (λ outcome before behind t t' w w' e h.
        of_Guarded before behind t' w' (Pairs-split t behind before h.pairs).1 (
          subst (Leads (before ++ behind)) e
            (step-Leads w (before ++ behind) outcome t (to_Guarded before behind t w h))))
      λ ts w h. record {
        keyed = h.keyed;
        bound = h.bound;
        separate = h.separate;
        alone = h.alone;
        facts =
            All-map (Fact w) (Fact (record w { now = w.now + 1 }))
              (λ u. Fact-kept w (record w { now = w.now + 1 }) (λ id k. k) u λ id a one r. r) ts
              h.facts;
        pairs = h.pairs;
      }

-- The file whose conversion a thread runs or records.
abbrev pub converted : Thread → Option String
converted (converting row address) = some row.id
converted (recording row address) = some row.id
converted _ = none

-- A cleanup that has outlived conversions and leases, and removes the directory and then the row.
abbrev pub removes : Phase → Bool
removes removing = true
removes erasing = true
removes _ = false

initial_Fact : (w : World) (t : Thread) → IsInitial t → Fact w t
initial_Fact w (reader id tenant_id) h = tt
initial_Fact w (deleter id tenant_id) h = tt
initial_Fact w sweeper h = tt
initial_Fact w (worker id) h = tt
initial_Fact w _ h = absurd h

initial_Respects : (t : Thread) → IsInitial t → (u : Thread) → Respects t u
initial_Respects (reader id tenant_id) h u = tt
initial_Respects (deleter id tenant_id) h u = tt
initial_Respects sweeper h u = tt
initial_Respects (worker id) h u = tt
initial_Respects _ h u = absurd h

initial_Pairs : (ts : List Thread) → All IsInitial ts → Pairs ts
initial_Pairs [] h = tt
initial_Pairs (t ∷ ts) h = (
  All-map IsInitial (Both t) (λ u k. (initial_Respects t h.0 u, initial_Respects u k t)) ts h.1,
  initial_Pairs ts h.1,
)

other_id : (row : File) (id : String) → (row.id =ˢ id) ≡ false → some row.id ≢ some id
other_id row id h = λ k. ground (arith, h, k, eq_iff row.id id)

removes_apart :
    (phase : Phase) (id : String) (u : Thread)
    → removes phase ≡ true
    → Clear phase id u
    → converted u ≢ some id
removes_apart removing id (converting row a) e h = other_id row id h
removes_apart removing id (recording row a) e h = other_id row id h
removes_apart removing id _ e h = λ k. cc k
removes_apart erasing id (converting row a) e h = other_id row id h
removes_apart erasing id (recording row a) e h = other_id row id h
removes_apart erasing id _ e h = λ k. cc k
removes_apart _ id u e h = absurd (cc e)

-- However the goroutines are interleaved, and whichever of their calls fail, when at most one worker has
-- a job for each file: from the moment a cleanup is about to remove a file's directory until it has
-- deleted the row, no worker runs the converter on that file or records its result. So a conversion
-- never writes into a directory that is being removed.
pub removal_excludes_conversions :
    (schedule : List (Option Bytes × ℕ)) (ts : List Thread) (w : World)
    → All IsInitial ts
    → w.locks ≡ no_locks
    → IsKeyed w.table
    → ((id : String) → sum_over (works id) ts ≤ 1)
    → (origin : Origin) (row : File) (channel : ℕ) (phase : Phase) (u : Thread)
    → removes phase ≡ true
    → Among (cleanup origin row channel phase) (run schedule ts w).0
    → Among u (run schedule ts w).0
    → converted u ≢ some row.id
removal_excludes_conversions schedule ts w initial unlocked keyed one origin row channel phase u
      past there runs =
    elim (pair_of (cleanup origin row channel phase) u _ peaceful.pairs there runs) [
      | inl e ↦ subst (λ v. converted v ≢ some row.id) e (λ k. cc k)
      | inr both ↦ removes_apart phase row.id u past both.0
    ]
  where
    peaceful : Peaceful (run schedule ts w).0 (run schedule ts w).1
    peaceful = run-Peaceful schedule ts w (record {
      keyed = keyed;
      bound = λ id a k. absurd (cc (sym (ap (λ l. l.conversions id) unlocked) ∙ k));
      separate = λ id other a j k. absurd (cc (sym (ap (λ l. l.conversions id) unlocked) ∙ j));
      alone = one;
      facts = All-map IsInitial (Fact w) (initial_Fact w) ts initial;
      pairs = initial_Pairs ts initial;
    })
