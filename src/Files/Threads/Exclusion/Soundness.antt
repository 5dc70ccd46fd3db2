-- ===== src/Files/Threads/Exclusion/Soundness.antt =====
-- The state of the locks is sound after every interleaving of internal/files/service.go's threads.
use llm_file_gateway.Prelude.{
  ℕ, ◌≤◌, ◌<◌, ◌≡◌, refl, sym, ap, ◌∙◌, false, Option, some, List, [], ◌∷◌, ◌++◌, arith, All,
}
use llm_file_gateway.Prelude.Text.{String}
use llm_file_gateway.Files.Disk.{Bytes}
use llm_file_gateway.Files.Locks.{Locks, no_locks}
use llm_file_gateway.Files.Threads.{
  World, Thread, reader, reading, deleter, sweeper, cleanup, worker, run,
}
use llm_file_gateway.Files.Threads.Counting.{
  sum_over, sum_over-split, All-split, All-join, run_keeps,
}
use llm_file_gateway.Files.Threads.Exclusion.{reads, claims, count_of, Safe, Coherent}
use llm_file_gateway.Files.Threads.Exclusion.Steps.{step-Coherent}

-- The state of the locks that belongs to a list of threads.
pub record Sound (ts : List Thread) (w : World) : Type 0 where
  pub fresh : (address : ℕ) → w.locks.next ≤ address → (w.locks.lease_at address).refs ≡ 0
  pub leased :
      (id : String) (address : ℕ)
      → w.locks.leases id ≡ some address
      → (address < w.locks.next)
        × (0 < (w.locks.lease_at address).refs)
        × ((w.locks.lease_at address).closed ≡ false)
  pub separate :
      (id other : String) (address : ℕ)
      → w.locks.leases id ≡ some address
      → w.locks.leases other ≡ some address
      → id ≡ other
  pub counted : (address : ℕ) → sum_over (reads address) ts ≡ (w.locks.lease_at address).refs
  pub claimed : (id : String) → sum_over (claims id) ts ≡ count_of (w.locks.deleting id)
  pub safe : All (Safe w.locks) ts

module _ (before behind : List Thread) (t : Thread) (w : World) where
  to_Coherent : Sound (before ++ t ∷ behind) w → Coherent w.locks t (before ++ behind)
  to_Coherent h = record {
    fresh = h.fresh;
    leased = h.leased;
    separate = h.separate;
    counted = λ a. sym (sum_over-split (reads a) before t behind) ∙ h.counted a;
    claimed = λ id. sym (sum_over-split (claims id) before t behind) ∙ h.claimed id;
    safe = (All-split (Safe w.locks) before t behind h.safe).0;
    others_safe = (All-split (Safe w.locks) before t behind h.safe).1;
  }

  of_Coherent : Coherent w.locks t (before ++ behind) → Sound (before ++ t ∷ behind) w
  of_Coherent h = record {
    fresh = h.fresh;
    leased = h.leased;
    separate = h.separate;
    counted = λ a. sum_over-split (reads a) before t behind ∙ h.counted a;
    claimed = λ id. sum_over-split (claims id) before t behind ∙ h.claimed id;
    safe = All-join (Safe w.locks) before t behind h.safe h.others_safe;
  }

pub run-Sound :
    (schedule : List (Option Bytes × ℕ)) (ts : List Thread) (w : World)
    → Sound ts w
    → Sound (run schedule ts w).0 (run schedule ts w).1
run-Sound =
    run_keeps Sound
      (λ outcome before behind t t' w w' e h.
        of_Coherent before behind t' w'
          (step-Coherent outcome t t' w w' (before ++ behind) e (to_Coherent before behind t w h)))
      λ ts w h. record {
        fresh = h.fresh;
        leased = h.leased;
        separate = h.separate;
        counted = h.counted;
        claimed = h.claimed;
        safe = h.safe;
      }

-- A thread at its start: it holds no lease and no claim.
abbrev pub IsInitial : Thread → Type 0
IsInitial (reader id tenant_id) = Unit
IsInitial (deleter id tenant_id) = Unit
IsInitial sweeper = Unit
IsInitial (worker id) = Unit
IsInitial _ = ⊥

initial_counts :
    (f : Thread → ℕ)
    → ((t : Thread) → IsInitial t → f t ≡ 0)
    → (ts : List Thread) → All IsInitial ts
    → sum_over f ts ≡ 0
initial_counts f zero_at [] h = refl
initial_counts f zero_at (t ∷ ts) h = omega (arith, zero_at t h.0, initial_counts f zero_at ts h.1)

initial-reads : (a : ℕ) (t : Thread) → IsInitial t → reads a t ≡ 0
initial-reads a (reading row held) h = elim h [ ]
initial-reads a _ h = refl

initial-claims : (id : String) (t : Thread) → IsInitial t → claims id t ≡ 0
initial-claims id (cleanup origin row channel phase) h = elim h [ ]
initial-claims id _ h = refl

initial-Safe : (locks : Locks) (t : Thread) → IsInitial t → Safe locks t
initial-Safe locks (cleanup origin row channel phase) h = elim h [ ]
initial-Safe locks (reading row held) h = elim h [ ]
initial-Safe locks _ h = tt

-- A world in which no lock is taken.
abbrev pub IsUnlocked : World → Type 0
IsUnlocked w = w.locks ≡ no_locks

initial-All-Safe : (locks : Locks) (ts : List Thread) → All IsInitial ts → All (Safe locks) ts
initial-All-Safe locks [] h = tt
initial-All-Safe locks (t ∷ ts) h = (initial-Safe locks t h.0, initial-All-Safe locks ts h.1)

pub initial-Sound : (ts : List Thread) (w : World) → All IsInitial ts → IsUnlocked w → Sound ts w
initial-Sound ts w h e = record {
  fresh = λ a k. ap (λ (l : Locks). (l.lease_at a).refs) e;
  leased = λ id a k. absurd (nothing id a k);
  separate = λ id other a j k. absurd (nothing id a j);
  counted = λ a.
      initial_counts (reads a) (initial-reads a) ts h
      ∙ sym (ap (λ (l : Locks). (l.lease_at a).refs) e);
  claimed = λ id.
      initial_counts (claims id) (initial-claims id) ts h
      ∙ sym (ap (λ (l : Locks). count_of (l.deleting id)) e);
  safe = initial-All-Safe w.locks ts h;
}
  where
    nothing : (id : String) (a : ℕ) → w.locks.leases id ≡ some a → ⊥
    nothing id a k = cc (k, ap (λ (l : Locks). l.leases id) e)
