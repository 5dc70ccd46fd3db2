-- ===== src/Files/Threads/Exclusion/Frame.antt =====
-- Steps that change no lease and no claim keep the locks coherent.
use llm_file_gateway.Prelude.{ℕ, ◌≤◌, ◌≡◌, List, arith, All-map}
use llm_file_gateway.Prelude.Text.{String}
use llm_file_gateway.Files.Locks.{Locks}
use llm_file_gateway.Files.Threads.{Thread, Phase, reading, cleanup, awaiting_lease, removing}
use llm_file_gateway.Files.Threads.Exclusion.{reads, claims, LeaseFact, Safe, Coherent}

-- A thread that is counted as before.
pub record SameCounts (t t' : Thread) : Type 0 where
  pub reads_same : (a : ℕ) → reads a t' ≡ reads a t
  pub claims_same : (id : String) → claims id t' ≡ claims id t

module _ (l l' : Locks) (leases_same : l'.leases ≡ l.leases)
    (deleting_same : l'.deleting ≡ l.deleting) (lease_at_same : l'.lease_at ≡ l.lease_at)
    (next_le : l.next ≤ l'.next) where
  frame-LeaseFact : (id : String) (phase : Phase) → LeaseFact l id phase → LeaseFact l' id phase
  frame-LeaseFact id (awaiting_lease waited) k = ground arith
  frame-LeaseFact id removing k = ground arith
  frame-LeaseFact id _ k = tt

  frame-Safe : (u : Thread) → Safe l u → Safe l' u
  frame-Safe (reading row held) h = ground arith
  frame-Safe (cleanup origin row channel phase) h = (ground arith, frame-LeaseFact row.id phase h.1)
  frame-Safe _ h = tt

-- A step that leaves leases and claims alone, such as one on the conversions.
pub frame-Coherent :
    (l l' : Locks) (t t' : Thread) (others : List Thread)
    → l'.leases ≡ l.leases
    → l'.deleting ≡ l.deleting
    → l'.lease_at ≡ l.lease_at
    → l.next ≤ l'.next
    → SameCounts t t'
    → Safe l' t'
    → Coherent l t others
    → Coherent l' t' others
frame-Coherent l l' t t' others leases_same deleting_same lease_at_same next_le same safe h =
    record {
      fresh = λ a k. rw lease_at_same (h.fresh a (omega arith));
      leased = λ id a k.
          let (below, held, opened) = h.leased id a (rw leases_same at k) in
          (omega arith, rw lease_at_same held, rw lease_at_same opened);
      separate =
          λ id other a j k. h.separate id other a (rw leases_same at j) (rw leases_same at k);
      counted = λ a. rw (lease_at_same, same.reads_same a) (h.counted a);
      claimed = λ id. rw (deleting_same, same.claims_same id) (h.claimed id);
      safe = safe;
      others_safe =
          All-map (Safe l) (Safe l')
            (frame-Safe l l' leases_same deleting_same lease_at_same next_le) others h.others_safe;
    }
