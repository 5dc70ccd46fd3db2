-- ===== src/Files/Threads/Exclusion/Claims.antt =====
-- The critical sections that begin and end a deletion keep the locks coherent.
use llm_file_gateway.Prelude.{
  ℕ, ◌+◌, ◌≤◌, ◌<◌, ◌≡◌, false, some, List, arith, All, All-both, All-map,
}
use llm_file_gateway.Prelude.Text.{String, eq_iff}
use llm_file_gateway.Store.{File}
use llm_file_gateway.Files.Locks.{Locks, begin_deletion, end_deletion}
use llm_file_gateway.Files.Threads.{
  Thread, Origin, claiming, cleanup, marking, ending, handler, janitor, after_deletion,
}
use llm_file_gateway.Files.Threads.Counting.{sum_over}
use llm_file_gateway.Files.Threads.Exclusion.{reads, claims, count_of, Safe, Coherent}
use llm_file_gateway.Files.Threads.Exclusion.Stable.{begin_deletion-Safe, end_deletion-Safe}
use llm_file_gateway.Files.Threads.Exclusion.Leases.{sum_over-zero}

module _ (origin : Origin) (row : File) (l l' : Locks) (channel : ℕ) (others : List Thread)
    (step : begin_deletion row.id l ≡ some (channel, l'))
    (h : Coherent l (claiming origin row) others) where
  begin-claimed :
      (id : String)
      → claims id (cleanup origin row channel marking) + sum_over (claims id) others
        ≡ count_of (l'.deleting id)
  unfolding begin_deletion
  begin-claimed id = ground (arith, h.claimed id, eq_iff id row.id, eq_iff row.id id)

  begun : l'.deleting row.id ≡ some channel
  unfolding begin_deletion
  begun = ground (arith, eq_iff row.id row.id)

  begin-fresh : (a : ℕ) → l'.next ≤ a → (l'.lease_at a).refs ≡ 0
  unfolding begin_deletion
  begin-fresh a k = ground (arith, h.fresh a)

  begin-leased :
      (id : String) (a : ℕ)
      → l'.leases id ≡ some a
      → (a < l'.next) × (0 < (l'.lease_at a).refs) × ((l'.lease_at a).closed ≡ false)
  unfolding begin_deletion
  begin-leased id a k = ground (arith, h.leased id a)

  begin-separate :
      (id other : String) (a : ℕ) → l'.leases id ≡ some a → l'.leases other ≡ some a → id ≡ other
  unfolding begin_deletion
  begin-separate id other a j k = ground (arith, h.separate id other a)

  begin-counted : (a : ℕ) → 0 + sum_over (reads a) others ≡ (l'.lease_at a).refs
  unfolding begin_deletion
  begin-counted a = ground (arith, h.counted a)

  pub begin-Coherent : Coherent l' (cleanup origin row channel marking) others
  begin-Coherent = record {
    fresh = begin-fresh;
    leased = begin-leased;
    separate = begin-separate;
    counted = begin-counted;
    claimed = begin-claimed;
    safe = (begun, tt);
    others_safe =
        All-map (Safe l) (Safe l') (begin_deletion-Safe row.id l l' channel step) others
          h.others_safe;
  }

module _ (origin : Origin) (row : File) (l : Locks) (channel : ℕ) (others : List Thread)
    (h : Coherent l (cleanup origin row channel ending) others) where
  abbrev ended : Locks
  ended = end_deletion row.id channel l

  end-claimed : (id : String) → 0 + sum_over (claims id) others ≡ count_of (ended.deleting id)
  unfolding end_deletion
  end-claimed id = ground (arith, h.claimed id, h.safe.0, eq_iff id row.id, eq_iff row.id id)

  end-fresh : (a : ℕ) → ended.next ≤ a → (ended.lease_at a).refs ≡ 0
  unfolding end_deletion
  end-fresh a k = ground (arith, h.fresh a)

  end-leased :
      (id : String) (a : ℕ)
      → ended.leases id ≡ some a
      → (a < ended.next) × (0 < (ended.lease_at a).refs) × ((ended.lease_at a).closed ≡ false)
  unfolding end_deletion
  end-leased id a k = ground (arith, h.leased id a)

  end-separate :
      (id other : String) (a : ℕ)
      → ended.leases id ≡ some a
      → ended.leases other ≡ some a
      → id ≡ other
  unfolding end_deletion
  end-separate id other a j k = ground (arith, h.separate id other a)

  end-counted : (a : ℕ) → 0 + sum_over (reads a) others ≡ (ended.lease_at a).refs
  unfolding end_deletion
  end-counted a = ground (arith, h.counted a)

  alone : sum_over (claims row.id) others ≡ 0
  alone = ground (arith, h.claimed row.id, h.safe.0, eq_iff row.id row.id)

  end-others : All (Safe ended) others
  end-others =
      All-map (λ u. Safe l u × (claims row.id u ≡ 0)) (Safe ended)
        (λ u k. end_deletion-Safe row.id l channel u k.0 k.1) others
        (All-both (Safe l) _ others h.others_safe (sum_over-zero (claims row.id) others alone))

  pub end-Coherent : Coherent ended (after_deletion origin) others
  unfolding after_deletion
  end-Coherent = elim origin as (λ o. Coherent ended (after_deletion o) others) [
    | handler ↦ record {
      fresh = end-fresh;
      leased = end-leased;
      separate = end-separate;
      counted = end-counted;
      claimed = end-claimed;
      safe = tt;
      others_safe = end-others;
    }
    | janitor rows ↦ record {
      fresh = end-fresh;
      leased = end-leased;
      separate = end-separate;
      counted = end-counted;
      claimed = end-claimed;
      safe = tt;
      others_safe = end-others;
    }
  ]
