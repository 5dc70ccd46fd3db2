-- ===== src/WorkQueue/Capacity.antt =====
-- The capacity of the queues of internal/workqueue/queue.go.
use llm_file_gateway.Prelude.{
  ℕ, ◌≤◌, ◌<◌, ◌≡◌, ◌≢◌, ◌↔◌, Bool, true, false, none, List, [], ◌∷◌, length, length-append, arith,
  lt→ltb,
}
use llm_file_gateway.WorkQueue.{
  Queue, BoundedQueue, bounded, unbounded, contents, new_queue, add, get,
}
use llm_file_gateway.WorkQueue.Fifo.{Call, run, started, Leaves, run_induction}

module _ {ℓ} {T : Type ℓ} where
  -- A bounded queue of this capacity, with no more items than it has room for.
  abbrev Holds : ℕ → Queue T → Type 0
  Holds n (bounded q) = (q.capacity ≡ n) × (length q.items ≤ n)
  Holds n (unbounded q) = ⊥

  add-Holds :
      (n : ℕ) (done pick : Bool) (q : Queue T) (x : T)
      → Holds n q
      → Leaves (Holds n) (add done pick q x)
  unfolding add
  add-Holds n done pick (bounded q) x h = ground (arith, length-append q.items (x ∷ []))
  add-Holds n done pick (unbounded q) x h = elim h [ ]

  get-Holds :
      (n : ℕ) (done pick : Bool) (q : Queue T) → Holds n q → Leaves (Holds n) (get done pick q)
  unfolding get
  get-Holds n done pick (bounded q) h = ground arith
  get-Holds n done pick (unbounded q) h = elim h [ ]

  Holds-bound : (n : ℕ) (q : Queue T) → Holds n q → length (contents q) ≤ n
  Holds-bound n (bounded q) h = h.1
  Holds-bound n (unbounded q) h = elim h [ ]

  -- A queue made with a positive capacity never holds more items than that, whatever calls are made
  -- on it and however they are cancelled.
  run_within_capacity :
      (capacity : ℕ) (cs : List (Call T))
      → 0 < capacity
      → length (contents (run (started (new_queue capacity)) cs).queue) ≤ capacity
  unfolding started new_queue
  run_within_capacity capacity cs h = Holds-bound capacity _ (
      run_induction (Holds capacity) (add-Holds capacity) (get-Holds capacity)
        (started (new_queue capacity)) cs (rw (lt→ltb 0 capacity h) (omega arith)))

  -- While its context is not cancelled, `Add` on a bounded queue blocks exactly when the buffer is
  -- full, and `Get` exactly when it is empty; a cancelled context unblocks both.
  bounded_blocks_exactly :
      (q : BoundedQueue T) (pick : Bool) (x : T)
      → ((add false pick (bounded q) x ≡ none) ↔ (q.capacity ≤ length q.items))
        × ((get false pick (bounded q) ≡ none) ↔ (q.items ≡ []))
        × (add true pick (bounded q) x ≢ none)
        × (get true pick (bounded q) ≢ none)
  unfolding add get
  bounded_blocks_exactly q pick x = (
    (λ h. ground arith, λ h. ground arith),
    (λ h. ground arith, λ h. ground arith),
    λ h. ground arith,
    λ h. ground arith,
  )
