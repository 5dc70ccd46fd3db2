-- ===== src/WorkQueue/Fifo.antt =====
-- Both queues against a plain list: what goes in comes out, once and in order.
use mathlib.Core.List.{append_assoc, append-nil}
use llm_file_gateway.Prelude.{
  ◌≡◌, sym, Bool, true, false, Option, none, some, List, [], ◌∷◌, ◌++◌, arith,
}
use llm_file_gateway.WorkQueue.{Queue, bounded, unbounded, contents, Received, item, quit, add, get}

-- A call on the queue: its flags are whether its context is cancelled, and the pick of its `select`.
pub data Call {ℓ} (T : Type ℓ) : Type ℓ where
  adds : Bool → Bool → T → Call T
  gets : Bool → Bool → Call T

-- The items that `Add` reported as queued, those that `Get` handed out, and the queue at the end.
pub record Trace {ℓ} (T : Type ℓ) : Type ℓ where
  pub accepted : List T
  pub delivered : List T
  pub queue : Queue T

module _ {ℓ} {T : Type ℓ} where
  added : T → Option (Bool × Queue T) → Trace T → Trace T
  added x none t = t
  added x (some (true, q)) t = record t { accepted = t.accepted ++ x ∷ []; queue = q }
  added x (some (false, q)) t = record t { queue = q }

  got : Option (Received T × Queue T) → Trace T → Trace T
  got none t = t
  got (some (item x, q)) t = record t { delivered = t.delivered ++ x ∷ []; queue = q }
  got (some (quit, q)) t = record t { queue = q }

  -- A call that blocks leaves the queue to the other calls.
  unfoldable pub step : Trace T → Call T → Trace T
  unfolding added got
  step t (adds done pick x) = added x (add done pick t.queue x) t
  step t (gets done pick) = got (get done pick t.queue) t

  unfoldable pub run : Trace T → List (Call T) → Trace T
  run t [] = t
  run t (c ∷ cs) = run (step t c) cs

  unfoldable pub started : Queue T → Trace T
  started q = record { accepted = []; delivered = []; queue = q }

  -- What a call does to the queue decides what it does to a predicate on the queue.
  abbrev pub Leaves {κ} : {A : Type κ} → (Queue T → Type 0) → Option (A × Queue T) → Type 0
  Leaves P none = Unit
  Leaves P (some (a, q)) = P q

  added-queue :
      (P : Queue T → Type 0) (t : Trace T) (x : T) (r : Option (Bool × Queue T))
      → P t.queue
      → Leaves P r
      → P (added x r t).queue
  unfolding added
  added-queue P t x none h k = h
  added-queue P t x (some (true, q)) h k = k
  added-queue P t x (some (false, q)) h k = k

  got-queue :
      (P : Queue T → Type 0) (t : Trace T) (r : Option (Received T × Queue T))
      → P t.queue
      → Leaves P r
      → P (got r t).queue
  unfolding got
  got-queue P t none h k = h
  got-queue P t (some (item x, q)) h k = k
  got-queue P t (some (quit, q)) h k = k

  -- A predicate that `Add` and `Get` keep holds after every run.
  pub run_induction :
      (P : Queue T → Type 0)
      → ((done pick : Bool) (q : Queue T) (x : T) → P q → Leaves P (add done pick q x))
      → ((done pick : Bool) (q : Queue T) → P q → Leaves P (get done pick q))
      → (t : Trace T) (cs : List (Call T)) → P t.queue
      → P (run t cs).queue
  unfolding run step
  run_induction P a g t [] h = h
  run_induction P a g t (adds done pick x ∷ cs) h =
      run_induction P a g (step t (adds done pick x)) cs
        (added-queue P t x (add done pick t.queue x) h (a done pick t.queue x h))
  run_induction P a g t (gets done pick ∷ cs) h =
      run_induction P a g (step t (gets done pick)) cs
        (got-queue P t (get done pick t.queue) h (g done pick t.queue h))

  -- The delivered items and the waiting ones are the accepted ones.
  abbrev Balanced : List T → Trace T → Type ℓ
  Balanced initial t = t.delivered ++ contents t.queue ≡ initial ++ t.accepted

  abbrev AddsItem : Queue T → T → Option (Bool × Queue T) → Type ℓ
  AddsItem q x none = Unit
  AddsItem q x (some (true, q')) = contents q' ≡ contents q ++ x ∷ []
  AddsItem q x (some (false, q')) = contents q' ≡ contents q

  add-AddsItem : (done pick : Bool) (q : Queue T) (x : T) → AddsItem q x (add done pick q x)
  unfolding add
  add-AddsItem done pick (bounded q) x = ground arith
  add-AddsItem done pick (unbounded q) x = ground arith

  abbrev GetsOldest : Queue T → Option (Received T × Queue T) → Type ℓ
  GetsOldest q none = Unit
  GetsOldest q (some (item x, q')) = contents q ≡ x ∷ contents q'
  GetsOldest q (some (quit, q')) = contents q' ≡ contents q

  get-GetsOldest : (done pick : Bool) (q : Queue T) → GetsOldest q (get done pick q)
  unfolding get
  get-GetsOldest done pick (bounded q) = ground arith
  get-GetsOldest done pick (unbounded q) = ground arith

  added-Balanced :
      (initial : List T) (t : Trace T) (x : T) (r : Option (Bool × Queue T))
      → AddsItem t.queue x r
      → Balanced initial t
      → Balanced initial (added x r t)
  unfolding added
  added-Balanced initial t x none a h = h
  added-Balanced initial t x (some (true, q)) a h = rw a (
      cc (
        h,
        append_assoc t.delivered (contents t.queue) (x ∷ []),
        append_assoc initial t.accepted (x ∷ []),
      ))
  added-Balanced initial t x (some (false, q)) a h = rw a h

  got-Balanced :
      (initial : List T) (t : Trace T) (r : Option (Received T × Queue T))
      → GetsOldest t.queue r
      → Balanced initial t
      → Balanced initial (got r t)
  unfolding got
  got-Balanced initial t none g h = h
  got-Balanced initial t (some (item x, q)) g h =
      cc (h, g, append_assoc t.delivered (x ∷ []) (contents q))
  got-Balanced initial t (some (quit, q)) g h = rw g h

  step-Balanced :
      (initial : List T) (t : Trace T) (c : Call T)
      → Balanced initial t
      → Balanced initial (step t c)
  unfolding step
  step-Balanced initial t (adds done pick x) h =
      added-Balanced initial t x _ (add-AddsItem done pick t.queue x) h
  step-Balanced initial t (gets done pick) h =
      got-Balanced initial t _ (get-GetsOldest done pick t.queue) h

  run-Balanced :
      (initial : List T) (t : Trace T) (cs : List (Call T))
      → Balanced initial t
      → Balanced initial (run t cs)
  unfolding run
  run-Balanced initial t [] h = h
  run-Balanced initial t (c ∷ cs) h =
      run-Balanced initial (step t c) cs (step-Balanced initial t c h)

  -- For every queue and every sequence of calls, whatever the contexts and the choices of `select`:
  -- the items handed out, followed by those that still wait, are the items that the queue held at
  -- the start followed by those that `Add` accepted, in the same order.
  pub run_fifo :
      (q : Queue T) (cs : List (Call T))
      → let t = run (started q) cs in t.delivered ++ contents t.queue ≡ contents q ++ t.accepted
  unfolding started
  run_fifo q cs = run-Balanced (contents q) (started q) cs (sym (append-nil (contents q)))
