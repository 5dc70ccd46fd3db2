-- ===== src/WorkQueue.antt =====
-- internal/workqueue/queue.go: the bounded queue (a buffered channel) and the unbounded one (a slice
-- under a mutex, with a channel that is closed and replaced at each `Add`).
-- A blocking operation is a function from the state and what its `select` chooses to an outcome:
-- `none` says that it blocks. `done` says whether the context is cancelled, and `pick` resolves a
-- `select` with two ready cases, which Go chooses at random.
pub mod Fifo
pub mod Capacity
pub mod Wakeup
pub mod Tests
use llm_file_gateway.Prelude.{
  ℕ, suc, ◌+◌, Bool, true, false, ◌&&◌, Option, none, some, List, [], ◌∷◌, ◌++◌, length, ltb,
  if◌then◌else◌,
}

-- The case that a `select` takes: its communication, or `<-ctx.Done()`.
pub data Case : Type 0 where
  communicate cancelled : Case

-- `select` over a communication and `<-ctx.Done()`: it blocks when neither is ready.
abbrev pub select_case : Bool → Bool → Bool → Option Case
select_case true true pick = some (if pick then communicate else cancelled)
select_case true false pick = some communicate
select_case false true pick = some cancelled
select_case false false pick = none

-- What a blocking receive comes back with: an item, or the word to quit.
pub data Received {ℓ} (T : Type ℓ) : Type ℓ where
  item : T → Received T
  quit : Received T

-- `items` is the channel's buffer, oldest first, and `capacity` its size.
pub record BoundedQueue {ℓ} (T : Type ℓ) : Type ℓ where
  pub capacity : ℕ
  pub items : List T

-- `ready` numbers the channel that waiting consumers hold: the channels below it are closed.
pub record UnboundedQueue {ℓ} (T : Type ℓ) : Type ℓ where
  pub items : List T
  pub ready : ℕ

pub data Queue {ℓ} (T : Type ℓ) : Type ℓ where
  bounded : BoundedQueue T → Queue T
  unbounded : UnboundedQueue T → Queue T

abbrev pub contents {ℓ} : {T : Type ℓ} → Queue T → List T
contents (bounded q) = q.items
contents (unbounded q) = q.items

-- What a consumer of the unbounded queue finds under the lock: an item that it takes away, or the
-- number of the channel on which it has to wait.
pub data Poll {ℓ} (T : Type ℓ) : Type ℓ where
  taken : T → UnboundedQueue T → Poll T
  empty : ℕ → Poll T

module _ {ℓ} {T : Type ℓ} where
  -- A capacity of zero creates an unbounded queue.
  unfoldable pub new_queue : ℕ → Queue T
  new_queue capacity =
      if ltb 0 capacity
      then bounded (record { capacity = capacity; items = [] })
      else unbounded (record { items = []; ready = 0 })

  -- A send is ready while the buffer has room.
  unfoldable pub add_bounded : Bool → Bool → BoundedQueue T → T → Option (Bool × BoundedQueue T)
  add_bounded done pick queue new_item =
      let sent = record queue { items = queue.items ++ new_item ∷ [] } in
      elim (select_case (ltb (length queue.items) queue.capacity) done pick) [
        | none ↦ none
        | some communicate ↦ some (true, sent)
        | some cancelled ↦ some (false, queue)
      ]

  -- The part of `Get` that takes the oldest item, and the choice of its `select`.
  receive_bounded : Bool → Bool → BoundedQueue T → List T → Option (Received T × BoundedQueue T)
  receive_bounded done pick queue [] = if done then some (quit, queue) else none
  receive_bounded done pick queue (oldest ∷ rest) =
      if done && pick then some (quit, queue) else some (item oldest, record queue { items = rest })

  unfoldable pub get_bounded : Bool → Bool → BoundedQueue T → Option (Received T × BoundedQueue T)
  unfolding receive_bounded
  get_bounded done pick queue = receive_bounded done pick queue queue.items

  -- `Add` looks at the context first, and never blocks.
  unfoldable pub add_unbounded : Bool → UnboundedQueue T → T → Bool × UnboundedQueue T
  add_unbounded done queue new_item =
      if done
      then (false, queue)
      else (true, record { items = queue.items ++ new_item ∷ []; ready = queue.ready + 1 })

  poll_items : UnboundedQueue T → List T → Poll T
  poll_items queue [] = empty queue.ready
  poll_items queue (oldest ∷ rest) = taken oldest (record queue { items = rest })

  -- One pass of the loop of `Get`, up to the unlock.
  unfoldable pub poll : UnboundedQueue T → Poll T
  unfolding poll_items
  poll queue = poll_items queue queue.items

  -- The `select` on which an empty-handed consumer waits: `cancelled` quits, `communicate` goes
  -- round the loop again.
  unfoldable pub await : Bool → Bool → ℕ → UnboundedQueue T → Option Case
  await done pick channel queue = select_case (ltb channel queue.ready) done pick

  -- `Get` up to its first wait, where `none` says that it waits.
  unfoldable pub get_unbounded : Bool → UnboundedQueue T → Option (Received T × UnboundedQueue T)
  unfolding poll
  get_unbounded done queue = elim (poll queue) [
    | taken oldest rest ↦ some (item oldest, rest)
    | empty channel ↦ if done then some (quit, queue) else none
  ]

  abbrev pub through {κ} :
      {A : Type κ} {Q : Type ℓ} → (Q → Queue T) → Option (A × Q) → Option (A × Queue T)
  through f none = none
  through f (some (a, q)) = some (a, f q)

  -- The methods of the interface, by dynamic dispatch.
  unfoldable pub add : Bool → Bool → Queue T → T → Option (Bool × Queue T)
  unfolding add_bounded add_unbounded
  add done pick (bounded q) new_item = through bounded (add_bounded done pick q new_item)
  add done pick (unbounded q) new_item = through unbounded (some (add_unbounded done q new_item))

  unfoldable pub get : Bool → Bool → Queue T → Option (Received T × Queue T)
  unfolding get_bounded get_unbounded
  get done pick (bounded q) = through bounded (get_bounded done pick q)
  get done pick (unbounded q) = through unbounded (get_unbounded done q)
