-- ===== src/WorkQueue/Wakeup.antt =====
-- The unbounded queue of internal/workqueue/queue.go loses no wakeup: the consumer reads the number
-- of the channel under the lock, and every `Add` closes the channel of that number.
use llm_file_gateway.Prelude.{ℕ, ◌≤◌, ◌<◌, ◌≡◌, ◌⊎◌, Bool, false, some, List, [], ◌∷◌, arith}
use llm_file_gateway.WorkQueue.{
  UnboundedQueue, Poll, taken, empty, poll, add_unbounded, await, communicate,
}

-- What others do to the queue while a consumer waits: an `Add`, or the locked part of a `Get`.
pub data Meanwhile {ℓ} (T : Type ℓ) : Type ℓ where
  adds : Bool → T → Meanwhile T
  polls : Meanwhile T

module _ {ℓ} {T : Type ℓ} where
  polled : UnboundedQueue T → Poll T → UnboundedQueue T
  polled q (taken x rest) = rest
  polled q (empty channel) = q

  unfoldable pub disturb : UnboundedQueue T → Meanwhile T → UnboundedQueue T
  unfolding polled
  disturb q (adds done x) = (add_unbounded done q x).1
  disturb q polls = polled q (poll q)

  unfoldable pub disturb_all : UnboundedQueue T → List (Meanwhile T) → UnboundedQueue T
  disturb_all q [] = q
  disturb_all q (m ∷ ms) = disturb_all (disturb q m) ms

  -- Either the channel is closed already, or nothing has come in.
  abbrev Watched : ℕ → UnboundedQueue T → Type ℓ
  Watched channel q = (channel < q.ready) ⊎ ((q.items ≡ []) × (channel ≤ q.ready))

  disturb-Watched :
      (channel : ℕ) (q : UnboundedQueue T) (m : Meanwhile T)
      → Watched channel q
      → Watched channel (disturb q m)
  unfolding disturb add_unbounded poll
  disturb-Watched channel q (adds done x) h = ground arith
  disturb-Watched channel q polls h = ground arith

  disturb_all-Watched :
      (channel : ℕ) (q : UnboundedQueue T) (ms : List (Meanwhile T))
      → Watched channel q
      → Watched channel (disturb_all q ms)
  unfolding disturb_all
  disturb_all-Watched channel q [] h = h
  disturb_all-Watched channel q (m ∷ ms) h =
      disturb_all-Watched channel (disturb q m) ms (disturb-Watched channel q m h)

  poll-Watched : (q : UnboundedQueue T) (channel : ℕ) → poll q ≡ empty channel → Watched channel q
  unfolding poll
  poll-Watched q channel h = ground arith

  -- A consumer that found the queue empty is woken once an item is there: whatever was added and
  -- taken since, if the queue now holds an item then the channel that the consumer waits on is
  -- closed, and with a live context its `select` sends it round the loop again.
  pub no_lost_wakeup :
      (q : UnboundedQueue T) (channel : ℕ) (ms : List (Meanwhile T)) (x : T) (rest : List T)
      (pick : Bool)
      → poll q ≡ empty channel
      → (disturb_all q ms).items ≡ x ∷ rest
      → await false pick channel (disturb_all q ms) ≡ some communicate
  unfolding await
  no_lost_wakeup q channel ms x rest pick h e =
      ground (arith, disturb_all-Watched channel q ms (poll-Watched q channel h))
