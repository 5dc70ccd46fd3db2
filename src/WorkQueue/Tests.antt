-- ===== src/WorkQueue/Tests.antt =====
-- Runs of the queues of internal/workqueue/queue.go.
use llm_file_gateway.Prelude.{ℕ, ◌≡◌, refl, true, false, some, List, [], ◌∷◌, ◌++◌}
use llm_file_gateway.WorkQueue.{
  BoundedQueue, UnboundedQueue, contents, new_queue, add, get, poll, await, add_unbounded,
  communicate,
}
use llm_file_gateway.WorkQueue.Fifo.{Call, adds, gets, step, run, started, run_fifo}
use llm_file_gateway.WorkQueue.Wakeup
use llm_file_gateway.WorkQueue.Wakeup.{Meanwhile, polls, disturb, disturb_all, no_lost_wakeup}

-- The third `Add` finds the buffer full and blocks; the cancelled one gives up.
abbrev calls : List (Call ℕ)
calls =
    adds false true 5
    ∷ adds false true 6
    ∷ adds false true 7
    ∷ gets false true
    ∷ adds true false 8
    ∷ []

calls_delivered : (run (started (new_queue 2)) calls).delivered ≡ 5 ∷ []
unfolding run step started new_queue add get
calls_delivered = refl

calls_waiting : contents (run (started (new_queue 2)) calls).queue ≡ 6 ∷ []
unfolding run step started new_queue add get
calls_waiting = refl

run_fifo_example :
    (run (started (new_queue 2)) calls).delivered
      ++ contents (run (started (new_queue 2)) calls).queue
    ≡ contents (new_queue 2) ++ (run (started (new_queue 2)) calls).accepted
run_fifo_example = run_fifo (new_queue 2) calls

abbrev full : BoundedQueue ℕ
full = record { capacity = 1; items = 4 ∷ [] }

abbrev idle : UnboundedQueue ℕ
idle = record { items = []; ready = 3 }

abbrev while_waiting : List (Meanwhile ℕ)
while_waiting = Wakeup.adds false 1 ∷ polls ∷ Wakeup.adds true 2 ∷ Wakeup.adds false 9 ∷ []

no_lost_wakeup_example : await false true 3 (disturb_all idle while_waiting) ≡ some communicate
unfolding poll disturb_all disturb add_unbounded
no_lost_wakeup_example = no_lost_wakeup idle 3 while_waiting 9 [] true refl refl
