-- ===== src/PrioQueue.antt =====
-- srv/lib/prio_queue.c: a linked list of jobs, kept in ascending order of their requests.
pub mod Memory
pub mod Cells
pub mod View
mod Relink
pub mod Enqueue
pub mod Dequeue
pub mod Order
pub mod Calls
pub mod Held
pub mod Replay
use pronto.Prelude.{ℕ, zero, suc, ◌+◌, ◌-◌, ltb, ◌==◌, if◌then◌else◌}
use Memory.{Ptr, null, out_of_fuel, Command, pure, ◌>>=◌, ◌>>◌, load, set_next, check}

-- `prio_queue` of srv/lib/h/prio_queue.h
pub record PrioQueue : Type 0 where
  pub size : ℕ
  pub head : Ptr
  pub tail : Ptr

-- prio_queue_init
unfoldable pub init : PrioQueue
init = record { size = 0; head = null; tail = null }

-- The `while` of prio_queue_enqueue: the last node passed, and the node it stops at.
unfoldable pub walk : ℕ → ℕ → (prev curr : Ptr) → Command (Ptr × Ptr)
walk zero r prev curr = λ _. out_of_fuel
walk (suc k) r prev curr =
    if curr == null
    then pure (prev, curr)
    else do n ← load curr; if ltb n.value.request r then walk k r curr n.next else pure (prev, curr)

-- The three branches behind the loop: on top, at the bottom, between two nodes.
unfoldable pub link : PrioQueue → Ptr → Ptr → Ptr → Command PrioQueue
link list el prev curr =
    if prev == null
    then (do
      set_next el curr
      first ← load el
      n ← load el
      check (first.value.request == n.value.request)
      pure (record list { head = el }))
    else if curr == null
    then (do
      set_next el null
      set_next list.tail el
      last ← load el
      n ← load el
      check (last.value.request == n.value.request)
      pure (record list { tail = el }))
    else do set_next prev el; set_next el curr; pure list

-- prio_queue_enqueue
unfoldable pub enqueue : PrioQueue → Ptr → Command PrioQueue
enqueue list el =
    if list.size == 0
    then (do set_next el null; pure (record { size = list.size + 1; head = el; tail = el }))
    else do
      n ← load el
      (prev, curr) ← walk (list.size + 1) n.value.request null list.head
      linked ← link list el prev curr
      last ← load linked.tail
      check (last.next == null)
      pure (record linked { size = linked.size + 1 })

-- prio_queue_fifo_dequeue: the old head (NULL if there is none) and the queue that is left
unfoldable pub fifo_dequeue : PrioQueue → Command (Ptr × PrioQueue)
fifo_dequeue list = if list.size == 0 then pure (null, list) else do
  n ← load list.head
  pure (
    list.head,
    record {
      size = list.size - 1;
      head = n.next;
      tail = if n.next == null then null else list.tail;
    },
  )
