-- ===== src/PrioQueue/Calls.antt =====
-- What the threads do with a queue: pronto_add_job, pronto_add_waiting_job and cluster_worker_add_job
-- allocate a node and enqueue it, scheduler_worker.c, rescheduler.c and cluster_worker.c take the
-- first node and read its request, rescheduler.c looks at the head first, and scheduler_worker.c frees
-- its node at the end.
use pronto.Prelude.{ℕ, Option, none, some, List, [], ◌∷◌, ◌==◌, if◌then◌else◌}
use pronto.PrioQueue.Memory.{
  Ptr, null, job, node, write, done, fault, Command, pure, ◌>>=◌, ◌>>◌, load,
}
use pronto.PrioQueue.{PrioQueue, enqueue, fifo_dequeue}

-- calloc of a node, at the address that it returned, and of its job: the node points at nothing.
unfoldable pub new_node : Ptr → ℕ → Command (Unit {0})
unfolding write
new_node el value h = if el == null then fault else done tt (write h el (node (job value) null))

-- pronto_add_job, pronto_add_waiting_job and cluster_worker_add_job, on their queue
unfoldable pub add : PrioQueue → Ptr → ℕ → Command PrioQueue
unfolding new_node enqueue
add list el value = do new_node el value; enqueue list el

-- prio_queue_fifo_dequeue and the request of the node, if there is one
unfoldable pub take : PrioQueue → Command (Option ℕ × PrioQueue)
unfolding fifo_dequeue load
take list = do
  (p, left) ← fifo_dequeue list
  if p == null then pure (none, left) else do n ← load p; pure (some n.value.request, left)

-- The rescheduler's test of the head, and its request
unfoldable pub look : PrioQueue → Command (Option ℕ)
unfolding load
look list =
    if list.head == null then pure none else do n ← load list.head; pure (some n.value.request)

-- `free(node)`: nothing happens to NULL, and an address without a node is a fault, as after a free.
unfoldable pub free_node : Ptr → Command (Unit {0})
free_node p h =
    if p == null
    then done tt h
    else (elim (h p) [ none ↦ fault | some n ↦ done tt (λ a. if a == p then none else h a) ])

pub data Call : Type 0 where
  adds : (el : Ptr) (value : ℕ) → Call
  takes : Call
  looks : Call
  frees : (el : Ptr) → Call

-- A call, with the request that it gives.
abbrev pub perform : PrioQueue → Call → Command (Option ℕ × PrioQueue)
perform list (adds el value) = do list' ← add list el value; pure (none, list')
perform list takes = take list
perform list looks = do v ← look list; pure (v, list)
perform list (frees el) = do free_node el; pure (none, list)

-- Calls one after the other, with what each of them gives.
unfoldable pub perform_all : PrioQueue → List Call → Command (List (Option ℕ) × PrioQueue)
perform_all list [] = pure ([], list)
perform_all list (c ∷ cs) = do
  (v, left) ← perform list c
  (vs, last) ← perform_all left cs
  pure (v ∷ vs, last)
