-- ===== src/Tests/Queue.antt =====
-- The queue of prio_queue.c on a store of three nodes.
use pronto.Prelude.{◌≡◌, refl, none, some, List, [], ◌∷◌, arith}
use pronto.PrioQueue
use pronto.PrioQueue.{PrioQueue}
use pronto.PrioQueue.Memory.{null, job, node, Store, write, done, ◌>>=◌, set_next, check}
use pronto.PrioQueue.Cells.{Cells, jobs}
use pronto.PrioQueue.Order.{IsSorted, insert_job, take_job}
use pronto.PrioQueue.Calls.{Call, adds, takes, looks, frees, perform_all}
use pronto.PrioQueue.Replay.{AllLegal, replay, perform_all-init}
use pronto.PrioQueue.View.{IsQueue}
use pronto.PrioQueue.Enqueue.{Enqueued, enqueue-insert}

-- Nodes 1, 2 and 3 as pronto_add_job leaves them, each with its job.
abbrev nodes : Store
nodes = write (write (write (λ _. none) 1 (node (job 5) 0)) 2 (node (job 9) 0)) 3 (node (job 7) 0)

abbrev two : PrioQueue
two = record { size = 2; head = 1; tail = 2 }

abbrev linked : Store
linked = write nodes 1 (node (job 5) 2)

two-IsQueue : IsQueue linked two ((1, job 5) ∷ (2, job 9) ∷ [])
unfolding write
two-IsQueue = record {
  size_eq = refl;
  head_eq = refl;
  tail_eq = refl;
  chain = (ground arith, refl, refl, (ground arith, refl, refl, tt));
}

enqueue-insert_example : Enqueued linked 3 (job 7) two ((1, job 5) ∷ (2, job 9) ∷ [])
unfolding write
enqueue-insert_example =
    enqueue-insert linked 3 (job 7) null (ground arith) refl two ((1, job 5) ∷ (2, job 9) ∷ [])
      two-IsQueue refl

-- Three inserts into an empty queue, then the head.
three :
    ((do
      a ← PrioQueue.enqueue PrioQueue.init 1
      b ← PrioQueue.enqueue a 2
      c ← PrioQueue.enqueue b 3
      PrioQueue.fifo_dequeue c)
      nodes)
    ≡ done
        (1, record { size = 2; head = 3; tail = 2 })
        (write
          (write
            (write (write (write nodes 1 (node (job 5) 0)) 2 (node (job 9) 0)) 1 (node (job 5) 2))
            1
            (node (job 5) 3))
          3
          (node (job 7) 2))
unfolding PrioQueue.enqueue PrioQueue.init PrioQueue.fifo_dequeue PrioQueue.walk PrioQueue.link
    write set_next check
three = refl

-- Three jobs are added and two taken, one of them freed and its address used again.
abbrev calls : List Call
calls = adds 1 5 ∷ adds 2 9 ∷ looks ∷ takes ∷ frees 1 ∷ adds 1 7 ∷ takes ∷ []

calls-AllLegal : AllLegal [] [] calls
unfolding take_job
calls-AllLegal = (
  (ground arith, refl),
  ((ground arith, refl), (tt, (tt, ((refl, refl), ((ground arith, refl), (tt, tt)))))),
)

perform_all-init_example :
    (q : PrioQueue) × (g : Store) × (ys : Cells) × (perform_all PrioQueue.init calls (λ _. none)
      ≡ done ((replay [] calls).0, q) g)
    × IsQueue g q ys
    × (jobs ys ≡ (replay [] calls).1)
    × IsSorted (jobs ys)
perform_all-init_example = perform_all-init (λ _. none) calls calls-AllLegal

calls-replay : replay [] calls ≡ (none ∷ none ∷ some 5 ∷ some 5 ∷ none ∷ none ∷ some 7 ∷ [], 9 ∷ [])
unfolding insert_job take_job
calls-replay = refl

-- Of two equal requests the later one is served first.
equal_requests : insert_job 5 (5 ∷ 9 ∷ []) ≡ 5 ∷ 5 ∷ 9 ∷ []
unfolding insert_job
equal_requests = refl
