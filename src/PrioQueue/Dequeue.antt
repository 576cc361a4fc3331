-- ===== src/PrioQueue/Dequeue.antt =====
-- prio_queue_fifo_dequeue on the store: the list that the nodes stand for loses its first cell.
use pronto.Prelude.{◌-◌, ◌≡◌, refl, false, [], ◌∷◌, arith, ==_false, ◌==◌, if◌then◌else◌}
use pronto.PrioQueue.Memory.{Ptr, null, Job, node, Store, done, load}
use pronto.PrioQueue.Memory.Laws.{load-done}
use pronto.PrioQueue.Cells.{Cells, first, last_or, Chain}
use pronto.PrioQueue.View.{IsQueue}
use pronto.PrioQueue.{PrioQueue, init, fifo_dequeue}

-- A new queue stands for no cells.
pub init-IsQueue : (h : Store) → IsQueue h init []
unfolding init
init-IsQueue h = record { size_eq = refl; head_eq = refl; tail_eq = refl; chain = tt }

-- What a run on a queue that stands for `xs` gives: NULL and the same queue, or the first node and
-- a queue that stands for the rest. The store is untouched.
abbrev pub Dequeued : Store → PrioQueue → Cells → Type 0
Dequeued h q [] = fifo_dequeue q h ≡ done (null, q) h
Dequeued h q ((p, j) ∷ xs) =
    (q' : PrioQueue) × (fifo_dequeue q h ≡ done (p, q') h) × IsQueue h q' xs

tail-rest :
    (h : Store) (p : Ptr) (j : Job) (xs : Cells)
    → Chain h ((p, j) ∷ xs)
    → (if first xs == null then null else last_or null ((p, j) ∷ xs)) ≡ last_or null xs
tail-rest h p j [] c = refl
tail-rest h p j ((q, k) ∷ xs) (ne, at, out, c) = rw (==_false c.0)

fifo_dequeue-empty : (h : Store) (q : PrioQueue) → q.size ≡ 0 → fifo_dequeue q h ≡ done (null, q) h
unfolding fifo_dequeue
fifo_dequeue-empty h q e = ground arith

fifo_dequeue-load :
    (h : Store) (q : PrioQueue) (j : Job) (p : Ptr)
    → (q.size == 0) ≡ false
    → load q.head h ≡ done (node j p) h
    → fifo_dequeue q h
      ≡ done
          (
            q.head,
            record { size = q.size - 1; head = p; tail = if p == null then null else q.tail },
          )
          h
unfolding fifo_dequeue
fifo_dequeue-load h q j p e loaded = rw (e, loaded)

-- On a queue that stands for `xs`, prio_queue_fifo_dequeue ends with no fault. It returns NULL and
-- leaves everything alone if `xs` is empty, and else returns the first node and leaves a queue that
-- stands for the rest, with `tail` at NULL if that was the last node.
pub fifo_dequeue-first : (h : Store) (q : PrioQueue) (xs : Cells) → IsQueue h q xs → Dequeued h q xs
fifo_dequeue-first h q [] is = fifo_dequeue-empty h q is.size_eq
fifo_dequeue-first h q ((p, j) ∷ xs) is = (
  record { size = q.size - 1; head = first xs; tail = if first xs == null then null else q.tail },
  rw (← is.head_eq) (
      fifo_dequeue-load h q j (first xs) (==_false {a = q.size} {b = 0} (omega (arith, is.size_eq)))
        (rw is.head_eq (load-done h p j (first xs) is.chain.0 is.chain.1))),
  record {
    size_eq = omega (arith, is.size_eq);
    head_eq = refl;
    tail_eq = rw is.tail_eq (tail-rest h p j xs is.chain);
    chain = is.chain.3;
  },
)
