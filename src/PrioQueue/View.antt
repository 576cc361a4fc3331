-- ===== src/PrioQueue/View.antt =====
-- A queue of the C code, and the list of cells that it stands for.
use pronto.Prelude.{◌≡◌, length}
use pronto.PrioQueue.Memory.{null, Store}
use pronto.PrioQueue.Cells.{Cells, first, last_or, Chain}
use pronto.PrioQueue.{PrioQueue}

pub record IsQueue (h : Store) (q : PrioQueue) (xs : Cells) : Type 0 where
  pub size_eq : q.size ≡ length xs
  pub head_eq : q.head ≡ first xs
  pub tail_eq : q.tail ≡ last_or null xs
  pub chain : Chain h xs
