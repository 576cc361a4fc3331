-- ===== src/PrioQueue/Enqueue.antt =====
-- prio_queue_enqueue on the store: the list that the nodes stand for gains one cell.
use pronto.Prelude.{
  ℕ, zero, suc, ◌+◌, ◌<◌, ◌≡◌, refl, ◌≢◌, false, some, [], ◌∷◌, ◌++◌, arith, length, ap, ==_false,
  ◌∙◌,
}
use pronto.PrioQueue.Memory.{Ptr, null, Job, node, Store, write, done, load, check}
use pronto.PrioQueue.Memory.Laws.{load-done, set_next-done, write_self, write-ne}
use pronto.PrioQueue.Cells.{
  Cells, first, last_or, has, Chain, below, above, insert, SameOutside, below-append-above,
  Chain-suffix, Chain-last, last_or-append, length-append as length-insert,
}
use pronto.PrioQueue.View.{IsQueue}
use pronto.PrioQueue.Relink.{link-insert}
use pronto.PrioQueue.{PrioQueue, walk, link, enqueue}

walk-split :
    (h : Store) (k r : ℕ) (prev : Ptr) (xs : Cells)
    → Chain h xs
    → length xs < k
    → walk k r prev (first xs) h ≡ done (last_or prev (below r xs), first (above r xs)) h
unfolding walk
walk-split h zero r prev xs c lt = absurd (omega arith)
walk-split h (suc k) r prev [] c lt = refl
walk-split h (suc k) r prev ((p, j) ∷ xs) (ne, at, out, c) lt =
    ground (arith, load-done h p j (first xs) ne at, walk-split h k r p xs c (omega arith))

-- What a run of `enqueue` on `q` leaves behind, for a queue that stood for `xs`.
abbrev pub Enqueued : Store → Ptr → Job → PrioQueue → Cells → Type 0
Enqueued h el v q xs =
    (q' : PrioQueue) × (g : Store) × (enqueue q el h ≡ done q' g)
    × IsQueue g q' (insert el v xs)
    × SameOutside el xs h g

module _ (h : Store) (el : Ptr) (v : Job) (old : Ptr) (ne : el ≢ null)
    (at : h el ≡ some (node v old)) where
  -- The runs of the parts, put together.
  enqueue-steps :
      (q : PrioQueue) (n : ℕ) {prev curr : Ptr} {q' : PrioQueue} {w : Job} {g : Store}
      → q.size ≡ suc n
      → load el h ≡ done (node v old) h
      → walk (q.size + 1) v.request null q.head h ≡ done (prev, curr) h
      → link q el prev curr h ≡ done q' g
      → load q'.tail g ≡ done (node w null) g
      → enqueue q el h ≡ done (record q' { size = q'.size + 1 }) g
  unfolding enqueue check
  enqueue-steps q n se loaded walked linked last =
      rw (==_false {a = q.size} {b = 0} (omega arith), loaded, walked, linked, last)

  enqueue-empty : (q : PrioQueue) → IsQueue h q [] → Enqueued h el v q []
  unfolding enqueue
  enqueue-empty q is = (
    record { size = q.size + 1; head = el; tail = el },
    write h el (node v null),
    rw (is.size_eq, set_next-done h el null v old ne at),
    record {
      size_eq = omega (arith, is.size_eq);
      head_eq = refl;
      tail_eq = refl;
      chain = (ne, write_self h el v null, refl, tt);
    },
    λ a e m. write-ne h el v null a e,
  )

  enqueue-cons :
      (q : PrioQueue) (x : Ptr × Job) (xs : Cells)
      → IsQueue h q (x ∷ xs)
      → has el (x ∷ xs) ≡ false
      → Enqueued h el v q (x ∷ xs)
  unfolding enqueue
  enqueue-cons q (p, j) xs is fresh =
      let r = v.request in
      let bs = below r ((p, j) ∷ xs) in
      let ys = above r ((p, j) ∷ xs) in
      let whole : bs ++ ys ≡ (p, j) ∷ xs = below-append-above r ((p, j) ∷ xs) in
      let (q', g, run, se, he, te, chain, same) =
        link-insert h q el v old ne at bs ys (rw whole is.chain) (rw whole fresh)
          (rw whole (λ e. cc)) (rw whole is.head_eq) (rw whole is.tail_eq) in
      let tail : q'.tail ≡ last_or el ys = te ∙ last_or-append null bs (el, v) ys in
      let (w, qe, atl) = Chain-last g el v ys (Chain-suffix g bs ((el, v) ∷ ys) chain) in
      (
        record q' { size = q'.size + 1 },
        g,
        enqueue-steps q (length xs) {w = w} is.size_eq (load-done h el v old ne at)
            (rw (is.head_eq, is.size_eq)
              (walk-split h (suc (length xs) + 1) r null ((p, j) ∷ xs) is.chain (omega arith)))
            run (rw tail (load-done g (last_or el ys) w null qe atl)),
        record {
          size_eq = omega (arith, se, is.size_eq, length-insert bs (el, v) ys, ap length whole);
          head_eq = he;
          tail_eq = te;
          chain = chain;
        },
        λ a e m. same a e (rw whole m),
      )

  -- On a queue that stands for the cells `xs`, with a node `el` that is not among them,
  -- prio_queue_enqueue ends with no fault, no failed assertion and no endless loop. It leaves a
  -- queue that stands for `xs` with `el` put in front of the first job that is not smaller, and
  -- writes to no other node.
  pub enqueue-insert :
      (q : PrioQueue) (xs : Cells) → IsQueue h q xs → has el xs ≡ false → Enqueued h el v q xs
  enqueue-insert q [] is fresh = enqueue-empty q is
  enqueue-insert q (x ∷ xs) is fresh = enqueue-cons q x xs is fresh
