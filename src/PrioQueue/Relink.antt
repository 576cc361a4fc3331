-- ===== src/PrioQueue/Relink.antt =====
-- The pointer writes of prio_queue_enqueue: each branch splices one node into the list.
use mathlib.Core.List.{append-nil}
use pronto.Prelude.{
  ◌≡◌, refl, ◌≢◌, false, some, [], ◌∷◌, ◌++◌, ◌∙◌, sym, ap, arith, ◌==◌, ==_false, ==_sym,
}
use pronto.PrioQueue.Memory.{Ptr, null, Job, node, Store, write, done}
use pronto.PrioQueue.Memory.Laws.{load-done, set_next-done, write_self, write-ne, check_refl}
use pronto.PrioQueue.{PrioQueue, link}
use pronto.PrioQueue.Cells.{
  Cells, first, last_or, has, Chain, SameOutside, Chain-frame, has-append, last_or-mem,
  last_or-append, ne-mem, last-node, last-mem, Chain-ne_null,
}

module _ (h g : Store) (el : Ptr) (v : Job) (ys : Cells) (ne : el ≢ null)
    (at : g el ≡ some (node v (first ys))) where
  Chain-relink :
      (p : Ptr) (j : Job) (xs : Cells)
      → Chain h (((p, j) ∷ xs) ++ ys)
      → has el (((p, j) ∷ xs) ++ ys) ≡ false
      → ((w : Job) (q : Ptr)
          → h (last_or p xs) ≡ some (node w q)
          → g (last_or p xs) ≡ some (node w el))
      → ((a : Ptr) → (a == el) ≡ false → (a == last_or p xs) ≡ false → g a ≡ h a)
      → Chain g (((p, j) ∷ xs) ++ (el, v) ∷ ys)
  Chain-relink p j [] (nep, atp, out, c) fresh turned same = (
    nep,
    turned j (first ys) atp,
    ground arith,
    (
      ne,
      at,
      ground arith,
      Chain-frame {h = h} g ys c (λ a m. same a (ground arith) (ground arith)),
    ),
  )
  Chain-relink p j ((q, k) ∷ xs) (nep, atp, out, c) fresh turned same = (
    nep,
    same p (ground arith) (ground (arith, last_or-mem q (q, k) xs, has-append p ((q, k) ∷ xs) ys))
        ∙ atp,
    ground (arith, has-append p ((q, k) ∷ xs) ys, has-append p ((q, k) ∷ xs) ((el, v) ∷ ys)),
    Chain-relink q k xs c (ground arith) turned same,
  )

module _ (h : Store) (q : PrioQueue) (el : Ptr) (v : Job) (old : Ptr) (ne : el ≢ null)
    (at : h el ≡ some (node v old)) where
  -- Nothing lies below: the new node goes on top.
  link-top :
      (ys : Cells)
      → Chain h ys
      → has el ys ≡ false
      → (g : Store) × (link q el null (first ys) h ≡ done (record q { head = el }) g)
        × Chain g ((el, v) ∷ ys)
        × SameOutside el ys h g
  unfolding link
  link-top ys c fresh =
      let g = write h el (node v (first ys)) in
      let at' = write_self h el v (first ys) in
      (
        g,
        rw (set_next-done h el (first ys) v old ne at, load-done g el v (first ys) ne at')
            (rw (load-done g el v (first ys) ne at', check_refl)),
        (
          ne,
          at',
          fresh,
          Chain-frame {h = h} g ys c (λ a m. write-ne h el v (first ys) a (ground arith)),
        ),
        λ a e m. write-ne h el v (first ys) a e,
      )

  module _ (p : Ptr) (j : Job) (xs ys : Cells) (c : Chain h (((p, j) ∷ xs) ++ ys))
      (fresh : has el (((p, j) ∷ xs) ++ ys) ≡ false) where
    -- The store after both writes, in either order.
    Relinked : Store → Type 0
    Relinked g = Chain g (((p, j) ∷ xs) ++ (el, v) ∷ ys) × SameOutside el (((p, j) ∷ xs) ++ ys) h g

    out : (el == last_or p xs) ≡ false
    out = ne-mem el _ (((p, j) ∷ xs) ++ ys) fresh (last-mem p j xs ys)

    written-Relinked :
        (g : Store)
        → g el ≡ some (node v (first ys))
        → ((w : Job) (q : Ptr)
            → h (last_or p xs) ≡ some (node w q)
            → g (last_or p xs) ≡ some (node w el))
        → ((a : Ptr) → (a == el) ≡ false → (a == last_or p xs) ≡ false → g a ≡ h a)
        → Relinked g
    unfolding Relinked
    written-Relinked g at' turned same = (
      Chain-relink h g el v ys ne at' p j xs c fresh turned same,
      λ a e m. same a e (ne-mem a _ (((p, j) ∷ xs) ++ ys) m (last-mem p j xs ys)),
    )

    -- `el` first, then the node before it.
    bottom_first :
        (w : Job) (q : Ptr)
        → h (last_or p xs) ≡ some (node w q)
        → Relinked (write (write h el (node v (first ys))) (last_or p xs) (node w el))
    bottom_first w q atl =
        written-Relinked _ (write-ne _ (last_or p xs) w el el out ∙ write_self h el v (first ys))
          (λ w' q' e.
            ground (arith, write_self (write h el (node v (first ys))) (last_or p xs) w el))
          (λ a e m. write-ne _ _ w el a m ∙ write-ne h el v _ a e)

    -- The node before `el` first.
    before_first :
        (w : Job) (q : Ptr)
        → h (last_or p xs) ≡ some (node w q)
        → Relinked (write (write h (last_or p xs) (node w el)) el (node v (first ys)))
    before_first w q atl =
        written-Relinked _ (write_self _ el v (first ys))
          (λ w' q' e.
            write-ne _ el v (first ys) (last_or p xs) (==_sym el _ out)
            ∙ ground (arith, write_self h (last_or p xs) w el))
          (λ a e m. write-ne _ el v _ a e ∙ write-ne h _ w el a m)

    link-middle :
        first ys ≢ null
        → (g : Store) × (link q el (last_or p xs) (first ys) h ≡ done q g) × Relinked g
    unfolding link
    link-middle nc =
        let (w, qe, atl) = last-node h p j xs ys c in
        let g₁ = write h (last_or p xs) (node w el) in
        (
          write g₁ el (node v (first ys)),
          rw (
            ==_false qe,
            ==_false nc,
            set_next-done h (last_or p xs) el w (first ys) qe atl,
            set_next-done g₁ el (first ys) v old ne (write-ne h _ w el el out ∙ at),
          ),
          before_first w (first ys) atl,
        )

  link-bottom :
      (p : Ptr) (j : Job) (xs : Cells) (c : Chain h (((p, j) ∷ xs) ++ []))
      (fresh : has el (((p, j) ∷ xs) ++ []) ≡ false)
      → q.tail ≡ last_or p xs
      → (g : Store) × (link q el (last_or p xs) null h ≡ done (record q { tail = el }) g)
        × Relinked p j xs [] c fresh g
  unfolding link
  link-bottom p j xs c fresh te =
      let (w, qe, atl) = last-node h p j xs [] c in
      let g₁ = write h el (node v null) in
      let at₁ = write-ne h el v null (last_or p xs) (==_sym el _ (out p j xs [] c fresh)) ∙ atl in
      let at₂ =
        write-ne g₁ (last_or p xs) w el el (out p j xs [] c fresh) ∙ write_self h el v null in
      (
        write g₁ (last_or p xs) (node w el),
        rw
            (
              ==_false qe,
              te,
              set_next-done h el null v old ne at,
              set_next-done g₁ (last_or p xs) el w null qe at₁,
              load-done _ el v null ne at₂,
            )
            (rw (load-done _ el v null ne at₂, check_refl)),
        bottom_first p j xs [] c fresh w null atl,
      )

  -- The three branches together, over the cells below and those above the new one.
  pub link-insert :
      (bs ys : Cells)
      → Chain h (bs ++ ys)
      → has el (bs ++ ys) ≡ false
      → bs ++ ys ≢ []
      → q.head ≡ first (bs ++ ys)
      → q.tail ≡ last_or null (bs ++ ys)
      → (q' : PrioQueue) × (g : Store) × (link q el (last_or null bs) (first ys) h ≡ done q' g)
        × (q'.size ≡ q.size)
        × (q'.head ≡ first (bs ++ (el, v) ∷ ys))
        × (q'.tail ≡ last_or null (bs ++ (el, v) ∷ ys))
        × Chain g (bs ++ (el, v) ∷ ys)
        × SameOutside el (bs ++ ys) h g
  unfolding Relinked
  link-insert [] [] c fresh some_cell he te = absurd (some_cell refl)
  link-insert [] (y ∷ ys) c fresh some_cell he te =
      let (g, run, chain, same) = link-top (y ∷ ys) c fresh in
      (record q { head = el }, g, run, refl, refl, te, chain, same)
  link-insert ((p, j) ∷ xs) [] c fresh some_cell he te =
      let (g, run, (chain, same)) =
        link-bottom p j xs c fresh (te ∙ ap (last_or p) (append-nil xs)) in
      (record q { tail = el }, g, run, refl, he, sym (last_or-append p xs (el, v) []), chain, same)
  link-insert ((p, j) ∷ xs) ((s, k) ∷ ys) c fresh some_cell he te =
      let (g, run, (chain, same)) =
        link-middle p j xs ((s, k) ∷ ys) c fresh (Chain-ne_null h p j xs s k ys c) in
      (
        q,
        g,
        run,
        refl,
        he,
        te ∙ last_or-append p xs (s, k) ys ∙ sym (last_or-append p xs (el, v) ((s, k) ∷ ys)),
        chain,
        same,
      )
