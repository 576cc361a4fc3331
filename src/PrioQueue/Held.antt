-- ===== src/PrioQueue/Held.antt =====
-- Nodes that a thread has taken out of a queue of srv/lib/prio_queue.c and not freed.
use pronto.Prelude.{
  ◌≡◌, true, false, some, [], ◌∷◌, arith, ◌==◌, if◌then◌else◌, ==_iff, Bool-cases, inl, inr, ap,
  ◌||◌,
}
use pronto.PrioQueue.Memory.{Ptr, Job, Node, node, Store}
use pronto.PrioQueue.Cells.{
  Cells, first, has, insert, Chain, below, above, below-append-above, has-append,
}

abbrev pub without : Ptr → Cells → Cells
without el [] = []
without el ((p, j) ∷ xs) = if el == p then without el xs else (p, j) ∷ without el xs

-- The nodes that are held are in the store.
abbrev pub AreHeld : Store → Cells → Type 0
AreHeld h held = (a : Ptr) → has a held ≡ true → (n : Node) × (h a ≡ some n)

pub Chain-AreHeld : (h : Store) (xs : Cells) → Chain h xs → AreHeld h xs
Chain-AreHeld h [] c a m = cc
Chain-AreHeld h ((p, j) ∷ xs) (ne, at, out, c) a m = elim (Bool-cases (a == p)) [
  | inl e ↦ (node j (first xs), rw ((==_iff a p).0 e) at)
  | inr e ↦ Chain-AreHeld h xs c a (rw (e) at m)
]

pub has-insert :
    (a el : Ptr) (v : Job) (xs : Cells)
    → ((a == el) || has a xs) ≡ true
    → has a (insert el v xs) ≡ true
has-insert a el v xs m =
    let e = has-append a (below v.request xs) ((el, v) ∷ above v.request xs) in
    let f = has-append a (below v.request xs) (above v.request xs) in
    let g = ap (has a) (below-append-above v.request xs) in ground (arith, e, f, g)

pub has-without :
    (a el : Ptr) (held : Cells)
    → has a (without el held) ≡ true
    → (has a held ≡ true) × ((a == el) ≡ false)
has-without a el [] m = cc
has-without a el ((p, j) ∷ held) m = elim (Bool-cases (el == p)) [
  | inl e ↦ let (there, ne) = has-without a el held (rw (e) at m) in (ground arith, ne)
  | inr e ↦ elim (Bool-cases (a == p)) [
    | inl f ↦ (ground arith, rw ((==_iff a p).0 f) (ground arith))
    | inr f ↦ let (there, ne) = has-without a el held (rw (e, f) at m) in (ground arith, ne)
  ]
]
