-- ===== src/PrioQueue/Replay.antt =====
-- Any calls on a queue give what they give on the ascending list of its requests.
use pronto.Prelude.{
  ℕ, ◌≡◌, refl, ◌≢◌, true, false, Option, none, some, List, [], ◌∷◌, arith, ◌==◌, if◌then◌else◌,
  ==_false, ==_iff, Bool-cases, inl, inr, ◌∙◌, ◌||◌,
}
use pronto.PrioQueue.Memory.{Ptr, null, job, node, Store, write, done}
use pronto.PrioQueue.Memory.Laws.{load-done, write_self, write-ne}
use pronto.PrioQueue.Cells.{Cells, first, has, jobs, insert, Chain-frame, ne-mem}
use pronto.PrioQueue.Held.{without, AreHeld, Chain-AreHeld, has-insert, has-without}
use pronto.PrioQueue.View.{IsQueue}
use pronto.PrioQueue.Enqueue.{enqueue-insert}
use pronto.PrioQueue.Dequeue.{fifo_dequeue-first, init-IsQueue}
use pronto.PrioQueue.Order.{insert_job, take_job, IsSorted, jobs-insert, insert_job-IsSorted}
use pronto.PrioQueue.{PrioQueue, init}
use pronto.PrioQueue.Calls.{
  new_node, add, take, look, free_node, Call, adds, takes, looks, frees, perform, perform_all,
}

abbrev pub peek : List ℕ → Option ℕ
peek [] = none
peek (x ∷ xs) = some x

-- The same call on the requests alone.
abbrev pub expected : List ℕ → Call → Option ℕ × List ℕ
expected xs (adds el value) = (none, insert_job value xs)
expected xs takes = take_job xs
expected xs looks = (peek xs, xs)
expected xs (frees el) = (none, xs)

abbrev pub replay : List ℕ → List Call → List (Option ℕ) × List ℕ
replay xs [] = ([], xs)
replay xs (c ∷ cs) = let (v, ys) = expected xs c in let (vs, zs) = replay ys cs in (v ∷ vs, zs)

-- The nodes in the queue after a call.
abbrev pub cells_after : Cells → Call → Cells
cells_after xs (adds el value) = insert el (job value) xs
cells_after [] takes = []
cells_after (x ∷ xs) takes = xs
cells_after xs looks = xs
cells_after xs (frees el) = xs

-- The nodes that are taken and not freed, after a call on a queue of the nodes `xs`.
abbrev pub held_after : Cells → Cells → Call → Cells
held_after xs held (adds el value) = held
held_after [] held takes = held
held_after (x ∷ xs) held takes = x ∷ held
held_after xs held looks = held
held_after xs held (frees el) = without el held

-- What calloc promises of the address of a new node, and that only a node is freed that was taken and
-- not freed since, and is not queued.
abbrev pub IsLegal : Cells → Cells → Call → Type 0
IsLegal xs held (adds el value) = (el ≢ null) × (has el xs ≡ false)
IsLegal xs held takes = Unit
IsLegal xs held looks = Unit
IsLegal xs held (frees el) = (has el held ≡ true) × (has el xs ≡ false)

abbrev pub AllLegal : Cells → Cells → List Call → Type 0
AllLegal xs held [] = Unit
AllLegal xs held (c ∷ cs) =
    IsLegal xs held c × AllLegal (cells_after xs c) (held_after xs held c) cs

IsQueue-frame :
    (h g : Store) (q : PrioQueue) (xs : Cells)
    → IsQueue h q xs
    → ((a : Ptr) → has a xs ≡ true → g a ≡ h a)
    → IsQueue g q xs
IsQueue-frame h g q xs is same = record {
  size_eq = is.size_eq;
  head_eq = is.head_eq;
  tail_eq = is.tail_eq;
  chain = Chain-frame g xs is.chain same;
}

-- A write at an address outside the queue leaves it alone.
ne-address : (a el : Ptr) (xs : Cells) → has el xs ≡ false → has a xs ≡ true → (a == el) ≡ false
ne-address a el xs out m = ground (arith, ne-mem el a xs out m)

-- What a call does to a queue that stands for `xs`, by what it does to the requests.
abbrev Performed : Store → PrioQueue → Cells → Cells → Call → Type 0
Performed h q xs held c =
    (q' : PrioQueue) × (g : Store) × (perform q c h ≡ done ((expected (jobs xs) c).0, q') g)
    × IsQueue g q' (cells_after xs c)
    × AreHeld g (held_after xs held c)
    × (jobs (cells_after xs c) ≡ (expected (jobs xs) c).1)

module _ (h : Store) (q : PrioQueue) (held : Cells) (holds : AreHeld h held) where
  adds-Performed :
      (xs : Cells) (el : Ptr) (value : ℕ)
      → IsQueue h q xs
      → IsLegal xs held (adds el value)
      → Performed h q xs held (adds el value)
  unfolding add new_node
  adds-Performed xs el value is (ne, out) =
      let there = write h el (node (job value) null) in
      let still =
        IsQueue-frame h there q xs is
          (λ a m. write-ne h el (job value) null a (ne-address a el xs out m)) in
      let (q', g, ran, is', same) =
        enqueue-insert there el (job value) null ne (write_self h el (job value) null) q xs still
          out in
      let queued = Chain-AreHeld g (insert el (job value) xs) is'.chain in
      (
        q',
        g,
        rw (==_false ne, ran) refl,
        is',
        λ a m. elim (Bool-cases ((a == el) || has a xs)) [
          | inl inside ↦ queued a (has-insert a el (job value) xs inside)
          | inr outside ↦
              let (n, at) = holds a m in
              let away : (a == el) ≡ false = ground arith in
              (n, same a away (ground arith) ∙ write-ne h el (job value) null a away ∙ at)
        ],
        jobs-insert el (job value) xs,
      )

  takes-Performed : (xs : Cells) → IsQueue h q xs → Performed h q xs held takes
  unfolding take take_job
  takes-Performed [] is = (q, h, rw (fifo_dequeue-first h q [] is) refl, is, holds, refl)
  takes-Performed ((p, j) ∷ xs) is =
      let (q', ran, is') = fifo_dequeue-first h q ((p, j) ∷ xs) is in
      let (ne, at, out, chain) = is.chain in
      (
        q',
        h,
        rw (ran, ==_false ne, load-done h p j (first xs) ne at) refl,
        is',
        λ a m. elim (Bool-cases (a == p)) [
          | inl e ↦ (node j (first xs), rw ((==_iff a p).0 e) at)
          | inr e ↦ holds a (rw (e) at m)
        ],
        refl,
      )

  looks-Performed : (xs : Cells) → IsQueue h q xs → Performed h q xs held looks
  unfolding look
  looks-Performed [] is = (q, h, rw (is.head_eq) refl, is, holds, refl)
  looks-Performed ((p, j) ∷ xs) is =
      let (ne, at, out, chain) = is.chain in
      (q, h, rw (is.head_eq, ==_false ne, load-done h p j (first xs) ne at) refl, is, holds, refl)

  frees-Performed :
      (xs : Cells) (el : Ptr)
      → IsQueue h q xs
      → IsLegal xs held (frees el)
      → Performed h q xs held (frees el)
  unfolding free_node
  frees-Performed xs el is (mine, out) = elim (Bool-cases (el == null)) [
    | inl e ↦ (q, h, rw (e) refl, is, λ a m. holds a (has-without a el held m).0, refl)
    | inr e ↦
        let (n, at) = holds el mine in
        (
          q,
          λ a. if a == el then none else h a,
          rw (e, at) refl,
          IsQueue-frame h _ q xs is (λ a m. rw (ne-address a el xs out m) refl),
          λ a m.
              let (there, ne) = has-without a el held m in
              let (k, in_store) = holds a there in (k, rw (ne) in_store),
          refl,
        )
  ]

  perform-Performed :
      (xs : Cells) (c : Call) → IsQueue h q xs → IsLegal xs held c → Performed h q xs held c
  perform-Performed xs (adds el value) is legal = adds-Performed xs el value is legal
  perform-Performed xs takes is legal = takes-Performed xs is
  perform-Performed xs looks is legal = looks-Performed xs is
  perform-Performed xs (frees el) is legal = frees-Performed xs el is legal

perform_all-replay :
    (h : Store) (q : PrioQueue) (xs held : Cells) (cs : List Call)
    → IsQueue h q xs
    → AreHeld h held
    → AllLegal xs held cs
    → (q' : PrioQueue) × (g : Store) × (ys : Cells) × (perform_all q cs h
        ≡ done ((replay (jobs xs) cs).0, q') g)
      × IsQueue g q' ys
      × (jobs ys ≡ (replay (jobs xs) cs).1)
unfolding perform_all
perform_all-replay h q xs held [] is holds legal = (q, h, xs, refl, is, refl)
perform_all-replay h q xs held (c ∷ cs) is holds (legal, others) =
    let (q1, h1, one, is1, holds1, same) = perform-Performed h q held holds xs c is legal in
    let (q', g, ys, rest, is', jobs') =
      perform_all-replay h1 q1 (cells_after xs c) (held_after xs held c) cs is1 holds1 others in
    (q', g, ys, rw (one, rest, same) refl, is', rw (same) at jobs')

expected-IsSorted : (xs : List ℕ) (c : Call) → IsSorted xs → IsSorted (expected xs c).1
unfolding take_job
expected-IsSorted xs (adds el value) s = insert_job-IsSorted value xs s
expected-IsSorted [] takes s = s
expected-IsSorted (x ∷ xs) takes s = s.1
expected-IsSorted xs looks s = s
expected-IsSorted xs (frees el) s = s

replay-IsSorted : (xs : List ℕ) (cs : List Call) → IsSorted xs → IsSorted (replay xs cs).1
replay-IsSorted xs [] s = s
replay-IsSorted xs (c ∷ cs) s = replay-IsSorted (expected xs c).1 cs (expected-IsSorted xs c s)

-- Any calls on a new queue, with addresses as calloc gives them, and freed only what was taken and not
-- freed since and is not queued, run to their end on any store, with no fault, no failed assertion and no endless loop. They give what
-- the same calls give on a list of requests, where adding inserts in front of the first request that is
-- not smaller and taking removes the head; and the queue they leave stands for that list, which is in
-- ascending order.
pub perform_all-init :
    (h : Store) (cs : List Call)
    → AllLegal [] [] cs
    → (q : PrioQueue) × (g : Store) × (ys : Cells) × (perform_all init cs h
        ≡ done ((replay [] cs).0, q) g)
      × IsQueue g q ys
      × (jobs ys ≡ (replay [] cs).1)
      × IsSorted (jobs ys)
perform_all-init h cs legal =
    let (q, g, ys, ran, is, same) =
      perform_all-replay h init [] [] cs (init-IsQueue h) (λ a m. cc) legal in
    (q, g, ys, ran, is, same, rw (same) (replay-IsSorted [] cs tt))
