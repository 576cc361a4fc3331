-- ===== src/PrioQueue/Order.antt =====
-- The queue at the level of its requests: a list in ascending order.
use pronto.Prelude.{
  ℕ, suc, ◌+◌, ◌≤◌, ◌≡◌, refl, Option, none, some, List, [], ◌∷◌, arith, ap, ltb, ltb→le,
  if◌then◌else◌, length, total, All, inl, inr, Bool-cases,
}
use pronto.PrioQueue.Memory.{Ptr, Job}
use pronto.PrioQueue.Cells.{Cells, jobs, insert}

-- Where prio_queue_enqueue puts a request: in front of the first that is not smaller.
unfoldable pub insert_job : ℕ → List ℕ → List ℕ
insert_job r [] = r ∷ []
insert_job r (x ∷ xs) = if ltb x r then x ∷ insert_job r xs else r ∷ x ∷ xs

-- prio_queue_fifo_dequeue: the first request, if there is one, and the rest.
unfoldable pub take_job : List ℕ → Option ℕ × List ℕ
take_job [] = (none, [])
take_job (x ∷ xs) = (some x, xs)

-- Ascending order: each request is at most all that follow it.
abbrev pub IsSorted : List ℕ → Type 0
IsSorted [] = Unit
IsSorted (x ∷ xs) = All (λ y. x ≤ y) xs × IsSorted xs

-- The requests along the cells after prio_queue_enqueue's insertion are those of the list after
-- `insert_job`.
pub jobs-insert :
    (el : Ptr) (v : Job) (xs : Cells) → jobs (insert el v xs) ≡ insert_job v.request (jobs xs)
unfolding insert_job
jobs-insert el v [] = refl
jobs-insert el v ((p, j) ∷ xs) = elim (Bool-cases (ltb j.request v.request)) [
  | inl e ↦ rw e (ap (λ l. j.request ∷ l) (jobs-insert el v xs))
  | inr e ↦ rw e refl
]

pub length-insert_job : (r : ℕ) (xs : List ℕ) → length (insert_job r xs) ≡ suc (length xs)
unfolding insert_job
length-insert_job r [] = refl
length-insert_job r (x ∷ xs) = ground (arith, length-insert_job r xs)

-- Every weight of the list gains the weight of the request: nothing is lost or added.
pub total-insert_job :
    (w : ℕ → ℕ) (r : ℕ) (xs : List ℕ) → total w (insert_job r xs) ≡ w r + total w xs
unfolding insert_job
total-insert_job w r [] = refl
total-insert_job w r (x ∷ xs) = ground (arith, total-insert_job w r xs)

pub All-insert_job {κ} :
    (P : ℕ → Type κ) (r : ℕ) (xs : List ℕ) → P r → All P xs → All P (insert_job r xs)
unfolding insert_job
All-insert_job P r [] p a = (p, tt)
All-insert_job P r (x ∷ xs) p a = elim (Bool-cases (ltb x r)) [
  | inl e ↦ rw e (a.0, All-insert_job P r xs p a.1)
  | inr e ↦ rw e (p, a)
]

All-le : (a b : ℕ) (xs : List ℕ) → a ≤ b → All (λ y. b ≤ y) xs → All (λ y. a ≤ y) xs
All-le a b [] h l = tt
All-le a b (x ∷ xs) h l = (omega (arith, l.0), All-le a b xs h l.1)

-- A queue in ascending order stays in ascending order.
pub insert_job-IsSorted : (r : ℕ) (xs : List ℕ) → IsSorted xs → IsSorted (insert_job r xs)
unfolding insert_job
insert_job-IsSorted r [] s = (tt, tt)
insert_job-IsSorted r (x ∷ xs) s = elim (Bool-cases (ltb x r)) [
  | inl e ↦ rw e (All-insert_job (λ y. x ≤ y) r xs (ground arith) s.0, insert_job-IsSorted r xs s.1)
  | inr e ↦ rw e ((ltb→le x r e, All-le r x xs (ltb→le x r e) s.0), s)
]
