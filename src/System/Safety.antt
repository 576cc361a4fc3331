-- ===== src/System/Safety.antt =====
-- What holds in every reachable state of the server.
use native.Mathlib.Decide.{dec_lt}
use pronto.Prelude.{
  ℕ, ◌≤◌, ◌≡◌, ◌↔◌, refl, some, List, [], ◌∷◌, arith, get_elem?, length, total-get_elem?, inl, inr,
  ◌⊎◌, subst,
}
use pronto.Word.{u32}
use pronto.Threads.{awake}
use pronto.Threads.Posts.{owes_job}
use pronto.System.{
  System, Event, scheduler, rescheduler, dispatcher, fail_post, schedule, post_notify, done,
  post_reschedule, next, crash, step, Reach, started, later,
}
use pronto.System.Invariant.{Inv}
use pronto.System.Start.{start-Inv}
use pronto.System.Steps.{After, IsAddressed, step-After, free-none}

-- A request to /done that names a worker outside the array.
abbrev pub IsStray : System → Event → Type 0
IsStray s e = (i : ℕ) × (qty : ℕ) × (e ≡ done i qty) × (length s.pronto.workers_instances ≤ i)

stray-crash :
    (s : System) (i qty : ℕ) → length s.pronto.workers_instances ≤ i → step s (done i qty) ≡ crash
unfolding step
stray-crash s i qty h = rw (free-none s.pronto i (u32 qty) h)

-- Each event is addressed or stray.
IsAddressed-cases : (s : System) (inv : Inv s) (e : Event) → IsAddressed s inv e ⊎ IsStray s e
IsAddressed-cases s inv (done i qty) = elim (dec_lt i (length s.pronto.workers_instances)) [
  | yes lt ↦ inl lt
  | no ge ↦ inr (i, qty, refl, omega arith)
]
IsAddressed-cases s inv (scheduler k) = inl tt
IsAddressed-cases s inv rescheduler = inl tt
IsAddressed-cases s inv (dispatcher k) = inl tt
IsAddressed-cases s inv (fail_post k) = inl tt
IsAddressed-cases s inv (schedule qty) = inl tt
IsAddressed-cases s inv post_notify = inl tt
IsAddressed-cases s inv post_reschedule = inl tt

-- A step that is made keeps the invariant.
pub step-Inv : {s t : System} → Inv s → (e : Event) → step s e ≡ next t → Inv t
step-Inv {s} inv e ran = elim (IsAddressed-cases s inv e) [
  | inl here ↦ subst After ran (step-After s inv e here)
  | inr (i, qty, f, ge) ↦ cc (stray-crash s i qty ge)
]

pub Reach-Inv : {n m : ℕ} {s : System} → Reach n m s → Inv s
Reach-Inv {n} {m} started = start-Inv n m
Reach-Inv (later r e ran) = step-Inv (Reach-Inv r) e ran

-- In every state that the server can reach, under any interleaving of its threads, the next move
-- touches memory that is not there exactly if it is a request to /done whose worker does not exist.
pub crash_iff :
    {n m : ℕ} {s : System} → Reach n m s → (e : Event) → (step s e ≡ crash) ↔ IsStray s e
crash_iff {s} r e =
    let inv = Reach-Inv r in
    (
      λ ran. elim (IsAddressed-cases s inv e) [
        | inl here ↦ absurd (subst After ran (step-After s inv e here))
        | inr stray ↦ stray
      ],
      λ (i, qty, f, ge). rw f (stray-crash s i qty ge),
    )

job_of : (l : List ℕ) → 1 ≤ length l → (v : ℕ) × (rest : List ℕ) × (l ≡ v ∷ rest)
job_of [] h = absurd (omega arith)
job_of (v ∷ l) h = (v, l, refl)

-- A scheduler that was woken finds a job: the branch that prints "bug: scheduler was notified but
-- no job was placed in the queue" is never taken.
pub awake-job :
    {n m : ℕ} {s : System}
    → Reach n m s
    → (k : ℕ) → get_elem? s.schedulers k ≡ some awake
    → (v : ℕ) × (rest : List ℕ) × (s.pronto.job_queue ≡ v ∷ rest)
awake-job {s} r k at =
    job_of s.pronto.job_queue
      (omega (arith, (Reach-Inv r).notified, total-get_elem? owes_job s.schedulers k awake at))
