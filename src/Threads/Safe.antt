-- ===== src/Threads/Safe.antt =====
-- No move of a thread touches memory that is not there: the worker that it was given exists, and a
-- dispatcher that was notified finds a job.
use pronto.Prelude.{
  ℕ, zero, suc, ◌≤◌, ◌<◌, ◌≡◌, ◌≢◌, refl, Bool, Option, none, some, List, [], ◌∷◌, arith, length,
  get_elem?-lt, Option-cases, inl, inr,
}
use pronto.PrioQueue.Order.{take_job}
use pronto.Cluster.{
  Worker, Pronto, best_current_fit, add_waiting_job, reserve_capacity, add_worker_job,
  update_worker,
}
use pronto.Cluster.Fit.{best_current_fit-lt}
use pronto.Threads.{
  go, fault, then_go, post_worker, SchedulerPc, waiting, awake, took, parking, chosen, booked,
  queued, scheduler_fit, scheduler_move, ReschedulerPc, sleeping, locking, looking, picked, booking,
  posting, rescheduler_look, rescheduler_move, DispatcherPc, idle, notified, sending,
  dispatcher_wait, dispatcher_took, dispatcher_on,
}
use pronto.Threads.Update.{reserve-Update, add_worker_job-Update, post_worker-Update, then_go-inv}
use pronto.Threads.Posts.{owes_take}

-- The worker that the thread is about to use is one of `n`.
abbrev pub InRange : ℕ → SchedulerPc → Type 0
InRange n (chosen v b) = b < n
InRange n (booked v b) = b < n
InRange n (queued v b) = b < n
InRange n _ = Unit

abbrev pub ReInRange : ℕ → ReschedulerPc → Type 0
ReInRange n (picked v b) = b < n
ReInRange n (booking v b) = b < n
ReInRange n (posting v b) = b < n
ReInRange n _ = Unit

update_worker-some :
    (p : Pronto) (b : ℕ) (f : Worker → Worker)
    → b < length p.workers_instances
    → update_worker p b f ≢ none
unfolding update_worker
update_worker-some p b f lt run =
    let (w, at) = get_elem?-lt p.workers_instances b lt in cc (rw (at, update_worker) at run)

then_go-ne-fault : {A : Type 0} (o : Option Pronto) (pc : A) → o ≢ none → then_go o pc ≢ fault
then_go-ne-fault none pc h run = h refl
then_go-ne-fault (some p) pc h run = cc

module _ (p : Pronto) (b v : ℕ) (lt : b < length p.workers_instances) where
  reserve-some : reserve_capacity p b v ≢ none
  unfolding reserve_capacity
  reserve-some = update_worker-some _ b _ lt

  add_worker_job-some : add_worker_job p b v ≢ none
  unfolding add_worker_job
  add_worker_job-some = update_worker-some p b _ lt

  post_worker-some : post_worker p b ≢ none
  unfolding post_worker
  post_worker-some = update_worker-some p b _ lt

pub scheduler_move-ne-fault :
    (p : Pronto) (held : Bool) (pc : SchedulerPc)
    → InRange (length p.workers_instances) pc
    → scheduler_move p held pc ≢ fault
unfolding scheduler_move
scheduler_move-ne-fault p held waiting h = λ run. ground arith
scheduler_move-ne-fault p held awake h = λ run. ground arith
scheduler_move-ne-fault p held (took v) h = λ run. ground arith
scheduler_move-ne-fault p held (parking v) h = λ run. ground arith
scheduler_move-ne-fault p held (chosen v b) h = then_go-ne-fault _ _ (reserve-some p b v h)
scheduler_move-ne-fault p held (booked v b) h = then_go-ne-fault _ _ (add_worker_job-some p b v h)
scheduler_move-ne-fault p held (queued v b) h = then_go-ne-fault _ _ (post_worker-some p b v h)

pub rescheduler_move-ne-fault :
    (p : Pronto) (pc : ReschedulerPc)
    → ReInRange (length p.workers_instances) pc
    → rescheduler_move p pc ≢ fault
unfolding rescheduler_move
rescheduler_move-ne-fault p sleeping h = λ run. ground arith
rescheduler_move-ne-fault p locking h = λ run. ground arith
rescheduler_move-ne-fault p looking h = λ run. ground arith
rescheduler_move-ne-fault p (picked v b) h = then_go-ne-fault _ _ (reserve-some p b v h)
rescheduler_move-ne-fault p (booking v b) h = then_go-ne-fault _ _ (add_worker_job-some p b v h)
rescheduler_move-ne-fault p (posting v b) h = then_go-ne-fault _ _ (post_worker-some p b v h)

scheduler_fit-InRange :
    (p : Pronto) (v n : ℕ) (o : Option ℕ) {q : Pronto} {pc' : SchedulerPc}
    → ((k : ℕ) → o ≡ some k → k < n)
    → scheduler_fit p v o ≡ go q pc'
    → InRange n pc'
scheduler_fit-InRange p v n none h run = ground arith
scheduler_fit-InRange p v n (some k) h run = ground (arith, h k refl)

-- The array keeps its length, and a worker that the thread chooses is in it.
pub scheduler_move-InRange :
    (p : Pronto) (held : Bool) (pc : SchedulerPc) {q : Pronto} {pc' : SchedulerPc}
    → InRange (length p.workers_instances) pc
    → scheduler_move p held pc ≡ go q pc'
    → InRange (length p.workers_instances) pc'
      × (length q.workers_instances ≡ length p.workers_instances)
unfolding scheduler_move add_waiting_job
scheduler_move-InRange p held waiting h run = (ground arith, ground arith)
scheduler_move-InRange p held awake h run = (ground arith, ground arith)
scheduler_move-InRange p held (took v) h run =
    (scheduler_fit-InRange p v _ (best_current_fit p v) (best_current_fit-lt p v) run, ground arith)
scheduler_move-InRange p held (parking v) h run = (ground arith, ground arith)
scheduler_move-InRange p held (chosen v b) h run =
    let (r, e) = then_go-inv _ run in (ground arith, (reserve-Update p b v r).workers)
scheduler_move-InRange p held (booked v b) h run =
    let (r, e) = then_go-inv _ run in (ground arith, (add_worker_job-Update p b v r).workers)
scheduler_move-InRange p held (queued v b) h run =
    let (r, e) = then_go-inv _ run in (ground arith, (post_worker-Update p b r).workers)

look-InRange :
    (p : Pronto) (l : List ℕ) {q : Pronto} {pc' : ReschedulerPc}
    → rescheduler_look p l ≡ go q pc'
    → ReInRange (length p.workers_instances) pc'
      × (length q.workers_instances ≡ length p.workers_instances)
unfolding rescheduler_look
look-InRange p [] run = (ground arith, ground arith)
look-InRange p (v ∷ l) run = elim (Option-cases (best_current_fit p v)) [
  | inl e ↦ (ground arith, ground arith)
  | inr (k, e) ↦ (ground (arith, best_current_fit-lt p v k e), ground arith)
]

pub rescheduler_move-InRange :
    (p : Pronto) (pc : ReschedulerPc) {q : Pronto} {pc' : ReschedulerPc}
    → ReInRange (length p.workers_instances) pc
    → rescheduler_move p pc ≡ go q pc'
    → ReInRange (length p.workers_instances) pc'
      × (length q.workers_instances ≡ length p.workers_instances)
unfolding rescheduler_move
rescheduler_move-InRange p sleeping h run = (ground arith, ground arith)
rescheduler_move-InRange p locking h run = (ground arith, ground arith)
rescheduler_move-InRange p looking h run = look-InRange p p.waiting_queue run
rescheduler_move-InRange p (picked v b) h run =
    let (r, e) = then_go-inv _ run in (ground arith, (reserve-Update p b v r).workers)
rescheduler_move-InRange p (booking v b) h run =
    let (r, e) = then_go-inv _ run in (ground arith, (add_worker_job-Update p b v r).workers)
rescheduler_move-InRange p (posting v b) h run =
    let (r, e) = then_go-inv _ run in (ground arith, (post_worker-Update p b r).workers)

wait-ne-fault :
    (p : Pronto) (i n : ℕ) → i < length p.workers_instances → dispatcher_wait p i n ≢ fault
wait-ne-fault p i zero lt = λ run. ground arith
wait-ne-fault p i (suc n) lt = then_go-ne-fault _ _ (update_worker-some p i _ lt)

took-ne-fault :
    (p : Pronto) (i : ℕ) (l : List ℕ)
    → i < length p.workers_instances
    → 1 ≤ length l
    → dispatcher_took p i (take_job l) ≢ fault
unfolding take_job
took-ne-fault p i [] lt enough = absurd (omega arith)
took-ne-fault p i (v ∷ l) lt enough = then_go-ne-fault _ _ (update_worker-some p i _ lt)

-- A dispatcher never reads a job from an empty queue, if it was notified of one.
pub dispatcher_on-ne-fault :
    (p : Pronto) (i : ℕ) (pc : DispatcherPc) (w : Worker)
    → i < length p.workers_instances
    → owes_take pc ≤ length w.scheduler_jobs
    → dispatcher_on p i pc w ≢ fault
unfolding dispatcher_on
dispatcher_on-ne-fault p i idle w lt enough = wait-ne-fault p i w.notify lt
dispatcher_on-ne-fault p i notified w lt enough = took-ne-fault p i w.scheduler_jobs lt enough
dispatcher_on-ne-fault p i (sending v) w lt enough = λ run. ground arith
