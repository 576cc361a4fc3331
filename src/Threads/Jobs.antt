-- ===== src/Threads/Jobs.antt =====
-- Each move against the queues: the count of `notify`, and the jobs that the threads carry.
use pronto.Prelude.{
  ℕ, zero, suc, ◌+◌, ◌≤◌, ◌≡◌, refl, Bool, Option, none, some, List, [], ◌∷◌, arith, get_elem?,
  length, Option-cases, inl, inr, ap,
}
use pronto.PrioQueue.Order.{take_job}
use pronto.Cluster.{Worker, Pronto, add_waiting_job}
use pronto.Threads.{
  go, SchedulerPc, waiting, awake, took, parking, chosen, booked, queued, scheduler_took,
  scheduler_move, ReschedulerPc, sleeping, locking, looking, picked, booking, posting,
  rescheduler_move, DispatcherPc, idle, notified, sending, dispatcher_wait, dispatcher_took,
  dispatcher_on, dispatcher_move,
}
use pronto.Threads.Update.{
  reserve-Update, add_worker_job-Update, post_worker-Update, update_worker-Update, then_go-inv,
}
use pronto.Threads.Posts.{owes_job}

took-notify :
    (p : Pronto) (l : List ℕ) {q : Pronto} {pc' : SchedulerPc}
    → l ≡ p.job_queue
    → 1 ≤ length p.job_queue
    → scheduler_took p (take_job l) ≡ go q pc'
    → q.notify + owes_job pc' + length p.job_queue ≡ p.notify + 1 + length q.job_queue
unfolding take_job
took-notify p [] e h run = absurd (omega (arith, ap length e))
took-notify p (v ∷ l) e h run = ground (arith, ap length e)

-- A scheduler keeps the count of `notify`: it takes a job for each count that it took.
pub scheduler_move-notify :
    (p : Pronto) (held : Bool) (pc : SchedulerPc) {q : Pronto} {pc' : SchedulerPc}
    → owes_job pc ≤ length p.job_queue
    → scheduler_move p held pc ≡ go q pc'
    → q.notify + owes_job pc' + length p.job_queue ≡ p.notify + owes_job pc + length q.job_queue
unfolding scheduler_move add_waiting_job
scheduler_move-notify p held waiting h run = ground arith
scheduler_move-notify p held awake h run = took-notify p p.job_queue refl h run
scheduler_move-notify p held (took v) h run = ground arith
scheduler_move-notify p held (parking v) h run = ground arith
scheduler_move-notify p held (chosen v b) h run =
    let (r, e) = then_go-inv _ run in
    let u = reserve-Update p b v r in ground (arith, u.notify, ap length u.job_queue)
scheduler_move-notify p held (booked v b) h run =
    let (r, e) = then_go-inv _ run in
    let u = add_worker_job-Update p b v r in ground (arith, u.notify, ap length u.job_queue)
scheduler_move-notify p held (queued v b) h run =
    let (r, e) = then_go-inv _ run in
    let u = post_worker-Update p b r in ground (arith, u.notify, ap length u.job_queue)

-- The job queue and its semaphore are left alone.
abbrev pub KeepsQueue : Pronto → Pronto → Type 0
KeepsQueue p q = (q.notify ≡ p.notify) × (q.job_queue ≡ p.job_queue)

pub rescheduler_move-KeepsQueue :
    (p : Pronto) (pc : ReschedulerPc) {q : Pronto} {pc' : ReschedulerPc}
    → rescheduler_move p pc ≡ go q pc'
    → KeepsQueue p q
unfolding rescheduler_move
rescheduler_move-KeepsQueue p sleeping run = (ground arith, ground arith)
rescheduler_move-KeepsQueue p locking run = (ground arith, ground arith)
rescheduler_move-KeepsQueue p looking run = (ground arith, ground arith)
rescheduler_move-KeepsQueue p (picked v b) run =
    let (r, e) = then_go-inv _ run in let u = reserve-Update p b v r in (u.notify, u.job_queue)
rescheduler_move-KeepsQueue p (booking v b) run =
    let (r, e) = then_go-inv _ run in
    let u = add_worker_job-Update p b v r in (u.notify, u.job_queue)
rescheduler_move-KeepsQueue p (posting v b) run =
    let (r, e) = then_go-inv _ run in let u = post_worker-Update p b r in (u.notify, u.job_queue)

wait-Update :
    (p : Pronto) (i n : ℕ) {q : Pronto} {pc' : DispatcherPc}
    → dispatcher_wait p i n ≡ go q pc'
    → KeepsQueue p q × (length q.workers_instances ≡ length p.workers_instances)
wait-Update p i zero run = cc
wait-Update p i (suc n) run =
    let (r, e) = then_go-inv _ run in
    let u = update_worker-Update p i _ r in ((u.notify, u.job_queue), u.workers)

took-Update :
    (p : Pronto) (i : ℕ) (t : Option ℕ × List ℕ) {q : Pronto} {pc' : DispatcherPc}
    → dispatcher_took p i t ≡ go q pc'
    → KeepsQueue p q × (length q.workers_instances ≡ length p.workers_instances)
took-Update p i (none, l) run = cc
took-Update p i (some v, l) run =
    let (r, e) = then_go-inv _ run in
    let u = update_worker-Update p i _ r in ((u.notify, u.job_queue), u.workers)

-- What a dispatcher changes is its worker.
pub dispatcher_on-Update :
    (p : Pronto) (i : ℕ) (pc : DispatcherPc) (w : Worker) {q : Pronto} {pc' : DispatcherPc}
    → dispatcher_on p i pc w ≡ go q pc'
    → KeepsQueue p q × (length q.workers_instances ≡ length p.workers_instances)
unfolding dispatcher_on
dispatcher_on-Update p i idle w run = wait-Update p i w.notify run
dispatcher_on-Update p i notified w run = took-Update p i (take_job w.scheduler_jobs) run
dispatcher_on-Update p i (sending v) w run = ((ground arith, ground arith), ground arith)

pub dispatcher_move-on :
    (p : Pronto) (i : ℕ) (pc : DispatcherPc) {q : Pronto} {pc' : DispatcherPc}
    → dispatcher_move p i pc ≡ go q pc'
    → (w : Worker) × (get_elem? p.workers_instances i ≡ some w)
      × (dispatcher_on p i pc w ≡ go q pc')
unfolding dispatcher_move
dispatcher_move-on p i pc moved = elim (Option-cases (get_elem? p.workers_instances i)) [
  | inl e ↦ cc (rw (e, dispatcher_move) at moved)
  | inr (w, e) ↦ (w, e, rw (e, dispatcher_move) at moved)
]

pub dispatcher_move-Update :
    (p : Pronto) (i : ℕ) (pc : DispatcherPc) {q : Pronto} {pc' : DispatcherPc}
    → dispatcher_move p i pc ≡ go q pc'
    → KeepsQueue p q × (length q.workers_instances ≡ length p.workers_instances)
dispatcher_move-Update p i pc moved =
    let (w, at, on) = dispatcher_move-on p i pc moved in dispatcher_on-Update p i pc w on
