-- ===== src/Threads/Ordered.antt =====
-- Each move keeps every queue in ascending order.
use pronto.Prelude.{
  ℕ, zero, suc, ◌≡◌, refl, Bool, true, false, Option, none, some, List, [], ◌∷◌, ◌==◌, get_elem?,
  Bool-cases, inl, inr, subst,
}
use pronto.PrioQueue.Order.{IsSorted, take_job, insert_job-IsSorted}
use pronto.Cluster.{
  Worker, Pronto, best_current_fit, add_waiting_job, reserve_capacity, add_worker_job,
  free_capacity,
}
use pronto.Threads.Update.{
  Update, reserve-Update, free-Update, add_worker_job-Update, post_worker-Update,
  update_worker-Update, then_go-inv,
}
use pronto.Threads.Jobs.{dispatcher_move-on}
use pronto.Threads.{
  go, post_worker, scheduler_fit, SchedulerPc, waiting, awake, took, parking, chosen, booked,
  queued, scheduler_move, scheduler_took, ReschedulerPc, sleeping, locking, looking, picked,
  booking, posting, rescheduler_move, rescheduler_look, rescheduler_fit, DispatcherPc, idle,
  notified, sending, dispatcher_wait, dispatcher_took, dispatcher_on, dispatcher_move,
}

-- job_queue, waiting_queue and each worker's scheduler_jobs ascend.
pub record IsOrdered (p : Pronto) : Type 0 where
  pub job_queue : IsSorted p.job_queue
  pub waiting_queue : IsSorted p.waiting_queue
  pub scheduler_jobs :
      (i : ℕ) (w : Worker) → get_elem? p.workers_instances i ≡ some w → IsSorted w.scheduler_jobs

pub add_waiting_job-IsOrdered : (p : Pronto) (v : ℕ) → IsOrdered p → IsOrdered (add_waiting_job p v)
unfolding add_waiting_job
add_waiting_job-IsOrdered p v o = record {
  job_queue = o.job_queue;
  waiting_queue = insert_job-IsSorted v p.waiting_queue o.waiting_queue;
  scheduler_jobs = o.scheduler_jobs;
}

-- A change of one worker that leaves its queue in order.
pub Update-IsOrdered :
    {p q : Pronto} {b : ℕ} {f : Worker → Worker}
    → Update p q b f
    → ((w : Worker) → IsSorted w.scheduler_jobs → IsSorted (f w).scheduler_jobs)
    → IsOrdered p
    → IsOrdered q
Update-IsOrdered {p} {q} {b} {f} u keeps o = record {
  job_queue = rw (u.job_queue) o.job_queue;
  waiting_queue = rw (u.waiting_queue) o.waiting_queue;
  scheduler_jobs = λ i w' h.
      let (w, at, e) = u.worker i w' h in
      let before = o.scheduler_jobs i w at in
      rw (e) (elim (Bool-cases (b == i)) [
        | inl here ↦ rw (here) (keeps w before)
        | inr away ↦ rw (away) before
      ]);
}

take_job-IsSorted : (xs : List ℕ) → IsSorted xs → IsSorted (take_job xs).1
unfolding take_job
take_job-IsSorted [] s = s
take_job-IsSorted (x ∷ xs) s = s.1

went : {A : Type 0} {p q : Pronto} {a b : A} → go p a ≡ go q b → IsOrdered p → IsOrdered q
went {p} {q} h o = subst IsOrdered (same_state h) o
  where
    same_state : {A : Type 0} {p q : Pronto} {a b : A} → go p a ≡ go q b → p ≡ q
    same_state h = cc

pub with_queue :
    {p : Pronto} (l : List ℕ) → IsSorted l → IsOrdered p → IsOrdered (record p { job_queue = l })
with_queue l s o = record {
  job_queue = s;
  waiting_queue = o.waiting_queue;
  scheduler_jobs = o.scheduler_jobs;
}

with_waiting :
    {p : Pronto} (l : List ℕ)
    → IsSorted l
    → IsOrdered p
    → IsOrdered (record p { waiting_queue = l })
with_waiting l s o = record {
  job_queue = o.job_queue;
  waiting_queue = s;
  scheduler_jobs = o.scheduler_jobs;
}

pub with_counts :
    {p : Pronto} (n r : ℕ) → IsOrdered p → IsOrdered (record p { notify = n; reschedule = r })
with_counts n r o = record {
  job_queue = o.job_queue;
  waiting_queue = o.waiting_queue;
  scheduler_jobs = o.scheduler_jobs;
}

took-IsOrdered :
    (p : Pronto) (t : Option ℕ × List ℕ) {q : Pronto} {pc' : SchedulerPc}
    → IsSorted t.1
    → scheduler_took p t ≡ go q pc'
    → IsOrdered p
    → IsOrdered q
took-IsOrdered p (none, l) s run o = went run (with_queue l s o)
took-IsOrdered p (some v, l) s run o = went run (with_queue l s o)

fit-IsOrdered :
    (p : Pronto) (v : ℕ) (fit : Option ℕ) {q : Pronto} {pc' : SchedulerPc}
    → scheduler_fit p v fit ≡ go q pc'
    → IsOrdered p
    → IsOrdered q
fit-IsOrdered p v none run o = went run o
fit-IsOrdered p v (some b) run o = went run o

-- What a thread does to its worker: it reserves, adds a job, or posts.
module _ (p : Pronto) (b v : ℕ) {q : Pronto} (o : IsOrdered p) where
  reserve-IsOrdered : reserve_capacity p b v ≡ some q → IsOrdered q
  reserve-IsOrdered r = Update-IsOrdered (reserve-Update p b v r) (λ w s. s) o

  add_worker_job-IsOrdered : add_worker_job p b v ≡ some q → IsOrdered q
  add_worker_job-IsOrdered r =
      Update-IsOrdered (add_worker_job-Update p b v r)
        (λ w s. insert_job-IsSorted v w.scheduler_jobs s) o

  post_worker-IsOrdered : post_worker p b ≡ some q → IsOrdered q
  post_worker-IsOrdered r = Update-IsOrdered (post_worker-Update p b r) (λ w s. s) o

pub scheduler_move-IsOrdered :
    (p : Pronto) (held : Bool) (pc : SchedulerPc) {q : Pronto} {pc' : SchedulerPc}
    → scheduler_move p held pc ≡ go q pc'
    → IsOrdered p
    → IsOrdered q
unfolding scheduler_move
scheduler_move-IsOrdered p held waiting run o = elim (Bool-cases (p.notify == 0)) [
  | inl e ↦ cc (rw (e, scheduler_move) at run)
  | inr e ↦ went (rw (e, scheduler_move) at run) (with_counts _ _ o)
]
scheduler_move-IsOrdered p held awake run o =
    took-IsOrdered p (take_job p.job_queue) (take_job-IsSorted p.job_queue o.job_queue) run o
scheduler_move-IsOrdered p held (took v) run o = fit-IsOrdered p v (best_current_fit p v) run o
scheduler_move-IsOrdered p true (parking v) run o = cc
scheduler_move-IsOrdered p false (parking v) run o = went run (add_waiting_job-IsOrdered p v o)
scheduler_move-IsOrdered p held (chosen v b) run o = reserve-IsOrdered p b v o (then_go-inv _ run).0
scheduler_move-IsOrdered p held (booked v b) run o =
    add_worker_job-IsOrdered p b v o (then_go-inv _ run).0
scheduler_move-IsOrdered p held (queued v b) run o =
    post_worker-IsOrdered p b v o (then_go-inv _ run).0

look-IsOrdered :
    (p : Pronto) (l : List ℕ) {q : Pronto} {pc' : ReschedulerPc}
    → p.waiting_queue ≡ l
    → rescheduler_look p l ≡ go q pc'
    → IsOrdered p
    → IsOrdered q
unfolding rescheduler_look
look-IsOrdered p [] at run o = went run o
look-IsOrdered p (v ∷ l) at run o =
    found p v l (best_current_fit p v) (subst IsSorted at o.waiting_queue) run o
  where
    found :
        (p : Pronto) (v : ℕ) (l : List ℕ) (fit : Option ℕ) {q : Pronto} {pc' : ReschedulerPc}
        → IsSorted (v ∷ l)
        → rescheduler_fit p l v fit ≡ go q pc'
        → IsOrdered p
        → IsOrdered q
    found p v l none s run o = went run o
    found p v l (some b) s run o = went run (with_waiting l s.1 o)

pub rescheduler_move-IsOrdered :
    (p : Pronto) (pc : ReschedulerPc) {q : Pronto} {pc' : ReschedulerPc}
    → rescheduler_move p pc ≡ go q pc'
    → IsOrdered p
    → IsOrdered q
unfolding rescheduler_move
rescheduler_move-IsOrdered p sleeping run o = elim (Bool-cases (p.reschedule == 0)) [
  | inl e ↦ cc (rw (e, rescheduler_move) at run)
  | inr e ↦ went (rw (e, rescheduler_move) at run) (with_counts _ _ o)
]
rescheduler_move-IsOrdered p locking run o = went run o
rescheduler_move-IsOrdered p looking run o = look-IsOrdered p p.waiting_queue refl run o
rescheduler_move-IsOrdered p (picked v b) run o = reserve-IsOrdered p b v o (then_go-inv _ run).0
rescheduler_move-IsOrdered p (booking v b) run o =
    add_worker_job-IsOrdered p b v o (then_go-inv _ run).0
rescheduler_move-IsOrdered p (posting v b) run o =
    post_worker-IsOrdered p b v o (then_go-inv _ run).0

module _ (p : Pronto) (k : ℕ) (x : Worker) (at : get_elem? p.workers_instances k ≡ some x)
    (o : IsOrdered p) where
  wait-IsOrdered :
      (n : ℕ) {q : Pronto} {pc' : DispatcherPc} → dispatcher_wait p k n ≡ go q pc' → IsOrdered q
  wait-IsOrdered zero run = cc
  wait-IsOrdered (suc n) run =
      let (r, e) = then_go-inv _ run in
      Update-IsOrdered (update_worker-Update p k (λ w. record w { notify = n }) r) (λ w s. s) o

  di_took-IsOrdered :
      (l : List ℕ) {q : Pronto} {pc' : DispatcherPc}
      → x.scheduler_jobs ≡ l
      → dispatcher_took p k (take_job l) ≡ go q pc'
      → IsOrdered q
  unfolding take_job
  di_took-IsOrdered [] jobs run = cc
  di_took-IsOrdered (v ∷ l) jobs run =
      let (r, e) = then_go-inv _ run in
      let mine : IsSorted (v ∷ l) = subst IsSorted jobs (o.scheduler_jobs k x at) in
      Update-IsOrdered (update_worker-Update p k (λ w. record w { scheduler_jobs = l }) r)
        (λ w s. mine.1) o

  on-IsOrdered :
      (pc : DispatcherPc) {q : Pronto} {pc' : DispatcherPc}
      → dispatcher_on p k pc x ≡ go q pc'
      → IsOrdered q
  unfolding dispatcher_on
  on-IsOrdered idle run = wait-IsOrdered x.notify run
  on-IsOrdered notified run = di_took-IsOrdered x.scheduler_jobs refl run
  on-IsOrdered (sending v) run = went run o

pub dispatcher_move-IsOrdered :
    (p : Pronto) (k : ℕ) (pc : DispatcherPc) {q : Pronto} {pc' : DispatcherPc}
    → dispatcher_move p k pc ≡ go q pc'
    → IsOrdered p
    → IsOrdered q
dispatcher_move-IsOrdered p k pc run o =
    let (x, at, on) = dispatcher_move-on p k pc run in on-IsOrdered p k x at o pc on

pub free-IsOrdered :
    (p : Pronto) (b v : ℕ) {q : Pronto} → free_capacity p b v ≡ some q → IsOrdered p → IsOrdered q
free-IsOrdered p b v run o = Update-IsOrdered (free-Update p b v run) (λ w s. s) o
