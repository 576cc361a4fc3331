-- ===== src/Threads/Stored.antt =====
-- Where the jobs are: any weight of the requests in the queues and in the hands of the threads is kept
-- by every move.
use pronto.Prelude.{
  ℕ, zero, suc, ◌+◌, ◌≡◌, refl, Bool, Option, none, some, List, [], ◌∷◌, arith, get_elem?, set,
  total, total-set, Option-cases, inl, inr, ap, sym, some-injective, ◌∙◌,
}
use pronto.PrioQueue.Order.{insert_job, take_job, total-insert_job}
use pronto.Cluster.{
  Worker, Pronto, add_waiting_job, reserve_capacity, decrease_current_capacity, add_worker_job,
  update_worker, reserved, freed, free_capacity, increase_current_capacity,
}
use pronto.Threads.{
  go, SchedulerPc, waiting, awake, took, parking, chosen, booked, queued, scheduler_took,
  scheduler_move, ReschedulerPc, sleeping, locking, looking, picked, booking, posting,
  rescheduler_look, rescheduler_fit, rescheduler_move, DispatcherPc, idle, notified, sending,
  dispatcher_wait, dispatcher_took, dispatcher_on, dispatcher_move, post_worker,
}
use pronto.Threads.Update.{then_go-inv}
use pronto.Threads.Jobs.{dispatcher_move-on}

-- What update_worker writes.
pub update_worker-set :
    (p : Pronto) (b : ℕ) (f : Worker → Worker) {q : Pronto}
    → update_worker p b f ≡ some q
    → (x : Worker) × (get_elem? p.workers_instances b ≡ some x)
      × (q ≡ record p { workers_instances = set p.workers_instances b (f x) })
unfolding update_worker
update_worker-set p b f run = elim (Option-cases (get_elem? p.workers_instances b)) [
  | inl e ↦ cc (rw (e, update_worker) at run)
  | inr (x, e) ↦ (x, e, sym (some-injective _ _ (rw (e, update_worker) at run)))
]

module _ (w : ℕ → ℕ) where
  abbrev pub jobs_of : Worker → ℕ
  jobs_of x = total w x.scheduler_jobs

  abbrev pub stored : Pronto → ℕ
  stored p = total w p.job_queue + total w p.waiting_queue + total jobs_of p.workers_instances

  abbrev pub carried : SchedulerPc → ℕ
  carried (took v) = w v
  carried (parking v) = w v
  carried (chosen v b) = w v
  carried (booked v b) = w v
  carried _ = 0

  abbrev pub re_carried : ReschedulerPc → ℕ
  re_carried (picked v b) = w v
  re_carried (booking v b) = w v
  re_carried _ = 0

  abbrev pub di_carried : DispatcherPc → ℕ
  di_carried (sending v) = w v
  di_carried _ = 0

  -- A write to a worker changes the weight of its queue alone.
  update_worker-stored :
      (p : Pronto) (b : ℕ) (f : Worker → Worker) {q : Pronto} (n m : ℕ)
      → update_worker p b f ≡ some q
      → ((x : Worker)
          → get_elem? p.workers_instances b ≡ some x
          → jobs_of (f x) + m ≡ jobs_of x + n)
      → stored q + m ≡ stored p + n
  update_worker-stored p b f n m run change =
      let (x, at, e) = update_worker-set p b f run in
      rw (e) (omega (arith, total-set jobs_of p.workers_instances b (f x) x at, change x at))

  reserve-stored :
      (p : Pronto) (b v : ℕ) {q : Pronto} → reserve_capacity p b v ≡ some q → stored q ≡ stored p
  unfolding reserve_capacity decrease_current_capacity
  reserve-stored p b v run =
      let e =
        update_worker-stored (decrease_current_capacity p v) b (reserved v) 0 0 run
          (λ x at. refl) in
      omega (arith, e)

  add_worker_job-stored :
      (p : Pronto) (b v : ℕ) {q : Pronto}
      → add_worker_job p b v ≡ some q
      → stored q ≡ stored p + w v
  unfolding add_worker_job
  add_worker_job-stored p b v run =
      let e =
        update_worker-stored p b (λ x. record x { scheduler_jobs = insert_job v x.scheduler_jobs })
          (w v) 0 run (λ x at. omega (arith, total-insert_job w v x.scheduler_jobs)) in
      omega (arith, e)

  post_worker-stored :
      (p : Pronto) (b : ℕ) {q : Pronto} → post_worker p b ≡ some q → stored q ≡ stored p
  unfolding post_worker
  post_worker-stored p b run =
      let e =
        update_worker-stored p b (λ x. record x { notify = x.notify + 1 }) 0 0 run (λ x at. refl) in
      omega (arith, e)

  pub free-stored :
      (p : Pronto) (b v : ℕ) {q : Pronto} → free_capacity p b v ≡ some q → stored q ≡ stored p
  unfolding free_capacity increase_current_capacity
  free-stored p b v run =
      let e =
        update_worker-stored (increase_current_capacity p v) b (freed v) 0 0 run (λ x at. refl) in
      omega (arith, e)

  took-stored :
      (p : Pronto) (l : List ℕ) {q : Pronto} {pc' : SchedulerPc}
      → l ≡ p.job_queue
      → scheduler_took p (take_job l) ≡ go q pc'
      → stored q + carried pc' ≡ stored p
  unfolding take_job
  took-stored p [] e run = ground (arith, ap (total w) e)
  took-stored p (v ∷ l) e run = ground (arith, ap (total w) e)

  pub scheduler_move-stored :
      (p : Pronto) (held : Bool) (pc : SchedulerPc) {q : Pronto} {pc' : SchedulerPc}
      → scheduler_move p held pc ≡ go q pc'
      → stored q + carried pc' ≡ stored p + carried pc
  unfolding scheduler_move add_waiting_job
  scheduler_move-stored p held waiting run = ground arith
  scheduler_move-stored p held awake run =
      let e = took-stored p p.job_queue refl run in omega (arith, e)
  scheduler_move-stored p held (took v) run = ground arith
  scheduler_move-stored p held (parking v) run =
      ground (arith, total-insert_job w v p.waiting_queue)
  scheduler_move-stored p held (chosen v b) run =
      let (r, e) = then_go-inv _ run in let s = reserve-stored p b v r in ground arith
  scheduler_move-stored p held (booked v b) run =
      let (r, e) = then_go-inv _ run in let s = add_worker_job-stored p b v r in ground arith
  scheduler_move-stored p held (queued v b) run =
      let (r, e) = then_go-inv _ run in let s = post_worker-stored p b r in ground arith

  fit-stored :
      (p : Pronto) (rest : List ℕ) (v : ℕ) (fit : Option ℕ) {q : Pronto} {pc' : ReschedulerPc}
      → p.waiting_queue ≡ v ∷ rest
      → rescheduler_fit p rest v fit ≡ go q pc'
      → stored q + re_carried pc' ≡ stored p
  fit-stored p rest v none e run = ground arith
  fit-stored p rest v (some b) e run = ground (arith, ap (total w) e)

  look-stored :
      (p : Pronto) (l : List ℕ) {q : Pronto} {pc' : ReschedulerPc}
      → p.waiting_queue ≡ l
      → rescheduler_look p l ≡ go q pc'
      → stored q + re_carried pc' ≡ stored p
  unfolding rescheduler_look
  look-stored p [] e run = ground arith
  look-stored p (v ∷ l) e run = fit-stored p l v _ e run

  pub rescheduler_move-stored :
      (p : Pronto) (pc : ReschedulerPc) {q : Pronto} {pc' : ReschedulerPc}
      → rescheduler_move p pc ≡ go q pc'
      → stored q + re_carried pc' ≡ stored p + re_carried pc
  unfolding rescheduler_move
  rescheduler_move-stored p sleeping run = ground arith
  rescheduler_move-stored p locking run = ground arith
  rescheduler_move-stored p looking run =
      let e = look-stored p p.waiting_queue refl run in omega (arith, e)
  rescheduler_move-stored p (picked v b) run =
      let (r, e) = then_go-inv _ run in let s = reserve-stored p b v r in ground arith
  rescheduler_move-stored p (booking v b) run =
      let (r, e) = then_go-inv _ run in let s = add_worker_job-stored p b v r in ground arith
  rescheduler_move-stored p (posting v b) run =
      let (r, e) = then_go-inv _ run in let s = post_worker-stored p b r in ground arith

  wait-stored :
      (p : Pronto) (i n : ℕ) {q : Pronto} {pc' : DispatcherPc}
      → dispatcher_wait p i n ≡ go q pc'
      → stored q + di_carried pc' ≡ stored p
  wait-stored p i zero run = cc
  wait-stored p i (suc n) run =
      let (r, e) = then_go-inv _ run in
      let s = update_worker-stored p i (λ x. record x { notify = n }) 0 0 r (λ x at. refl) in
      ground arith

  di_took-stored :
      (p : Pronto) (i : ℕ) (l : List ℕ) (x : Worker) {q : Pronto} {pc' : DispatcherPc}
      → get_elem? p.workers_instances i ≡ some x
      → x.scheduler_jobs ≡ l
      → dispatcher_took p i (take_job l) ≡ go q pc'
      → stored q + di_carried pc' ≡ stored p
  unfolding take_job
  di_took-stored p i [] x at e run = cc
  di_took-stored p i (v ∷ l) x at e run =
      let (r, f) = then_go-inv _ run in
      let s =
        update_worker-stored p i (λ y. record y { scheduler_jobs = l }) 0 (w v) r
          λ y at'.
            let same : x ≡ y = some-injective _ _ (sym at ∙ at') in
            omega (arith, ap jobs_of same, ap (total w) e) in
      ground arith

  -- What a dispatcher has sent is in its hands no more.
  pub dispatcher_move-stored :
      (p : Pronto) (i : ℕ) (pc : DispatcherPc) {q : Pronto} {pc' : DispatcherPc}
      → dispatcher_move p i pc ≡ go q pc'
      → stored q + di_carried pc' ≡ stored p
  unfolding dispatcher_on
  dispatcher_move-stored p i idle run =
      let (x, at, on) = dispatcher_move-on p i idle run in
      let e = wait-stored p i x.notify on in omega (arith, e)
  dispatcher_move-stored p i notified run =
      let (x, at, on) = dispatcher_move-on p i notified run in
      let e = di_took-stored p i x.scheduler_jobs x at refl on in omega (arith, e)
  dispatcher_move-stored p i (sending v) run =
      let (x, at, on) = dispatcher_move-on p i (sending v) run in ground arith
