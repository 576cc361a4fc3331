-- ===== src/Threads/Posts.antt =====
-- Each move against the semaphores: what is posted matches what is queued.
use pronto.Prelude.{
  ℕ, zero, suc, ◌+◌, ◌≡◌, refl, Bool, true, some, List, [], ◌∷◌, arith, ◌==◌, if◌then◌else◌,
  get_elem?, length, Option-cases, Bool-cases, ==_iff, ap, sym, ◌∙◌, inl, inr, some-injective,
}
use pronto.PrioQueue.Order.{take_job, length-insert_job}
use pronto.Cluster.{Worker, Pronto, add_waiting_job}
use pronto.Threads.Update.{
  Update, reserve-Update, add_worker_job-Update, post_worker-Update, update_worker-Update,
  then_go-inv,
}
use pronto.Threads.{
  go, SchedulerPc, waiting, awake, took, parking, chosen, booked, queued, scheduler_move,
  ReschedulerPc, sleeping, locking, looking, picked, booking, posting, rescheduler_move,
  DispatcherPc, idle, notified, sending, dispatcher_wait, dispatcher_took, dispatcher_on,
  dispatcher_move,
}

-- A scheduler that took a count from `notify` and not yet a job.
abbrev pub owes_job : SchedulerPc → ℕ
owes_job awake = 1
owes_job _ = 0

-- A thread that queued a job at worker `i` and has not yet posted it.
abbrev pub owes_post : ℕ → SchedulerPc → ℕ
owes_post i (queued v b) = if b == i then 1 else 0
owes_post i _ = 0

abbrev pub reowes_post : ℕ → ReschedulerPc → ℕ
reowes_post i (posting v b) = if b == i then 1 else 0
reowes_post i _ = 0

-- A dispatcher that took a count and not yet a job.
abbrev pub owes_take : DispatcherPc → ℕ
owes_take notified = 1
owes_take _ = 0

-- `pc` to `pc'` with `p` to `q` keeps the count of each worker's semaphore: `owes` is what the
-- thread still has to post.
abbrev pub KeepsPosts : {A : Type 0} → (ℕ → A → ℕ) → Pronto → A → Pronto → A → Type 0
KeepsPosts owes p pc q pc' =
    (i : ℕ) (w' : Worker)
    → get_elem? q.workers_instances i ≡ some w'
    → (w : Worker) × (get_elem? p.workers_instances i ≡ some w)
      × (w'.notify + owes i pc' + length w.scheduler_jobs
          ≡ w.notify + owes i pc + length w'.scheduler_jobs)

module _ {p q : Pronto} {b : ℕ} {f : Worker → Worker} (u : Update p q b f) where
  -- The worker's counts change by what `f` does, if it is this worker.
  changed :
      (i : ℕ) (w' : Worker)
      → get_elem? q.workers_instances i ≡ some w'
      → (w : Worker) × (get_elem? p.workers_instances i ≡ some w)
        × (w'.notify ≡ (if b == i then (f w).notify else w.notify))
        × (length w'.scheduler_jobs
            ≡ (if b == i then length (f w).scheduler_jobs else length w.scheduler_jobs))
  changed i w' h = let (w, at, e) = u.worker i w' h in (w, at, ground arith, ground arith)

pub scheduler_move-KeepsPosts :
    (p : Pronto) (held : Bool) (pc : SchedulerPc) {q : Pronto} {pc' : SchedulerPc}
    → scheduler_move p held pc ≡ go q pc'
    → KeepsPosts owes_post p pc q pc'
unfolding scheduler_move add_waiting_job
scheduler_move-KeepsPosts p held waiting run i w' h = (w', ground arith, ground arith)
scheduler_move-KeepsPosts p held awake run i w' h = (w', ground arith, ground arith)
scheduler_move-KeepsPosts p held (took v) run i w' h = (w', ground arith, ground arith)
scheduler_move-KeepsPosts p held (parking v) run i w' h = (w', ground arith, ground arith)
scheduler_move-KeepsPosts p held (chosen v b) run i w' h =
    let (r, e) = then_go-inv _ run in
    let (w, at, n, l) = changed (reserve-Update p b v r) i w' h in (w, at, rw (← e) (ground arith))
scheduler_move-KeepsPosts p held (booked v b) run i w' h =
    let (r, e) = then_go-inv _ run in
    let (w, at, n, l) = changed (add_worker_job-Update p b v r) i w' h in
    (w, at, rw (← e) (ground (arith, length-insert_job v w.scheduler_jobs)))
scheduler_move-KeepsPosts p held (queued v b) run i w' h =
    let (r, e) = then_go-inv _ run in
    let (w, at, n, l) = changed (post_worker-Update p b r) i w' h in
    (w, at, rw (← e) (ground arith))

pub rescheduler_move-KeepsPosts :
    (p : Pronto) (pc : ReschedulerPc) {q : Pronto} {pc' : ReschedulerPc}
    → rescheduler_move p pc ≡ go q pc'
    → KeepsPosts reowes_post p pc q pc'
unfolding rescheduler_move
rescheduler_move-KeepsPosts p sleeping run i w' h = (w', ground arith, ground arith)
rescheduler_move-KeepsPosts p locking run i w' h = (w', ground arith, ground arith)
rescheduler_move-KeepsPosts p looking run i w' h = (w', ground arith, ground arith)
rescheduler_move-KeepsPosts p (picked v b) run i w' h =
    let (r, e) = then_go-inv _ run in
    let (w, at, n, l) = changed (reserve-Update p b v r) i w' h in (w, at, rw (← e) (ground arith))
rescheduler_move-KeepsPosts p (booking v b) run i w' h =
    let (r, e) = then_go-inv _ run in
    let (w, at, n, l) = changed (add_worker_job-Update p b v r) i w' h in
    (w, at, rw (← e) (ground (arith, length-insert_job v w.scheduler_jobs)))
rescheduler_move-KeepsPosts p (posting v b) run i w' h =
    let (r, e) = then_go-inv _ run in
    let (w, at, n, l) = changed (post_worker-Update p b r) i w' h in
    (w, at, rw (← e) (ground arith))

-- The worker at `i` is the one at `k`.
pub same_at :
    (ws : List Worker) (k i : ℕ) (x w : Worker)
    → get_elem? ws k ≡ some x
    → get_elem? ws i ≡ some w
    → (k == i) ≡ true
    → x ≡ w
same_at ws k i x w at at' e =
    some-injective _ _ (sym at ∙ ap (get_elem? ws) ((==_iff k i).0 e) ∙ at')

abbrev pub owes_take_at : ℕ → ℕ → DispatcherPc → ℕ
owes_take_at k i c = if k == i then owes_take c else 0

module _ (p : Pronto) (k : ℕ) (x : Worker) (at : get_elem? p.workers_instances k ≡ some x) where
  dispatcher_wait-KeepsPosts :
      (n : ℕ) {q : Pronto} {pc' : DispatcherPc}
      → x.notify ≡ n
      → dispatcher_wait p k n ≡ go q pc'
      → KeepsPosts (owes_take_at k) p idle q pc'
  dispatcher_wait-KeepsPosts zero count run i w' h = cc
  dispatcher_wait-KeepsPosts (suc n) count run i w' h =
      let (r, e) = then_go-inv _ run in
      let (w, at', c, l) = changed (update_worker-Update p k _ r) i w' h in
      (
        w,
        at',
        elim (Bool-cases (k == i)) [
          | inl here ↦
              let same = same_at p.workers_instances k i x w at at' here in
              ground (arith, ap (λ (y : Worker). y.notify) same, ap owes_take e)
          | inr away ↦ ground arith
        ],
      )

  dispatcher_took-KeepsPosts :
      (l : List ℕ) {q : Pronto} {pc' : DispatcherPc}
      → x.scheduler_jobs ≡ l
      → dispatcher_took p k (take_job l) ≡ go q pc'
      → KeepsPosts (owes_take_at k) p notified q pc'
  unfolding take_job
  dispatcher_took-KeepsPosts [] jobs run i w' h = cc
  dispatcher_took-KeepsPosts (v ∷ l) jobs run i w' h =
      let (r, e) = then_go-inv _ run in
      let (w, at', c, len) = changed (update_worker-Update p k _ r) i w' h in
      (
        w,
        at',
        elim (Bool-cases (k == i)) [
          | inl here ↦
              let same = same_at p.workers_instances k i x w at at' here in
              ground (
                arith,
                ap (λ (y : Worker). length y.scheduler_jobs) same,
                ap length jobs,
                ap owes_take e,
              )
          | inr away ↦ ground arith
        ],
      )

dispatcher_on-KeepsPosts :
    (p : Pronto) (k : ℕ) (pc : DispatcherPc) (x : Worker) {q : Pronto} {pc' : DispatcherPc}
    → get_elem? p.workers_instances k ≡ some x
    → dispatcher_on p k pc x ≡ go q pc'
    → KeepsPosts (owes_take_at k) p pc q pc'
unfolding dispatcher_on
dispatcher_on-KeepsPosts p k idle x at run = dispatcher_wait-KeepsPosts p k x at x.notify refl run
dispatcher_on-KeepsPosts p k notified x at run =
    dispatcher_took-KeepsPosts p k x at x.scheduler_jobs refl run
dispatcher_on-KeepsPosts p k (sending v) x at run = λ i w' h. (w', ground arith, ground arith)

-- The same of the dispatcher of worker `k`: for that worker, what it took and has not dequeued.
pub dispatcher_move-KeepsPosts :
    (p : Pronto) (k : ℕ) (pc : DispatcherPc) {q : Pronto} {pc' : DispatcherPc}
    → dispatcher_move p k pc ≡ go q pc'
    → KeepsPosts (owes_take_at k) p pc q pc'
unfolding dispatcher_move
dispatcher_move-KeepsPosts p k pc {q} {pc'} run =
    elim (Option-cases (get_elem? p.workers_instances k)) [
      | inl e ↦ cc (rw (e, dispatcher_move) at run)
      | inr (w, e) ↦ dispatcher_on-KeepsPosts p k pc w e (rw (e, dispatcher_move) at run)
    ]
