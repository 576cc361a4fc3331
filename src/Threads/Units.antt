-- ===== src/Threads/Units.antt =====
-- The units of each worker: what is left, what its jobs hold, and what threads have reserved for it.
pub mod Sends
use pronto.Prelude.{
  ℕ, zero, suc, ◌+◌, ◌^◌, ◌<◌, ◌≡◌, refl, Bool, Option, none, some, List, [], ◌∷◌, arith, ◌==◌,
  if◌then◌else◌, get_elem?, total, Bool-cases, ap, ◌∙◌, inl, inr,
}
use pronto.Word.{u64}
use pronto.PrioQueue.Order.{take_job, total-insert_job}
use pronto.Cluster.{Worker, Pronto, add_waiting_job, reserved, free_capacity}
use pronto.Threads.Update.{
  Update, reserve-Update, add_worker_job-Update, post_worker-Update, update_worker-Update,
  free-Update, with_job, with_post, then_go-inv,
}
use pronto.Threads.Posts.{same_at}
use pronto.Threads.Jobs.{dispatcher_move-on}
use pronto.Threads.Stored.{carried, re_carried, di_carried}
use pronto.Threads.Balance.{oversize}
use pronto.Threads.{
  go, SchedulerPc, waiting, awake, took, parking, chosen, booked, queued, scheduler_move,
  scheduler_took, ReschedulerPc, sleeping, locking, looking, picked, booking, posting,
  rescheduler_move, rescheduler_look, rescheduler_fit, DispatcherPc, idle, notified, sending,
  dispatcher_wait, dispatcher_took, dispatcher_on, dispatcher_move,
}

-- A request's own size, as a weight.
abbrev pub size : ℕ → ℕ
size v = v

abbrev pub units : Worker → ℕ
units w = w.current_resources + total size w.scheduler_jobs

-- What a thread has reserved from worker `i` for a job that is not yet in the worker's queue.
abbrev pub owes_units : ℕ → SchedulerPc → ℕ
owes_units i (booked v b) = if b == i then v else 0
owes_units i _ = 0

abbrev pub reowes_units : ℕ → ReschedulerPc → ℕ
reowes_units i (booking v b) = if b == i then v else 0
reowes_units i _ = 0

-- The units of worker `i` and of the thread, together, are the same after the move, modulo 2 ^ 64.
abbrev pub KeepsUnits : {A : Type 0} → (ℕ → A → ℕ) → Pronto → A → Pronto → A → Type 0
KeepsUnits owes p pc q pc' =
    (i : ℕ) (w' : Worker)
    → get_elem? q.workers_instances i ≡ some w'
    → (w : Worker) × (get_elem? p.workers_instances i ≡ some w)
      × (u64 (units w' + owes i pc') ≡ u64 (units w + owes i pc))

reserved-units : (v : ℕ) (w : Worker) → v < 2 ^ 32 → u64 (units (reserved v w) + v) ≡ u64 (units w)
reserved-units v w h = omega (arith, h)

module _ (p : Pronto) (b v : ℕ) {q : Pronto} where
  reserve-units :
      Update p q b (reserved v)
      → v < 2 ^ 32
      → (i : ℕ) (w' : Worker) → get_elem? q.workers_instances i ≡ some w'
      → (w : Worker) × (get_elem? p.workers_instances i ≡ some w)
        × (u64 (units w' + (if b == i then v else 0)) ≡ u64 (units w + 0))
  reserve-units u small i w' h =
      let (w, at, e) = u.worker i w' h in
      (
        w,
        at,
        elim (Bool-cases (b == i)) [
          | inl here ↦ rw (here) (
              ap (λ y. u64 (units y + v)) (rw (here) at e) ∙ reserved-units v w small ∙ omega arith)
          | inr away ↦ rw (away) (ap (λ y. u64 (units y + 0)) (rw (away) at e))
        ],
      )

  job-units :
      Update p q b (with_job v)
      → (i : ℕ) (w' : Worker) → get_elem? q.workers_instances i ≡ some w'
      → (w : Worker) × (get_elem? p.workers_instances i ≡ some w)
        × (u64 (units w' + 0) ≡ u64 (units w + (if b == i then v else 0)))
  job-units u i w' h =
      let (w, at, e) = u.worker i w' h in
      (
        w,
        at,
        elim (Bool-cases (b == i)) [
          | inl here ↦ rw (here) (
              ap (λ y. u64 (units y + 0)) (rw (here) at e)
              ∙ omega (arith, total-insert_job size v w.scheduler_jobs))
          | inr away ↦ rw (away) (ap (λ y. u64 (units y + 0)) (rw (away) at e))
        ],
      )

  -- A change that keeps what is left and what the jobs hold.
  pub same-units :
      (f : Worker → Worker)
      → ((w : Worker) → units (f w) ≡ units w)
      → Update p q b f
      → (i : ℕ) (w' : Worker) → get_elem? q.workers_instances i ≡ some w'
      → (w : Worker) × (get_elem? p.workers_instances i ≡ some w)
        × (u64 (units w' + 0) ≡ u64 (units w + 0))
  same-units f same u i w' h =
      let (w, at, e) = u.worker i w' h in
      (
        w,
        at,
        elim (Bool-cases (b == i)) [
          | inl here ↦ ap (λ y. u64 (units y + 0)) (rw (here) at e) ∙ ap (λ n. u64 (n + 0)) (same w)
          | inr away ↦ ap (λ y. u64 (units y + 0)) (rw (away) at e)
        ],
      )

took-workers :
    (p : Pronto) (t : Option ℕ × List ℕ) {q : Pronto} {pc' : SchedulerPc}
    → scheduler_took p t ≡ go q pc'
    → KeepsUnits owes_units p awake q pc'
took-workers p (none, l) run i w' h = (w', ground arith, ground arith)
took-workers p (some v, l) run i w' h = (w', ground arith, ground arith)

pub scheduler_move-KeepsUnits :
    (p : Pronto) (held : Bool) (pc : SchedulerPc) {q : Pronto} {pc' : SchedulerPc}
    → carried oversize pc ≡ 0
    → scheduler_move p held pc ≡ go q pc'
    → KeepsUnits owes_units p pc q pc'
unfolding scheduler_move add_waiting_job
scheduler_move-KeepsUnits p held waiting fits run i w' h = (w', ground arith, ground arith)
scheduler_move-KeepsUnits p held awake fits run i w' h =
    took-workers p (take_job p.job_queue) run i w' h
scheduler_move-KeepsUnits p held (took v) fits run i w' h = (w', ground arith, ground arith)
scheduler_move-KeepsUnits p held (parking v) fits run i w' h = (w', ground arith, ground arith)
scheduler_move-KeepsUnits p held (chosen v b) fits run i w' h =
    let (r, e) = then_go-inv _ run in
    rw (← e) (reserve-units p b v (reserve-Update p b v r) (ground (arith, fits)) i w' h)
scheduler_move-KeepsUnits p held (booked v b) fits run i w' h =
    let (r, e) = then_go-inv _ run in
    rw (← e) (job-units p b v (add_worker_job-Update p b v r) i w' h)
scheduler_move-KeepsUnits p held (queued v b) fits run i w' h =
    let (r, e) = then_go-inv _ run in
    rw (← e) (same-units p b v with_post (λ w. refl) (post_worker-Update p b r) i w' h)

look-units :
    (p : Pronto) (l : List ℕ) {q : Pronto} {pc' : ReschedulerPc}
    → rescheduler_look p l ≡ go q pc'
    → KeepsUnits reowes_units p looking q pc'
unfolding rescheduler_look
look-units p [] run i w' h = (w', ground arith, ground arith)
look-units p (v ∷ l) run i w' h = found p v l _ run i w' h
  where
    found :
        (p : Pronto) (v : ℕ) (l : List ℕ) (fit : Option ℕ) {q : Pronto} {pc' : ReschedulerPc}
        → rescheduler_fit p l v fit ≡ go q pc'
        → KeepsUnits reowes_units p looking q pc'
    found p v l none run i w' h = (w', ground arith, ground arith)
    found p v l (some b) run i w' h = (w', ground arith, ground arith)

pub rescheduler_move-KeepsUnits :
    (p : Pronto) (pc : ReschedulerPc) {q : Pronto} {pc' : ReschedulerPc}
    → re_carried oversize pc ≡ 0
    → rescheduler_move p pc ≡ go q pc'
    → KeepsUnits reowes_units p pc q pc'
unfolding rescheduler_move
rescheduler_move-KeepsUnits p sleeping fits run i w' h = (w', ground arith, ground arith)
rescheduler_move-KeepsUnits p locking fits run i w' h = (w', ground arith, ground arith)
rescheduler_move-KeepsUnits p looking fits run i w' h = look-units p p.waiting_queue run i w' h
rescheduler_move-KeepsUnits p (picked v b) fits run i w' h =
    let (r, e) = then_go-inv _ run in
    rw (← e) (reserve-units p b v (reserve-Update p b v r) (ground (arith, fits)) i w' h)
rescheduler_move-KeepsUnits p (booking v b) fits run i w' h =
    let (r, e) = then_go-inv _ run in
    rw (← e) (job-units p b v (add_worker_job-Update p b v r) i w' h)
rescheduler_move-KeepsUnits p (posting v b) fits run i w' h =
    let (r, e) = then_go-inv _ run in
    rw (← e) (same-units p b v with_post (λ w. refl) (post_worker-Update p b r) i w' h)
