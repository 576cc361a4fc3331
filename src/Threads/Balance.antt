-- ===== src/Threads/Balance.antt =====
-- Each move keeps the two books of capacity in step.
use pronto.Prelude.{
  ℕ, zero, suc, ◌^◌, ◌<◌, ◌≡◌, refl, Bool, Option, none, some, List, [], ◌∷◌, arith, ltb, total-set,
  if◌then◌else◌,
}
use pronto.PrioQueue.Order.{take_job}
use pronto.Cluster.{
  Worker, Pronto, add_waiting_job, reserve_capacity, decrease_current_capacity, add_worker_job,
  update_worker, reserved, freed, free_capacity, increase_current_capacity,
}
use pronto.Cluster.Capacity.{IsBalanced, resources, after_reserve-IsBalanced, after_free-IsBalanced}
use pronto.Threads.{
  go, SchedulerPc, waiting, awake, took, parking, chosen, booked, queued, scheduler_took,
  scheduler_move, ReschedulerPc, sleeping, locking, looking, picked, booking, posting,
  rescheduler_look, rescheduler_fit, rescheduler_move, DispatcherPc, idle, notified, sending,
  dispatcher_wait, dispatcher_took, dispatcher_on, dispatcher_move, post_worker,
}
use pronto.Threads.Update.{then_go-inv}
use pronto.Threads.Jobs.{dispatcher_move-on}
use pronto.Threads.Stored.{update_worker-set, carried, re_carried}

-- A weight that tells requests that an `unsigned int` cannot hold.
abbrev pub oversize : ℕ → ℕ
oversize v = if ltb v (2 ^ 32) then 0 else 1

small : (v : ℕ) → oversize v ≡ 0 → v < 2 ^ 32
small v h = ground arith

update_worker-IsBalanced :
    (p : Pronto) (b : ℕ) (f : Worker → Worker) {q : Pronto}
    → ((x : Worker) → resources (f x) ≡ resources x)
    → update_worker p b f ≡ some q
    → IsBalanced p
    → IsBalanced q
update_worker-IsBalanced p b f same run bal =
    let (x, at, e) = update_worker-set p b f run in
    rw (e) (omega (arith, total-set resources p.workers_instances b (f x) x at, same x, bal))

reserve-IsBalanced :
    (p : Pronto) (b v : ℕ) {q : Pronto}
    → oversize v ≡ 0
    → reserve_capacity p b v ≡ some q
    → IsBalanced p
    → IsBalanced q
unfolding reserve_capacity decrease_current_capacity
reserve-IsBalanced p b v fits run bal =
    let (x, at, e) = update_worker-set (decrease_current_capacity p v) b (reserved v) run in
    rw (e) (after_reserve-IsBalanced p b v x at (small v fits) bal)

pub free-IsBalanced :
    (p : Pronto) (b v : ℕ) {q : Pronto}
    → v < 2 ^ 32
    → free_capacity p b v ≡ some q
    → IsBalanced p
    → IsBalanced q
unfolding free_capacity increase_current_capacity
free-IsBalanced p b v fits run bal =
    let (x, at, e) = update_worker-set (increase_current_capacity p v) b (freed v) run in
    rw (e) (after_free-IsBalanced p b v x at fits bal)

add_worker_job-IsBalanced :
    (p : Pronto) (b v : ℕ) {q : Pronto}
    → add_worker_job p b v ≡ some q
    → IsBalanced p
    → IsBalanced q
unfolding add_worker_job
add_worker_job-IsBalanced p b v run bal = update_worker-IsBalanced p b _ (λ x. refl) run bal

post_worker-IsBalanced :
    (p : Pronto) (b : ℕ) {q : Pronto} → post_worker p b ≡ some q → IsBalanced p → IsBalanced q
unfolding post_worker
post_worker-IsBalanced p b run bal = update_worker-IsBalanced p b _ (λ x. refl) run bal

took-IsBalanced :
    (p : Pronto) (t : Option ℕ × List ℕ) {q : Pronto} {pc' : SchedulerPc}
    → scheduler_took p t ≡ go q pc'
    → IsBalanced p
    → IsBalanced q
took-IsBalanced p (none, l) run bal = ground arith
took-IsBalanced p (some v, l) run bal = ground arith

pub scheduler_move-IsBalanced :
    (p : Pronto) (held : Bool) (pc : SchedulerPc) {q : Pronto} {pc' : SchedulerPc}
    → carried oversize pc ≡ 0
    → scheduler_move p held pc ≡ go q pc'
    → IsBalanced p
    → IsBalanced q
unfolding scheduler_move add_waiting_job
scheduler_move-IsBalanced p held waiting fits run bal = ground arith
scheduler_move-IsBalanced p held awake fits run bal =
    took-IsBalanced p (take_job p.job_queue) run bal
scheduler_move-IsBalanced p held (took v) fits run bal = ground arith
scheduler_move-IsBalanced p held (parking v) fits run bal = ground arith
scheduler_move-IsBalanced p held (chosen v b) fits run bal =
    let (r, e) = then_go-inv _ run in reserve-IsBalanced p b v fits r bal
scheduler_move-IsBalanced p held (booked v b) fits run bal =
    let (r, e) = then_go-inv _ run in add_worker_job-IsBalanced p b v r bal
scheduler_move-IsBalanced p held (queued v b) fits run bal =
    let (r, e) = then_go-inv _ run in post_worker-IsBalanced p b r bal

fit-IsBalanced :
    (p : Pronto) (rest : List ℕ) (v : ℕ) (fit : Option ℕ) {q : Pronto} {pc' : ReschedulerPc}
    → rescheduler_fit p rest v fit ≡ go q pc'
    → IsBalanced p
    → IsBalanced q
fit-IsBalanced p rest v none run bal = ground arith
fit-IsBalanced p rest v (some b) run bal = ground arith

look-IsBalanced :
    (p : Pronto) (l : List ℕ) {q : Pronto} {pc' : ReschedulerPc}
    → rescheduler_look p l ≡ go q pc'
    → IsBalanced p
    → IsBalanced q
unfolding rescheduler_look
look-IsBalanced p [] run bal = ground arith
look-IsBalanced p (v ∷ l) run bal = fit-IsBalanced p l v _ run bal

pub rescheduler_move-IsBalanced :
    (p : Pronto) (pc : ReschedulerPc) {q : Pronto} {pc' : ReschedulerPc}
    → re_carried oversize pc ≡ 0
    → rescheduler_move p pc ≡ go q pc'
    → IsBalanced p
    → IsBalanced q
unfolding rescheduler_move
rescheduler_move-IsBalanced p sleeping fits run bal = ground arith
rescheduler_move-IsBalanced p locking fits run bal = ground arith
rescheduler_move-IsBalanced p looking fits run bal = look-IsBalanced p p.waiting_queue run bal
rescheduler_move-IsBalanced p (picked v b) fits run bal =
    let (r, e) = then_go-inv _ run in reserve-IsBalanced p b v fits r bal
rescheduler_move-IsBalanced p (booking v b) fits run bal =
    let (r, e) = then_go-inv _ run in add_worker_job-IsBalanced p b v r bal
rescheduler_move-IsBalanced p (posting v b) fits run bal =
    let (r, e) = then_go-inv _ run in post_worker-IsBalanced p b r bal

wait-IsBalanced :
    (p : Pronto) (i n : ℕ) {q : Pronto} {pc' : DispatcherPc}
    → dispatcher_wait p i n ≡ go q pc'
    → IsBalanced p
    → IsBalanced q
wait-IsBalanced p i zero run bal = cc
wait-IsBalanced p i (suc n) run bal =
    let (r, e) = then_go-inv _ run in update_worker-IsBalanced p i _ (λ x. refl) r bal

di_took-IsBalanced :
    (p : Pronto) (i : ℕ) (t : Option ℕ × List ℕ) {q : Pronto} {pc' : DispatcherPc}
    → dispatcher_took p i t ≡ go q pc'
    → IsBalanced p
    → IsBalanced q
di_took-IsBalanced p i (none, l) run bal = cc
di_took-IsBalanced p i (some v, l) run bal =
    let (r, e) = then_go-inv _ run in update_worker-IsBalanced p i _ (λ x. refl) r bal

dispatcher_on-IsBalanced :
    (p : Pronto) (i : ℕ) (pc : DispatcherPc) (x : Worker) {q : Pronto} {pc' : DispatcherPc}
    → dispatcher_on p i pc x ≡ go q pc'
    → IsBalanced p
    → IsBalanced q
unfolding dispatcher_on
dispatcher_on-IsBalanced p i idle x on bal = wait-IsBalanced p i x.notify on bal
dispatcher_on-IsBalanced p i notified x on bal =
    di_took-IsBalanced p i (take_job x.scheduler_jobs) on bal
dispatcher_on-IsBalanced p i (sending v) x on bal = ground arith

pub dispatcher_move-IsBalanced :
    (p : Pronto) (i : ℕ) (pc : DispatcherPc) {q : Pronto} {pc' : DispatcherPc}
    → dispatcher_move p i pc ≡ go q pc'
    → IsBalanced p
    → IsBalanced q
dispatcher_move-IsBalanced p i pc run bal =
    let (x, at, on) = dispatcher_move-on p i pc run in dispatcher_on-IsBalanced p i pc x on bal
