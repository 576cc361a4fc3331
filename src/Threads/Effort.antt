-- ===== src/Threads/Effort.antt =====
-- A bound on the moves that are left: each move of a thread uses some of it up.
use pronto.Prelude.{
  ℕ, zero, suc, ◌+◌, ◌*◌, ◌<◌, ◌≡◌, refl, ap, sym, ◌∙◌, some-injective, Bool, Option, none, some,
  List, [], ◌∷◌, arith, get_elem?, length, total, total-set,
}
use pronto.PrioQueue.Order.{take_job, length-insert_job}
use pronto.Cluster.{
  Worker, Pronto, add_waiting_job, reserve_capacity, decrease_current_capacity, add_worker_job,
  update_worker, reserved, freed, free_capacity, increase_current_capacity,
}
use pronto.Threads.{
  go, SchedulerPc, waiting, awake, took, parking, chosen, booked, queued, scheduler_took,
  scheduler_fit, scheduler_move, ReschedulerPc, sleeping, locking, looking, picked, booking,
  posting, rescheduler_look, rescheduler_fit, rescheduler_move, DispatcherPc, idle, notified,
  sending, dispatcher_wait, dispatcher_took, dispatcher_on, dispatcher_move, post_worker,
}
use pronto.Cluster.{best_current_fit}
use pronto.Threads.Update.{then_go-inv}
use pronto.Threads.Jobs.{dispatcher_move-on}
use pronto.Threads.Stored.{update_worker-set}

abbrev pub post_effort : Worker → ℕ
post_effort x = 3 * x.notify

-- What the semaphores and the waiting queue are good for.
abbrev pub effort : Pronto → ℕ
effort p =
    11 * p.notify
    + 7 * length p.waiting_queue
    + 3 * p.reschedule
    + total post_effort p.workers_instances

abbrev pub scheduler_effort : SchedulerPc → ℕ
scheduler_effort waiting = 0
scheduler_effort awake = 10
scheduler_effort (took v) = 9
scheduler_effort (parking v) = 8
scheduler_effort (chosen v b) = 6
scheduler_effort (booked v b) = 5
scheduler_effort (queued v b) = 4

abbrev pub rescheduler_effort : ReschedulerPc → ℕ
rescheduler_effort sleeping = 0
rescheduler_effort locking = 2
rescheduler_effort looking = 1
rescheduler_effort (picked v b) = 7
rescheduler_effort (booking v b) = 6
rescheduler_effort (posting v b) = 5

abbrev pub dispatcher_effort : DispatcherPc → ℕ
dispatcher_effort idle = 0
dispatcher_effort notified = 2
dispatcher_effort (sending v) = 1

update_worker-effort :
    (p : Pronto) (b : ℕ) (f : Worker → Worker) {q : Pronto} (n m : ℕ)
    → update_worker p b f ≡ some q
    → ((x : Worker)
        → get_elem? p.workers_instances b ≡ some x
        → post_effort (f x) + m ≡ post_effort x + n)
    → effort q + m ≡ effort p + n
update_worker-effort p b f n m run change =
    let (x, at, e) = update_worker-set p b f run in
    rw (e) (omega (arith, total-set post_effort p.workers_instances b (f x) x at, change x at))

reserve-effort :
    (p : Pronto) (b v : ℕ) {q : Pronto} → reserve_capacity p b v ≡ some q → effort q ≡ effort p
unfolding reserve_capacity decrease_current_capacity
reserve-effort p b v run =
    let e =
      update_worker-effort (decrease_current_capacity p v) b (reserved v) 0 0 run (λ x at. refl) in
    omega (arith, e)

pub free-effort :
    (p : Pronto) (b v : ℕ) {q : Pronto} → free_capacity p b v ≡ some q → effort q ≡ effort p
unfolding free_capacity increase_current_capacity
free-effort p b v run =
    let e =
      update_worker-effort (increase_current_capacity p v) b (freed v) 0 0 run (λ x at. refl) in
    omega (arith, e)

add_worker_job-effort :
    (p : Pronto) (b v : ℕ) {q : Pronto} → add_worker_job p b v ≡ some q → effort q ≡ effort p
unfolding add_worker_job
add_worker_job-effort p b v run =
    let e = update_worker-effort p b _ 0 0 run (λ x at. refl) in omega (arith, e)

post_worker-effort :
    (p : Pronto) (b : ℕ) {q : Pronto} → post_worker p b ≡ some q → effort q ≡ effort p + 3
unfolding post_worker
post_worker-effort p b run =
    let e = update_worker-effort p b _ 3 0 run (λ x at. omega arith) in omega (arith, e)

took-effort :
    (p : Pronto) (t : Option ℕ × List ℕ) {q : Pronto} {pc' : SchedulerPc}
    → scheduler_took p t ≡ go q pc'
    → effort q + scheduler_effort pc' < effort p + 10
took-effort p (none, l) run = ground arith
took-effort p (some v, l) run = ground arith

scheduler_fit-effort :
    (p : Pronto) (v : ℕ) (fit : Option ℕ) {q : Pronto} {pc' : SchedulerPc}
    → scheduler_fit p v fit ≡ go q pc'
    → effort q + scheduler_effort pc' < effort p + 9
scheduler_fit-effort p v none run = ground arith
scheduler_fit-effort p v (some b) run = ground arith

pub scheduler_move-effort :
    (p : Pronto) (held : Bool) (pc : SchedulerPc) {q : Pronto} {pc' : SchedulerPc}
    → scheduler_move p held pc ≡ go q pc'
    → effort q + scheduler_effort pc' < effort p + scheduler_effort pc
unfolding scheduler_move add_waiting_job
scheduler_move-effort p held waiting run = ground arith
scheduler_move-effort p held awake run = took-effort p (take_job p.job_queue) run
scheduler_move-effort p held (took v) run = scheduler_fit-effort p v (best_current_fit p v) run
scheduler_move-effort p held (parking v) run = ground (arith, length-insert_job v p.waiting_queue)
scheduler_move-effort p held (chosen v b) run =
    let (r, e) = then_go-inv _ run in let s = reserve-effort p b v r in ground arith
scheduler_move-effort p held (booked v b) run =
    let (r, e) = then_go-inv _ run in let s = add_worker_job-effort p b v r in ground arith
scheduler_move-effort p held (queued v b) run =
    let (r, e) = then_go-inv _ run in let s = post_worker-effort p b r in ground arith

fit-effort :
    (p : Pronto) (rest : List ℕ) (v : ℕ) (fit : Option ℕ) {q : Pronto} {pc' : ReschedulerPc}
    → p.waiting_queue ≡ v ∷ rest
    → rescheduler_fit p rest v fit ≡ go q pc'
    → effort q + rescheduler_effort pc' < effort p + 1
fit-effort p rest v none e run = ground arith
fit-effort p rest v (some b) e run = ground (arith, ap length e)

look-effort :
    (p : Pronto) (l : List ℕ) {q : Pronto} {pc' : ReschedulerPc}
    → p.waiting_queue ≡ l
    → rescheduler_look p l ≡ go q pc'
    → effort q + rescheduler_effort pc' < effort p + 1
unfolding rescheduler_look
look-effort p [] e run = ground arith
look-effort p (v ∷ l) e run = fit-effort p l v _ e run

pub rescheduler_move-effort :
    (p : Pronto) (pc : ReschedulerPc) {q : Pronto} {pc' : ReschedulerPc}
    → rescheduler_move p pc ≡ go q pc'
    → effort q + rescheduler_effort pc' < effort p + rescheduler_effort pc
unfolding rescheduler_move
rescheduler_move-effort p sleeping run = ground arith
rescheduler_move-effort p locking run = ground arith
rescheduler_move-effort p looking run = look-effort p p.waiting_queue refl run
rescheduler_move-effort p (picked v b) run =
    let (r, e) = then_go-inv _ run in let s = reserve-effort p b v r in ground arith
rescheduler_move-effort p (booking v b) run =
    let (r, e) = then_go-inv _ run in let s = add_worker_job-effort p b v r in ground arith
rescheduler_move-effort p (posting v b) run =
    let (r, e) = then_go-inv _ run in let s = post_worker-effort p b r in ground arith

wait-effort :
    (p : Pronto) (i n : ℕ) (x : Worker) {q : Pronto} {pc' : DispatcherPc}
    → get_elem? p.workers_instances i ≡ some x
    → x.notify ≡ n
    → dispatcher_wait p i n ≡ go q pc'
    → effort q + dispatcher_effort pc' < effort p
wait-effort p i zero x at e run = cc
wait-effort p i (suc n) x at e run =
    let (r, f) = then_go-inv _ run in
    let s =
      update_worker-effort p i (λ y. record y { notify = n }) 0 3 r
        λ y at'.
          let same : x ≡ y = some-injective _ _ (sym at ∙ at') in
          omega (arith, ap post_effort same, e) in
    ground arith

di_took-effort :
    (p : Pronto) (i : ℕ) (t : Option ℕ × List ℕ) {q : Pronto} {pc' : DispatcherPc}
    → dispatcher_took p i t ≡ go q pc'
    → effort q + dispatcher_effort pc' < effort p + 2
di_took-effort p i (none, l) run = cc
di_took-effort p i (some v, l) run =
    let (r, e) = then_go-inv _ run in
    let s = update_worker-effort p i _ 0 0 r (λ x at. refl) in ground arith

pub dispatcher_move-effort :
    (p : Pronto) (i : ℕ) (pc : DispatcherPc) {q : Pronto} {pc' : DispatcherPc}
    → dispatcher_move p i pc ≡ go q pc'
    → effort q + dispatcher_effort pc' < effort p + dispatcher_effort pc
unfolding dispatcher_on
dispatcher_move-effort p i idle run =
    let (x, at, on) = dispatcher_move-on p i idle run in
    let e = wait-effort p i x.notify x at refl on in omega (arith, e)
dispatcher_move-effort p i notified run =
    let (x, at, on) = dispatcher_move-on p i notified run in
    di_took-effort p i (take_job x.scheduler_jobs) on
dispatcher_move-effort p i (sending v) run =
    let (x, at, on) = dispatcher_move-on p i (sending v) run in ground arith
