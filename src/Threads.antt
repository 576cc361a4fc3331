-- ===== src/Threads.antt =====
-- The threads of the server between two accesses to shared state: the scheduler (`_scheduler_loop`
-- of srv/lib/scheduler_worker.c), the rescheduler (`_rescheduler_loop` of srv/lib/rescheduler.c) and
-- the dispatcher of each worker (`_cluster_loop` of srv/lib/cluster_worker.c).
-- A move is what a thread does under one lock, or one semaphore call.
pub mod Update
pub mod Posts
pub mod Safe
pub mod Jobs
pub mod Stored
pub mod Balance
pub mod Units
pub mod Effort
pub mod Blocked
pub mod Fits
pub mod Ordered
pub mod Covered
use pronto.Prelude.{
  ℕ, zero, suc, ◌+◌, ◌-◌, Bool, true, false, Option, none, some, List, [], ◌∷◌, ◌==◌, if◌then◌else◌,
  get_elem?,
}
use pronto.PrioQueue.Order.{take_job}
use pronto.Cluster.{
  Worker, Pronto, best_current_fit, add_waiting_job, reserve_capacity, add_worker_job,
  update_worker,
}

-- A thread goes on with a new shared state, waits, or touches memory that is not there.
pub data Move (A : Type 0) : Type 0 where
  go : Pronto → A → Move A
  blocked : Move A
  fault : Move A

-- A call that may touch a worker outside the array.
abbrev pub then_go : {A : Type 0} → Option Pronto → A → Move A
then_go none pc = fault
then_go (some p) pc = go p pc

-- sem_post(&best_fit->notify)
unfoldable pub post_worker : Pronto → ℕ → Option Pronto
unfolding update_worker
post_worker p i = update_worker p i (λ w. record w { notify = w.notify + 1 })

-- Where `_scheduler_loop` stands.
pub data SchedulerPc : Type 0 where
  waiting : SchedulerPc  -- at sem_wait(&pronto->notify)
  awake : SchedulerPc  -- before the dequeue
  took : (value : ℕ) → SchedulerPc  -- before pronto_best_current_fit
  parking : (value : ℕ) → SchedulerPc  -- before pronto_add_waiting_job
  chosen : (value worker : ℕ) → SchedulerPc  -- before pronto_reserve_capacity
  booked : (value worker : ℕ) → SchedulerPc  -- before cluster_worker_add_job
  queued : (value worker : ℕ) → SchedulerPc  -- before sem_post(&best_fit->notify)

-- The node is NULL exactly if the queue was empty: the code then prints "bug: …" and waits again.
abbrev pub scheduler_took : Pronto → Option ℕ × List ℕ → Move SchedulerPc
scheduler_took p (none, rest) = go (record p { job_queue = rest }) waiting
scheduler_took p (some v, rest) = go (record p { job_queue = rest }) (took v)

abbrev pub scheduler_fit : Pronto → ℕ → Option ℕ → Move SchedulerPc
scheduler_fit p v none = go p (parking v)
scheduler_fit p v (some b) = go p (chosen v b)

-- One move of `_scheduler_loop`; `held` says that another thread has waiting_queue_mutex.
unfoldable pub scheduler_move : Pronto → Bool → SchedulerPc → Move SchedulerPc
scheduler_move p held waiting =
    if p.notify == 0 then blocked else go (record p { notify = p.notify - 1 }) awake
scheduler_move p held awake = scheduler_took p (take_job p.job_queue)
scheduler_move p held (took v) = scheduler_fit p v (best_current_fit p v)
scheduler_move p held (parking v) = if held then blocked else go (add_waiting_job p v) waiting
scheduler_move p held (chosen v b) = then_go (reserve_capacity p b v) (booked v b)
scheduler_move p held (booked v b) = then_go (add_worker_job p b v) (queued v b)
scheduler_move p held (queued v b) = then_go (post_worker p b) waiting

-- Where `_rescheduler_loop` stands. From `looking` to `posting` it holds waiting_queue_mutex.
pub data ReschedulerPc : Type 0 where
  sleeping : ReschedulerPc  -- at sem_wait(&pronto->reschedule)
  locking : ReschedulerPc  -- before the lock of waiting_queue_mutex
  looking : ReschedulerPc  -- at the head of `while(1)`
  picked : (value worker : ℕ) → ReschedulerPc  -- after the dequeue
  booking : (value worker : ℕ) → ReschedulerPc  -- before cluster_worker_add_job
  posting : (value worker : ℕ) → ReschedulerPc  -- before sem_post(&best_fit->notify)

abbrev pub holds_waiting : ReschedulerPc → Bool
holds_waiting sleeping = false
holds_waiting locking = false
holds_waiting _ = true

-- The loop's body down to the dequeue: the head stays in the queue unless a worker can take it. On
-- `break` the lock is given back.
abbrev pub rescheduler_fit : Pronto → List ℕ → ℕ → Option ℕ → Move ReschedulerPc
rescheduler_fit p rest v none = go p sleeping
rescheduler_fit p rest v (some b) = go (record p { waiting_queue = rest }) (picked v b)

unfoldable pub rescheduler_look : Pronto → List ℕ → Move ReschedulerPc
rescheduler_look p [] = go p sleeping
rescheduler_look p (v ∷ rest) = rescheduler_fit p rest v (best_current_fit p v)

-- One move of `_rescheduler_loop`.
unfoldable pub rescheduler_move : Pronto → ReschedulerPc → Move ReschedulerPc
unfolding rescheduler_look
rescheduler_move p sleeping =
    if p.reschedule == 0 then blocked else go (record p { reschedule = p.reschedule - 1 }) locking
rescheduler_move p locking = go p looking
rescheduler_move p looking = rescheduler_look p p.waiting_queue
rescheduler_move p (picked v b) = then_go (reserve_capacity p b v) (booking v b)
rescheduler_move p (booking v b) = then_go (add_worker_job p b v) (posting v b)
rescheduler_move p (posting v b) = then_go (post_worker p b) looking

-- Where `_cluster_loop` stands.
pub data DispatcherPc : Type 0 where
  idle : DispatcherPc  -- at sem_wait(&worker->notify)
  notified : DispatcherPc  -- before the dequeue
  sending : (value : ℕ) → DispatcherPc  -- before curl_easy_init

-- `node->value->request` is read whether or not the dequeue gave a node.
abbrev pub dispatcher_took : Pronto → ℕ → Option ℕ × List ℕ → Move DispatcherPc
dispatcher_took p i (none, rest) = fault
dispatcher_took p i (some v, rest) =
    then_go (update_worker p i (λ w. record w { scheduler_jobs = rest })) (sending v)

-- sem_wait(&worker->notify)
abbrev pub dispatcher_wait : Pronto → ℕ → ℕ → Move DispatcherPc
dispatcher_wait p i zero = blocked
dispatcher_wait p i (suc n) = then_go (update_worker p i (λ w. record w { notify = n })) notified

-- From `sending` to the end of the round, when curl_easy_perform returns CURLE_OK.
unfoldable pub dispatcher_on : Pronto → ℕ → DispatcherPc → Worker → Move DispatcherPc
dispatcher_on p i idle w = dispatcher_wait p i w.notify
dispatcher_on p i notified w = dispatcher_took p i (take_job w.scheduler_jobs)
dispatcher_on p i (sending v) w = go p idle

-- One move of the `_cluster_loop` of worker `i`, whose POSTs are answered.
unfoldable pub dispatcher_move : Pronto → ℕ → DispatcherPc → Move DispatcherPc
unfolding dispatcher_on
dispatcher_move p i pc = elim (get_elem? p.workers_instances i) [
  | none ↦ fault
  | some w ↦ dispatcher_on p i pc w
]

-- The move of a dispatcher whose job is not sent: curl_easy_init returns NULL, a call of cJSON fails,
-- or curl_easy_perform returns an error. The round ends there, with a message: the node is in no queue
-- any more, and nothing puts its job back.
unfoldable pub dispatcher_fail : Pronto → ℕ → DispatcherPc → Move DispatcherPc
dispatcher_fail p i idle = blocked
dispatcher_fail p i notified = blocked
dispatcher_fail p i (sending v) = elim (get_elem? p.workers_instances i) [
  | none ↦ fault
  | some w ↦ go p idle
]
