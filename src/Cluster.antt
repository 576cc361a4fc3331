-- ===== src/Cluster.antt =====
-- The state that the threads share (`struct pronto` of srv/lib/h/pronto.h, `struct cluster_worker`
-- of srv/lib/h/cluster_worker.h) and the operations of srv/lib/pronto.c on it.
-- A queue is the list of its requests, ascending, as PrioQueue/Order.antt relates it to the nodes.
pub mod Fit
pub mod Capacity
pub mod Schedulable
use pronto.Prelude.{
  ℕ, zero, suc, ◌+◌, ◌-◌, ◌%◌, ◌^◌, Bool, true, false, ◌&&◌, ◌||◌, Option, none, some, List, [],
  ◌∷◌, ◌++◌, ltb, leb, if◌then◌else◌, get_elem?, set,
}
use pronto.Word.{u32, u64, sub32, sub64, minus_one, lt_int, le_int, ulong_of_int}
use pronto.Bytes.{Bytes, codes, decimal}
use pronto.PrioQueue.Order.{insert_job}

-- `struct cluster_worker`; `notify` is the value of its semaphore.
pub record Worker : Type 0 where
  pub max_resources : ℕ  -- unsigned long
  pub current_resources : ℕ  -- unsigned long
  pub scheduled_jobs : ℕ  -- unsigned int
  pub notify : ℕ
  pub scheduler_jobs : List ℕ
  pub active : Bool
  pub endpoint : Bytes
  pub port : ℕ
  pub worker_id : ℕ

-- `struct pronto`: `workers` is the length of `workers_instances`.
pub record Pronto : Type 0 where
  pub workers_instances : List Worker
  pub schedulers : ℕ
  pub total_capacity : ℕ  -- int
  pub current_capacity : ℕ  -- int
  pub job_queue : List ℕ
  pub waiting_queue : List ℕ
  pub notify : ℕ
  pub reschedule : ℕ

-- srv/lib/h/config.h
abbrev pub max_resources : ℕ
max_resources = 15

abbrev pub cluster_workers : ℕ
cluster_workers = 2

abbrev pub num_schedulers : ℕ
num_schedulers = 1

-- cluster_worker_init
unfoldable pub init_worker : ℕ → ℕ → Worker
unfolding decimal
init_worker index port = record {
  max_resources = max_resources;
  current_resources = max_resources;
  scheduled_jobs = 0;
  notify = 0;
  scheduler_jobs = [];
  active = true;
  endpoint = codes "http://srv-" ++ (decimal index ++ codes ":3000");
  port = port;
  worker_id = index;
}

-- The loop of pronto_init over the workers: `n` more, from index `i` on.
unfoldable pub init_workers : ℕ → ℕ → List Worker
init_workers zero i = []
init_workers (suc n) i = init_worker i 3000 ∷ init_workers n (suc i)

-- The `total_capacity +=` of the same loop.
unfoldable pub sum_capacity : ℕ → List Worker → ℕ
sum_capacity t [] = t
sum_capacity t (w ∷ ws) = sum_capacity (u32 (t + w.max_resources)) ws

-- pronto_init
unfoldable pub init : ℕ → ℕ → Pronto
unfolding init_worker init_workers sum_capacity
init workers schedulers = record {
  workers_instances = init_workers workers 0;
  schedulers = schedulers;
  total_capacity = sum_capacity 0 (init_workers workers 0);
  current_capacity = sum_capacity 0 (init_workers workers 0);
  job_queue = [];
  waiting_queue = [];
  notify = 0;
  reschedule = 0;
}

-- The loop of pronto_is_schedulable; `value` is an `int`.
unfoldable pub any_holds : ℕ → List Worker → Bool
any_holds value [] = false
any_holds value (w ∷ ws) = leb (ulong_of_int value) w.max_resources || any_holds value ws

-- pronto_is_schedulable
unfoldable pub is_schedulable : Pronto → ℕ → Bool
is_schedulable p value =
    if le_int p.total_capacity value then false else any_holds value p.workers_instances

-- One round of the loop of pronto_best_current_fit, over `capacity` and `worker_index`; the index -1
-- is `none`.
unfoldable pub consider : ℕ → ℕ → Worker → ℕ × Option ℕ → ℕ × Option ℕ
consider value i w (capacity, worker_index) =
    if leb value w.current_resources && lt_int capacity (u32 w.current_resources)
    then (u32 w.current_resources, some i)
    else (capacity, worker_index)

unfoldable pub fit_loop : ℕ → ℕ → List Worker → ℕ × Option ℕ → ℕ × Option ℕ
fit_loop value i [] best = best
fit_loop value i (w ∷ ws) best = fit_loop value (suc i) ws (consider value i w best)

-- pronto_best_current_fit; the test of `current_capacity`, an `int`, against an `unsigned int` is
-- unsigned.
unfoldable pub best_current_fit : Pronto → ℕ → Option ℕ
best_current_fit p value =
    if ltb p.current_capacity value
    then none
    else (fit_loop value 0 p.workers_instances (minus_one, none)).1

-- pronto_add_job and pronto_add_waiting_job
unfoldable pub add_job : Pronto → ℕ → Pronto
add_job p value = record p { job_queue = insert_job value p.job_queue }

unfoldable pub add_waiting_job : Pronto → ℕ → Pronto
add_waiting_job p value = record p { waiting_queue = insert_job value p.waiting_queue }

-- pronto_increase_current_capacity and pronto_decrease_current_capacity
unfoldable pub increase_current_capacity : Pronto → ℕ → Pronto
increase_current_capacity p value = record p { current_capacity = u32 (p.current_capacity + value) }

unfoldable pub decrease_current_capacity : Pronto → ℕ → Pronto
decrease_current_capacity p value = record p { current_capacity = sub32 p.current_capacity value }

-- A write through a pointer to worker `i`; `none` is an access outside the array.
unfoldable pub update_worker : Pronto → ℕ → (Worker → Worker) → Option Pronto
update_worker p i f = elim (get_elem? p.workers_instances i) [
  | none ↦ none
  | some w ↦ some (record p { workers_instances = set p.workers_instances i (f w) })
]

-- What pronto_free_capacity and pronto_reserve_capacity do to the worker.
abbrev pub freed : ℕ → Worker → Worker
freed qty w = record w {
  current_resources = u64 (w.current_resources + qty);
  scheduled_jobs = sub32 w.scheduled_jobs 1;
}

abbrev pub reserved : ℕ → Worker → Worker
reserved qty w = record w {
  current_resources = sub64 w.current_resources qty;
  scheduled_jobs = u32 (w.scheduled_jobs + 1);
}

-- pronto_free_capacity
unfoldable pub free_capacity : Pronto → ℕ → ℕ → Option Pronto
unfolding increase_current_capacity update_worker
free_capacity p worker qty = update_worker (increase_current_capacity p qty) worker (freed qty)

-- pronto_reserve_capacity
unfoldable pub reserve_capacity : Pronto → ℕ → ℕ → Option Pronto
unfolding decrease_current_capacity update_worker
reserve_capacity p worker qty =
    update_worker (decrease_current_capacity p qty) worker (reserved qty)

-- cluster_worker_add_job
unfoldable pub add_worker_job : Pronto → ℕ → ℕ → Option Pronto
unfolding update_worker
add_worker_job p worker value =
    update_worker p worker (λ w. record w { scheduler_jobs = insert_job value w.scheduler_jobs })
