-- ===== src/System/Ordered.antt =====
-- The queues in every reachable state.
use pronto.Prelude.{
  ℕ, zero, suc, ◌≡◌, refl, Option, none, some, get_elem?, Bool-cases, inl, inr, some-injective,
}
use pronto.Word.{u32}
use pronto.PrioQueue.Order.{IsSorted, insert_job-IsSorted}
use pronto.Cluster.{
  Worker, Pronto, init_worker, init_workers, is_schedulable, add_job, free_capacity,
}
use pronto.Threads.{
  SchedulerPc, scheduler_move, holds_waiting, rescheduler_move, DispatcherPc, dispatcher_move,
}
use pronto.Threads.Ordered.{
  IsOrdered, with_queue, with_counts, scheduler_move-IsOrdered, rescheduler_move-IsOrdered,
  dispatcher_move-IsOrdered, free-IsOrdered,
}
use pronto.System.{
  System, start, Event, scheduler, rescheduler, dispatcher, fail_post, schedule, post_notify, done,
  post_reschedule, next, step_scheduler, step_dispatcher, step_schedule, step_done,
  step_post_notify, step_post_reschedule, step, Reach, started, later,
}
use pronto.System.Fails.{fail-dispatcher}
use pronto.System.Conservation.{resume-inv, next_injective}

module _ (s t : System) (o : IsOrdered s.pronto) where
  scheduler-IsOrdered :
      (k : ℕ) (pc : Option SchedulerPc) → step_scheduler s k pc ≡ next t → IsOrdered t.pronto
  unfolding step_scheduler
  scheduler-IsOrdered k none ran = cc
  scheduler-IsOrdered k (some pc) ran =
      let (q, pc', moved, e) =
        resume-inv (scheduler_move s.pronto (holds_waiting s.rescheduler) pc) _ t ran in
      rw (e) (scheduler_move-IsOrdered s.pronto _ pc moved o)

  dispatcher-IsOrdered :
      (k : ℕ) (pc : Option DispatcherPc) → step_dispatcher s k pc ≡ next t → IsOrdered t.pronto
  unfolding step_dispatcher
  dispatcher-IsOrdered k none ran = cc
  dispatcher-IsOrdered k (some pc) ran =
      let (q, pc', moved, e) = resume-inv (dispatcher_move s.pronto k pc) _ t ran in
      rw (e) (dispatcher_move-IsOrdered s.pronto k pc moved o)

  done-IsOrdered :
      (i qty : ℕ) (p : Option Pronto)
      → free_capacity s.pronto i qty ≡ p
      → step_done s p ≡ next t
      → IsOrdered t.pronto
  done-IsOrdered i qty none freed ran = cc
  done-IsOrdered i qty (some p) freed ran =
      let b = free-IsOrdered s.pronto i qty freed o in rw (← next_injective ran) b

  post_notify-IsOrdered : (n : ℕ) → step_post_notify s n ≡ next t → IsOrdered t.pronto
  post_notify-IsOrdered zero ran = cc
  post_notify-IsOrdered (suc n) ran = rw (← next_injective ran) (with_counts _ _ o)

  post_reschedule-IsOrdered : (n : ℕ) → step_post_reschedule s n ≡ next t → IsOrdered t.pronto
  post_reschedule-IsOrdered zero ran = cc
  post_reschedule-IsOrdered (suc n) ran = rw (← next_injective ran) (with_counts _ _ o)

  step-IsOrdered : (e : Event) → step s e ≡ next t → IsOrdered t.pronto
  unfolding step step_schedule add_job
  step-IsOrdered (scheduler k) ran = scheduler-IsOrdered k (get_elem? s.schedulers k) ran
  step-IsOrdered rescheduler ran =
      let (q, pc', moved, e) = resume-inv (rescheduler_move s.pronto s.rescheduler) _ t ran in
      rw (e) (rescheduler_move-IsOrdered s.pronto s.rescheduler moved o)
  step-IsOrdered (dispatcher k) ran = dispatcher-IsOrdered k (get_elem? s.dispatchers k) ran
  step-IsOrdered (fail_post k) ran =
      dispatcher-IsOrdered k (get_elem? s.dispatchers k) (fail-dispatcher s t k ran)
  step-IsOrdered (schedule qty) ran = elim (Bool-cases (is_schedulable s.pronto (u32 qty))) [
    | inl e ↦
        rw (← next_injective (rw (e) at ran))
          (with_queue _ (insert_job-IsSorted (u32 qty) s.pronto.job_queue o.job_queue) o)
    | inr e ↦ rw (← next_injective (rw (e) at ran)) o
  ]
  step-IsOrdered post_notify ran = post_notify-IsOrdered s.posting ran
  step-IsOrdered (done i qty) ran =
      done-IsOrdered i (u32 qty) (free_capacity s.pronto i (u32 qty)) refl ran
  step-IsOrdered post_reschedule ran = post_reschedule-IsOrdered s.freeing ran

init_workers-IsSorted :
    (n j i : ℕ) (w : Worker) → get_elem? (init_workers n j) i ≡ some w → IsSorted w.scheduler_jobs
unfolding init_workers init_worker
init_workers-IsSorted zero j i w h = cc
init_workers-IsSorted (suc n) j zero w h = rw (← some-injective _ _ h) tt
init_workers-IsSorted (suc n) j (suc i) w h = init_workers-IsSorted n (suc j) i w h

start-IsOrdered : (n m : ℕ) → IsOrdered (start n m).pronto
unfolding start
start-IsOrdered n m = record {
  job_queue = tt;
  waiting_queue = tt;
  scheduler_jobs = init_workers-IsSorted n 0;
}

-- In every state that the server can reach, under any interleaving of its threads, the job queue, the
-- waiting queue and the queue of each worker are in ascending order.
pub Reach-IsOrdered : {n m : ℕ} {s : System} → Reach n m s → IsOrdered s.pronto
Reach-IsOrdered {n} {m} started = start-IsOrdered n m
Reach-IsOrdered (later {s} {t} r e ran) = step-IsOrdered s t (Reach-IsOrdered r) e ran
