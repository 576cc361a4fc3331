-- ===== src/Tests/Resources.antt =====
-- A worker's resources over the way of one job, with two workers and one scheduler.
use pronto.Prelude.{
  ℕ, zero, suc, ◌+◌, ◌≡◌, refl, Option, none, some, List, [], ◌∷◌, ◌++◌, get_elem?,
}
use pronto.Word.{u64}
use pronto.PrioQueue.Order.{insert_job, take_job}
use pronto.Cluster.{
  Worker, best_current_fit, fit_loop, consider, is_schedulable, any_holds, add_job,
  reserve_capacity, add_worker_job, free_capacity, init_worker, max_resources,
}
use pronto.Threads.{
  idle, scheduler_move, rescheduler_move, rescheduler_look, dispatcher_move, post_worker,
}
use pronto.Threads.Ordered.{IsOrdered}
use pronto.System.{
  start, Event, scheduler, rescheduler, dispatcher, done, post_reschedule, stuck, step,
}
use pronto.System.Conservation.{along}
use pronto.System.Resources.{held, sent_to, dropped_from, given_back}
use pronto.System.Repaid.{run-resources, run-repaid}
use pronto.System.Ordered.{Reach-IsOrdered}
use pronto.System.Idle.{IsIdle}
use pronto.System.Runs.{run}
use pronto.Tests.Jobs.{after, delivered, chosen_worker, chosen_worker-Reach}

-- The job of 7 units is sent, done, and its units are given back.
abbrev returned : List Event
returned = delivered ++ done 0 7 ∷ post_reschedule ∷ rescheduler ∷ rescheduler ∷ rescheduler ∷ []

abbrev worker_or : Worker → Option Worker → Worker
worker_or w none = w
worker_or w (some x) = x

abbrev first_worker : Worker
first_worker =
    worker_or (init_worker 0 3000) (get_elem? (after returned).pronto.workers_instances 0)

-- The run and its last state, in which the worker has all its resources again.
returned-run :
    (run (start 2 1) returned ≡ some (after returned))
    × (get_elem? (after returned).pronto.workers_instances 0 ≡ some first_worker)
    × (get_elem? (after returned).dispatchers 0 ≡ some idle)
    × (first_worker.current_resources ≡ 15)
unfolding run step start is_schedulable any_holds add_job insert_job take_job scheduler_move
    best_current_fit fit_loop consider reserve_capacity add_worker_job post_worker dispatcher_move
    free_capacity rescheduler_move rescheduler_look
returned-run = (refl, refl, refl, refl)

run-resources_example :
    u64 (
      held (after returned) 0 first_worker idle
      + (along (sent_to 0) (start 2 1) returned + along (dropped_from 0) (start 2 1) returned))
    ≡ u64 (max_resources + along (given_back 0) (start 2 1) returned)
run-resources_example =
    run-resources 2 1 0 returned (after returned) first_worker idle returned-run.0
      (returned-run.1, returned-run.2)

schedulers_wait : (k : ℕ) → step (after returned) (scheduler k) ≡ stuck
unfolding run step start is_schedulable any_holds add_job insert_job take_job scheduler_move
    best_current_fit fit_loop consider reserve_capacity add_worker_job post_worker dispatcher_move
    free_capacity rescheduler_move rescheduler_look
schedulers_wait zero = refl
schedulers_wait (suc k) = refl

dispatchers_wait : (k : ℕ) → step (after returned) (dispatcher k) ≡ stuck
unfolding run step start is_schedulable any_holds add_job insert_job take_job scheduler_move
    best_current_fit fit_loop consider reserve_capacity add_worker_job post_worker dispatcher_move
    free_capacity rescheduler_move rescheduler_look
dispatchers_wait zero = refl
dispatchers_wait (suc zero) = refl
dispatchers_wait (suc (suc k)) = refl

returned-IsIdle : IsIdle (after returned)
unfolding run step start is_schedulable any_holds add_job insert_job take_job scheduler_move
    best_current_fit fit_loop consider reserve_capacity add_worker_job post_worker dispatcher_move
    free_capacity rescheduler_move rescheduler_look
returned-IsIdle = record {
  schedulers = schedulers_wait;
  rescheduler = refl;
  dispatchers = dispatchers_wait;
  post_notify = refl;
  post_reschedule = refl;
}

run-repaid_example :
    (first_worker.scheduler_jobs ≡ [])
    × (u64 (
          first_worker.current_resources
          + (along (sent_to 0) (start 2 1) returned + along (dropped_from 0) (start 2 1) returned))
        ≡ u64 (max_resources + along (given_back 0) (start 2 1) returned))
run-repaid_example =
    run-repaid 2 1 0 returned (after returned) first_worker returned-run.0 returned-IsIdle
      returned-run.1

Reach-IsOrdered_example : IsOrdered (after chosen_worker).pronto
Reach-IsOrdered_example = Reach-IsOrdered chosen_worker-Reach
