-- ===== src/Tests/Jobs.antt =====
-- The server's books and its rest, with two workers and one scheduler.
use pronto.Prelude.{
  ℕ, zero, suc, ◌+◌, ◌≤◌, ◌≡◌, ◌⊎◌, refl, some, List, [], ◌∷◌, length, total, arith,
}
use pronto.PrioQueue.Order.{insert_job, take_job}
use pronto.Cluster.{
  best_current_fit, fit_loop, consider, is_schedulable, any_holds, add_job, reserve_capacity,
  add_worker_job,
}
use pronto.Cluster.Capacity.{IsBalanced}
use pronto.Threads.{scheduler_move, rescheduler_move, dispatcher_move, dispatcher_fail, post_worker}
use pronto.System.{
  System, start, Event, scheduler, dispatcher, fail_post, schedule, post_notify, stuck, step, Reach,
  started,
}
use pronto.System.Conservation.{in_flight, accepted, sent, dropped, along, run-jobs}
use pronto.System.Books.{Reach-IsBalanced}
use pronto.System.Rest.{brings, remaining}
use pronto.System.Idle.{IsIdle, run-idle}
use pronto.System.Settle.{CanMove, run-length, Reach-settles}
use pronto.System.Runs.{run, state_or, Reach-run}

abbrev pub after : List Event → System
after es = state_or (start 2 1) (run (start 2 1) es)

-- A job of 7 units goes all the way to its worker.
abbrev pub delivered : List Event
delivered =
    schedule 7
    ∷ post_notify
    ∷ scheduler 0
    ∷ scheduler 0
    ∷ scheduler 0
    ∷ scheduler 0
    ∷ scheduler 0
    ∷ scheduler 0
    ∷ dispatcher 0
    ∷ dispatcher 0
    ∷ dispatcher 0
    ∷ []

delivered-run : run (start 2 1) delivered ≡ some (after delivered)
unfolding run step start is_schedulable any_holds add_job insert_job take_job scheduler_move
    best_current_fit fit_loop consider reserve_capacity add_worker_job post_worker dispatcher_move
delivered-run = refl

same_size : ℕ → ℕ
same_size v = v

run-jobs_example :
    along (accepted same_size) (start 2 1) delivered
    ≡ along (sent same_size) (start 2 1) delivered
      + along (dropped same_size) (start 2 1) delivered
      + in_flight same_size (after delivered)
run-jobs_example = run-jobs same_size 2 1 delivered (after delivered) delivered-run

-- A job whose POST fails is dropped: it is neither sent nor anywhere in the server.
abbrev failed : List Event
failed =
    schedule 7
    ∷ post_notify
    ∷ scheduler 0
    ∷ scheduler 0
    ∷ scheduler 0
    ∷ scheduler 0
    ∷ scheduler 0
    ∷ scheduler 0
    ∷ dispatcher 0
    ∷ dispatcher 0
    ∷ fail_post 0
    ∷ []

failed_drops :
    (along (sent same_size) (start 2 1) failed ≡ 0)
    × (along (dropped same_size) (start 2 1) failed ≡ 7)
    × (in_flight same_size (after failed) ≡ 0)
unfolding along step is_schedulable start any_holds scheduler_move add_job take_job insert_job
    best_current_fit fit_loop consider reserve_capacity add_worker_job post_worker dispatcher_move
    dispatcher_fail same_size run
failed_drops = (refl, refl, refl)

run-length_example : length delivered ≤ total brings delivered
run-length_example = run-length 2 1 delivered (after delivered) delivered-run

schedulers_wait : (k : ℕ) → step (after delivered) (scheduler k) ≡ stuck
unfolding run step start is_schedulable any_holds add_job insert_job take_job scheduler_move
    best_current_fit fit_loop consider reserve_capacity add_worker_job post_worker dispatcher_move
    rescheduler_move
schedulers_wait zero = refl
schedulers_wait (suc k) = refl

dispatchers_wait : (k : ℕ) → step (after delivered) (dispatcher k) ≡ stuck
unfolding run step start is_schedulable any_holds add_job insert_job take_job scheduler_move
    best_current_fit fit_loop consider reserve_capacity add_worker_job post_worker dispatcher_move
    rescheduler_move
dispatchers_wait zero = refl
dispatchers_wait (suc zero) = refl
dispatchers_wait (suc (suc k)) = refl

delivered-IsIdle : IsIdle (after delivered)
unfolding run step start is_schedulable any_holds add_job insert_job take_job scheduler_move
    best_current_fit fit_loop consider reserve_capacity add_worker_job post_worker dispatcher_move
    rescheduler_move
delivered-IsIdle = record {
  schedulers = schedulers_wait;
  rescheduler = refl;
  dispatchers = dispatchers_wait;
  post_notify = refl;
  post_reschedule = refl;
}

run-idle_example :
    along (accepted same_size) (start 2 1) delivered
    ≡ along (sent same_size) (start 2 1) delivered
      + along (dropped same_size) (start 2 1) delivered
      + total same_size (after delivered).pronto.waiting_queue
run-idle_example =
    run-idle same_size 2 1 delivered (after delivered) (omega arith) delivered-run delivered-IsIdle

-- The state in which the scheduler has chosen a worker, and not yet reserved.
abbrev pub chosen_worker : List Event
chosen_worker = schedule 7 ∷ post_notify ∷ scheduler 0 ∷ scheduler 0 ∷ scheduler 0 ∷ []

pub chosen_worker-Reach : Reach 2 1 (after chosen_worker)
unfolding run step start is_schedulable any_holds add_job insert_job take_job scheduler_move
    best_current_fit fit_loop consider
chosen_worker-Reach = Reach-run (start 2 1) chosen_worker (after chosen_worker) started refl

Reach-IsBalanced_example : IsBalanced (after chosen_worker).pronto
Reach-IsBalanced_example = Reach-IsBalanced (omega arith) chosen_worker-Reach

-- The scheduler goes on to the end of its round.
abbrev finished : List Event
finished = scheduler 0 ∷ scheduler 0 ∷ scheduler 0 ∷ []

abbrev after_finished : System
after_finished = state_or (start 2 1) (run (after chosen_worker) finished)

finished-run : run (after chosen_worker) finished ≡ some after_finished
unfolding run step start is_schedulable any_holds add_job insert_job take_job scheduler_move
    best_current_fit fit_loop consider reserve_capacity add_worker_job post_worker dispatcher_move
finished-run = refl

Reach-settles_example :
    (length finished ≤ remaining (after chosen_worker))
    × (CanMove after_finished ⊎ (IsIdle after_finished × (after_finished.pronto.job_queue ≡ [])))
Reach-settles_example =
    Reach-settles chosen_worker-Reach (omega arith) finished after_finished finished-run refl
