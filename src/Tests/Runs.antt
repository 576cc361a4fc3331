-- ===== src/Tests/Runs.antt =====
-- Runs of the whole server with two workers and one scheduler.
use pronto.Prelude.{ℕ, ◌≡◌, ◌↔◌, refl, some, List, [], ◌∷◌, get_elem?}
use pronto.PrioQueue.Order.{insert_job, take_job}
use pronto.Cluster.{
  best_current_fit, fit_loop, consider, is_schedulable, any_holds, add_job, add_waiting_job,
  reserve_capacity, add_worker_job, free_capacity, Worker,
}
use pronto.Threads.{scheduler_move, rescheduler_move, post_worker}
use pronto.System.{
  System, start, Event, scheduler, rescheduler, schedule, post_notify, done, post_reschedule, stuck,
  crash, step, Reach, started,
}
use pronto.System.Safety.{IsStray, crash_iff, awake-job}
use pronto.System.Runs.{run, state_or, Reach-run}

abbrev after : List Event → System
after es = state_or (start 2 1) (run (start 2 1) es)

-- A job of 7 units arrives and the scheduler is woken.
abbrev woken : List Event
woken = schedule 7 ∷ post_notify ∷ scheduler 0 ∷ []

woken-Reach : Reach 2 1 (after woken)
unfolding run step start is_schedulable any_holds add_job insert_job scheduler_move
woken-Reach = Reach-run (start 2 1) woken (after woken) started refl

awake-job_example : (v : ℕ) × (rest : List ℕ) × ((after woken).pronto.job_queue ≡ v ∷ rest)
unfolding run step start is_schedulable any_holds add_job insert_job scheduler_move
awake-job_example = awake-job woken-Reach 0 refl

crash_iff_example : (step (after woken) (done 2 7) ≡ crash) ↔ IsStray (after woken) (done 2 7)
crash_iff_example = crash_iff woken-Reach (done 2 7)

-- The scheduler and the rescheduler both choose worker 0, which has 15 units left, before either
-- reserves: with jobs of 10 and 9 units its resources wrap round.
abbrev race : List Event
race =
    -- 15, 15 and 10 units arrive; the first two take a worker each, the third has to wait.
    schedule 15
    ∷ post_notify
    ∷ scheduler 0
    ∷ scheduler 0
    ∷ scheduler 0
    ∷ scheduler 0
    ∷ scheduler 0
    ∷ scheduler 0
    ∷ schedule 15
    ∷ post_notify
    ∷ scheduler 0
    ∷ scheduler 0
    ∷ scheduler 0
    ∷ scheduler 0
    ∷ scheduler 0
    ∷ scheduler 0
    ∷ schedule 10
    ∷ post_notify
    ∷ scheduler 0
    ∷ scheduler 0
    ∷ scheduler 0
    ∷ scheduler 0
    -- Worker 0 is done; the rescheduler picks it for the job of 10.
    ∷ done 0 15
    ∷ post_reschedule
    ∷ rescheduler
    ∷ rescheduler
    ∷ rescheduler
    -- So does the scheduler for a new job of 9; both reserve.
    ∷ schedule 9
    ∷ post_notify
    ∷ scheduler 0
    ∷ scheduler 0
    ∷ scheduler 0
    ∷ rescheduler
    ∷ scheduler 0
    ∷ []

race-wraps :
    (w : Worker) × (get_elem? (after race).pronto.workers_instances 0 ≡ some w)
    × (w.current_resources ≡ 18446744073709551612)
unfolding run step start is_schedulable any_holds add_job insert_job take_job scheduler_move
    best_current_fit fit_loop consider reserve_capacity add_worker_job post_worker rescheduler_move
    free_capacity add_waiting_job
race-wraps = (_, refl, refl)

-- A wake-up is lost: the scheduler finds no worker for a job of 10 units, worker 0 is freed and the
-- rescheduler finds nothing that waits, and only then is the job put into the waiting queue. All
-- threads now wait, with a job that worker 0 could take.
abbrev lost_wakeup : List Event
lost_wakeup =
    schedule 15
    ∷ post_notify
    ∷ scheduler 0
    ∷ scheduler 0
    ∷ scheduler 0
    ∷ scheduler 0
    ∷ scheduler 0
    ∷ scheduler 0
    ∷ schedule 15
    ∷ post_notify
    ∷ scheduler 0
    ∷ scheduler 0
    ∷ scheduler 0
    ∷ scheduler 0
    ∷ scheduler 0
    ∷ scheduler 0
    ∷ schedule 10
    ∷ post_notify
    ∷ scheduler 0
    ∷ scheduler 0
    ∷ scheduler 0
    ∷ done 0 15
    ∷ post_reschedule
    ∷ rescheduler
    ∷ rescheduler
    ∷ rescheduler
    ∷ scheduler 0
    ∷ []

lost_wakeup-waits :
    ((after lost_wakeup).pronto.waiting_queue ≡ 10 ∷ [])
    × (best_current_fit (after lost_wakeup).pronto 10 ≡ some 0)
    × (step (after lost_wakeup) (scheduler 0) ≡ stuck)
    × (step (after lost_wakeup) rescheduler ≡ stuck)
unfolding run step start is_schedulable any_holds add_job insert_job take_job scheduler_move
    best_current_fit fit_loop consider reserve_capacity add_worker_job post_worker rescheduler_move
    free_capacity add_waiting_job
lost_wakeup-waits = (refl, refl, refl, refl)
