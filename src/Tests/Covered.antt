-- ===== src/Tests/Covered.antt =====
-- Three jobs of 10 units for two workers of 15: the third one waits.
use pronto.Prelude.{
  ◌+◌, ◌≤◌, ◌++◌, total, ℕ, ◌≡◌, ◌⊎◌, refl, zero, suc, some, List, [], ◌∷◌, All, arith, get_elem?,
}
use pronto.PrioQueue.Order.{insert_job, take_job}
use pronto.Cluster.{
  best_current_fit, fit_loop, consider, is_schedulable, any_holds, add_job, add_waiting_job,
  reserve_capacity, add_worker_job,
}
use pronto.Cluster.Capacity.{IsSound}
use pronto.Threads.{chosen, scheduler_move, dispatcher_move, post_worker}
use pronto.Threads.Covered.{HasRoom, Waits}
use pronto.System.Conservation.{along, accepted, sent, dropped}
use pronto.System.Delivered.{run-delivers}
use pronto.System.Idle.{IsIdle}
use pronto.System.Rest.{remaining}
use pronto.System.Settle.{CanMove}
use pronto.System.{System, start, Event, scheduler, dispatcher, schedule, post_notify, step}
use pronto.System.Covered.{IsUnreported, run-covered}
use pronto.System.Runs.{run}
use pronto.Tests.Jobs.{after}

abbrev steps : ℕ → List Event → List Event
steps zero es = es
steps (suc n) es = scheduler 0 ∷ steps n es

-- A job comes in, and the scheduler makes `n` moves.
abbrev job : ℕ → List Event → List Event
job n es = schedule 10 ∷ post_notify ∷ steps n es

abbrev pub crowded : List Event
crowded = job 6 (job 6 (job 4 []))

crowded-run :
    (run (start 2 1) crowded ≡ some (after crowded))
    × ((after crowded).pronto.waiting_queue ≡ 10 ∷ [])
unfolding run step start is_schedulable any_holds add_job insert_job take_job scheduler_move
    best_current_fit fit_loop consider reserve_capacity add_worker_job add_waiting_job post_worker
crowded-run = (refl, refl)

-- Every event is one of the allowed ones.
unreported : (n : ℕ) (es : List Event) → All IsUnreported es → All IsUnreported (steps n es)
unreported zero es h = h
unreported (suc n) es h = (tt, unreported n es h)

crowded-IsUnreported : All IsUnreported crowded
crowded-IsUnreported = one 6 (job 6 (job 4 [])) (one 6 (job 4 []) (one 4 [] tt))
  where
    one : (n : ℕ) (es : List Event) → All IsUnreported es → All IsUnreported (job n es)
    one n es h = (tt, (tt, unreported n es h))

run-covered_example :
    IsSound (after crowded).pronto
    × ((k v b : ℕ)
        → get_elem? (after crowded).schedulers k ≡ some (chosen v b)
        → HasRoom (after crowded).pronto b v)
    × Waits (after crowded).pronto
run-covered_example =
    run-covered 2 crowded (after crowded) (omega arith) crowded-IsUnreported crowded-run.0

same_size : ℕ → ℕ
same_size v = v

abbrev resting : System
resting = after (crowded ++ dispatcher 0 ∷ [])

resting-run : run (after crowded) (dispatcher 0 ∷ []) ≡ some resting
unfolding run step start is_schedulable any_holds add_job insert_job take_job scheduler_move
    best_current_fit fit_loop consider reserve_capacity add_worker_job add_waiting_job post_worker
    dispatcher_move
resting-run = refl

run-delivers_example :
    (1 ≤ remaining (after crowded))
    × (CanMove resting
        ⊎ (IsIdle resting
            × (along (accepted same_size) (start 2 1) (crowded ++ dispatcher 0 ∷ [])
                ≡ along (sent same_size) (start 2 1) (crowded ++ dispatcher 0 ∷ [])
                  + along (dropped same_size) (start 2 1) (crowded ++ dispatcher 0 ∷ [])
                  + total same_size resting.pronto.waiting_queue)
            × Waits resting.pronto))
run-delivers_example =
    run-delivers same_size 2 crowded (after crowded) (omega arith) crowded-IsUnreported
      crowded-run.0 (dispatcher 0 ∷ []) resting resting-run refl
