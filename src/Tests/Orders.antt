-- ===== src/Tests/Orders.antt =====
-- Both dispatchers have been notified, and move in either order.
use pronto.Prelude.{◌≡◌, refl, [], ◌∷◌, ◌++◌, arith}
use pronto.PrioQueue.Order.{insert_job, take_job}
use pronto.Cluster.{
  best_current_fit, fit_loop, consider, is_schedulable, any_holds, add_job, add_waiting_job,
  reserve_capacity, add_worker_job,
}
use pronto.Threads.{scheduler_move, dispatcher_move, post_worker}
use pronto.System.{System, start, dispatcher, next, step}
use pronto.System.Orders.{dispatchers-commute}
use pronto.System.Runs.{run}
use pronto.Tests.Jobs.{after}
use pronto.Tests.Covered.{crowded}

abbrev first_moved : System
first_moved = after (crowded ++ dispatcher 0 ∷ [])

abbrev other_moved : System
other_moved = after (crowded ++ dispatcher 1 ∷ [])

first_move : step (after crowded) (dispatcher 0) ≡ next first_moved
unfolding run step start is_schedulable any_holds add_job insert_job take_job scheduler_move
    best_current_fit fit_loop consider reserve_capacity add_worker_job add_waiting_job post_worker
    dispatcher_move
first_move = refl

second_move : step (after crowded) (dispatcher 1) ≡ next other_moved
unfolding run step start is_schedulable any_holds add_job insert_job take_job scheduler_move
    best_current_fit fit_loop consider reserve_capacity add_worker_job add_waiting_job post_worker
    dispatcher_move
second_move = refl

dispatchers-commute_example :
    (u : System) × (step first_moved (dispatcher 1) ≡ next u)
    × (step other_moved (dispatcher 0) ≡ next u)
dispatchers-commute_example =
    dispatchers-commute (after crowded) first_moved other_moved 0 1 (ground arith) first_move
      second_move
