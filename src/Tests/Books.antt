-- ===== src/Tests/Books.antt =====
-- The books of pronto.c at the configured cluster: two workers of 15 units.
use pronto.Prelude.{ℕ, ◌<◌, ◌≡◌, ◌⊎◌, ◌↔◌, refl, true, false, none, some, arith, All}
use pronto.Cluster.{
  Worker, Pronto, cluster_workers, num_schedulers, init_worker, init, is_schedulable,
  best_current_fit, free_capacity, reserve_capacity,
}
use pronto.Cluster.Capacity.{free-reserve}
use pronto.Cluster.Fit.{IsBestFit}
use pronto.Cluster.Schedulable.{Holder, is_schedulable_iff, init-IsSound}
use pronto.Threads.Fits.{best_current_fit_sound}

abbrev cluster : Pronto
cluster = init cluster_workers num_schedulers

best_current_fit_sound_example :
    ((best_current_fit cluster 4 ≡ none)
      × All (λ w. w.current_resources < 4) cluster.workers_instances)
    ⊎ ((k : ℕ) × (w : Worker) × (best_current_fit cluster 4 ≡ some k)
        × IsBestFit 4 cluster.workers_instances k w)
best_current_fit_sound_example =
    best_current_fit_sound cluster 4 (init-IsSound cluster_workers num_schedulers (omega arith))

is_schedulable_iff_example :
    (is_schedulable cluster 15 ≡ true)
    ↔ ((15 < cluster.total_capacity) × Holder 15 cluster.workers_instances)
unfolding init
is_schedulable_iff_example = is_schedulable_iff cluster 15 (omega arith) (omega arith)

-- A cluster of one worker refuses a job that the worker could hold.
one_worker : is_schedulable (init 1 1) 15 ≡ false
unfolding is_schedulable init
one_worker = refl

free-reserve_example :
    (q : Pronto) × (reserve_capacity cluster 1 6 ≡ some q) × (free_capacity q 1 6 ≡ some cluster)
unfolding init
free-reserve_example =
    free-reserve cluster 1 6 (init_worker 1 3000) refl
      (init-IsSound cluster_workers num_schedulers (omega arith)) (omega arith) (omega arith)
