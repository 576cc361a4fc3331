-- ===== src/System/Rescheduled.antt =====
-- The loop of the rescheduler, from its lock to its `break`, with no other thread in between.
use pronto.Prelude.{ℕ, ◌+◌, ◌*◌, ◌≤◌, ◌≡◌, none, some, List, length, replicate, All}
use pronto.Cluster.{Pronto, best_current_fit}
use pronto.Cluster.Capacity.{IsSound}
use pronto.Threads.{ReschedulerPc, sleeping, looking}
use pronto.System.{System, rescheduler}
use pronto.System.Given.{Gives}
use pronto.System.Runs.{run}

module _ (s : System) where
  -- The rescheduler at `pc`, with the shared state `p`.
  abbrev at_pc : Pronto → ReschedulerPc → System
  at_pc p pc = record s { pronto = p; rescheduler = pc }

  -- The loop from `p` to its end.
  abbrev Rounds : Pronto → List ℕ → Type 0
  Rounds p l =
      (k : ℕ) × (q : Pronto) × (given : List (ℕ × ℕ)) × (run (at_pc p looking)
          (replicate k rescheduler)
        ≡ some (at_pc q sleeping))
      × (k ≤ 4 * length l + 1)
      × Gives p given q
      × IsSound q
      × All (λ v. best_current_fit q v ≡ none) q.waiting_queue
