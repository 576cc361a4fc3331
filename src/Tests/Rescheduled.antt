-- ===== src/Tests/Rescheduled.antt =====
-- Three jobs wait for two workers of 15 units, and the rescheduler starts to look.
use pronto.Prelude.{ℕ, List, [], ◌∷◌}
use pronto.Cluster.{Pronto, init}
use pronto.Threads.{looking}
use pronto.System.{System, start, rescheduler}

abbrev waiting_jobs : List ℕ
waiting_jobs = 10 ∷ 12 ∷ 14 ∷ []

abbrev books : Pronto
books = record (init 2 1) { waiting_queue = waiting_jobs }

abbrev ready : System
ready = record (start 2 1) { pronto = books; rescheduler = looking }
