-- ===== src/System/Invariant.antt =====
-- What holds between any two moves: the semaphores count the queues, and every thread's worker
-- exists.
use pronto.Prelude.{ℕ, ◌+◌, ◌≡◌, some, get_elem?, length, total, All}
use pronto.Cluster.{Worker}
use pronto.Threads.{DispatcherPc}
use pronto.Threads.Posts.{owes_job, owes_post, reowes_post, owes_take}
use pronto.Threads.Safe.{InRange, ReInRange}
use pronto.System.{System}

-- The counts of worker `i`: posts made and on their way match the jobs in its queue.
abbrev pub IsPosted : System → Type 0
IsPosted s =
    (i : ℕ) (w : Worker) (d : DispatcherPc)
    → get_elem? s.pronto.workers_instances i ≡ some w
    → get_elem? s.dispatchers i ≡ some d
    → w.notify + owes_take d + total (owes_post i) s.schedulers + reowes_post i s.rescheduler
      ≡ length w.scheduler_jobs

pub record Inv (s : System) : Type 0 where
  pub dispatched : length s.dispatchers ≡ length s.pronto.workers_instances
  pub in_range : All (InRange (length s.pronto.workers_instances)) s.schedulers
  pub re_in_range : ReInRange (length s.pronto.workers_instances) s.rescheduler
  pub notified :
      s.pronto.notify + total owes_job s.schedulers + s.posting ≡ length s.pronto.job_queue
  pub posted : IsPosted s
