-- ===== src/System/Given.antt =====
-- What the rescheduler (srv/lib/rescheduler.c) does to the shared state when it gives out a job.
use pronto.Prelude.{
  ℕ, ◌+◌, ◌-◌, ◌≤◌, ◌≡◌, ◌∙◌, some, List, [], ◌∷◌, arith, get_elem?, set, set-set, total-get_elem?,
}
use pronto.PrioQueue.Order.{insert_job}
use pronto.Word.{u32, sub32, sub64}
use pronto.Cluster.{Worker, Pronto, reserved}
use pronto.Cluster.Fit.{IsBestFit}
use pronto.Cluster.Capacity.{IsSound, resources, in_range, after_reserve}
use pronto.Threads.Update.{with_job, with_post}

-- The first job `v` that waits is worker `b`'s, which was `w`, and is notified of it; `rest` still waits.
abbrev pub given_to : Pronto → ℕ → List ℕ → ℕ → Worker → Pronto
given_to p v rest b w = record p {
  waiting_queue = rest;
  current_capacity = p.current_capacity - v;
  workers_instances = set p.workers_instances b (record w {
    current_resources = w.current_resources - v;
    scheduled_jobs = u32 (w.scheduled_jobs + 1);
    scheduler_jobs = insert_job v w.scheduler_jobs;
    notify = w.notify + 1;
  });
}

-- From `p` to `q` the jobs that wait are given out, one after the other and each with its worker: one
-- that has the most left at that time, the first of these in the array.
abbrev pub Gives : Pronto → List (ℕ × ℕ) → Pronto → Type 0
Gives p [] q = q ≡ p
Gives p ((v, b) ∷ given) q =
    (rest : List ℕ) × (w : Worker) × (p.waiting_queue ≡ v ∷ rest)
    × IsBestFit v p.workers_instances b w
    × Gives (given_to p v rest b w) given q

-- The state after the four moves of the rescheduler for a head that fits.
abbrev pub after_gives : Pronto → List ℕ → ℕ → ℕ → Worker → Pronto
after_gives p rest b v w =
    let r = after_reserve (record p { waiting_queue = rest }) b v w in
    let x = with_job v (reserved v w) in
    record r { workers_instances = set (set r.workers_instances b x) b (with_post x) }

-- It is the one that `given_to` describes.
pub gives-given_to :
    (p : Pronto) (rest : List ℕ) (b v : ℕ) (w : Worker)
    → get_elem? p.workers_instances b ≡ some w
    → v ≤ w.current_resources
    → IsSound p
    → after_gives p rest b v w ≡ given_to p v rest b w
gives-given_to p rest b v w at fits sound =
    let ws = p.workers_instances in
    let (fit, small, whole, spare) = in_range p b v w at sound in
    let e : sub32 p.current_capacity v ≡ p.current_capacity - v =
      omega (arith, sound.current, total-get_elem? resources ws b w at) in
    let f : sub64 w.current_resources v ≡ w.current_resources - v = omega arith in
    let booked = reserved v w in
    let same : set (set (set ws b booked) b (with_job v booked)) b (with_post (with_job v booked))
        ≡ set ws b (with_post (with_job v booked)) =
      set-set (set ws b booked) b _ _ ∙ set-set ws b booked _ in
    (λ k. record p { waiting_queue = rest; current_capacity = e k; workers_instances = same k })
    ∙ (λ k. record p {
      waiting_queue = rest;
      current_capacity = p.current_capacity - v;
      workers_instances = set ws b (record w {
        current_resources = f k;
        scheduled_jobs = u32 (w.scheduled_jobs + 1);
        scheduler_jobs = insert_job v w.scheduler_jobs;
        notify = w.notify + 1;
      });
    })
