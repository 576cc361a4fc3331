-- ===== src/System/Idle.antt =====
-- The states in which every thread waits, and what they leave undone.
use pronto.Prelude.{
  ℕ, zero, suc, ◌+◌, ◌≤◌, ◌≡◌, refl, sym, ap, some, List, [], ◌∷◌, arith, get_elem?, total,
  some-injective, length, get_elem?-lt, ◌∙◌,
}
use pronto.Cluster.{Worker, Pronto}
use pronto.Threads.{Move, go, blocked, fault, SchedulerPc, waiting, sleeping, DispatcherPc, idle}
use pronto.Threads.Blocked.{scheduler-blocked, rescheduler-blocked, dispatcher-blocked}
use pronto.Threads.Posts.{owes_job, owes_post}
use pronto.Threads.Stored.{jobs_of, carried, di_carried, stored}
use pronto.System.{
  System, start, Event, scheduler, rescheduler, dispatcher, post_notify, post_reschedule, stuck,
  resume, step_scheduler, step_dispatcher, step_post_notify, step, Reach, started,
}
use pronto.System.Invariant.{Inv}
use pronto.System.Count.{Reach-schedulers}
use pronto.System.Steps.{get_elem?-some}
use pronto.System.Safety.{Reach-Inv}
use pronto.System.Conservation.{in_flight, along, accepted, sent, dropped, run-jobs}
use pronto.System.Runs.{run, Reach-run}

-- No thread of the server can go on; handlers have made their posts.
pub record IsIdle (s : System) : Type 0 where
  pub schedulers : (k : ℕ) → (step s (scheduler k) ≡ stuck)
  pub rescheduler : step s rescheduler ≡ stuck
  pub dispatchers : (k : ℕ) → (step s (dispatcher k) ≡ stuck)
  pub post_notify : step s post_notify ≡ stuck
  pub post_reschedule : step s post_reschedule ≡ stuck

resume-stuck :
    {A : Type 0} (m : Move A) (k : Pronto → A → System) → resume m k ≡ stuck → m ≡ blocked
resume-stuck (go q a) k h = cc
resume-stuck blocked k h = refl
resume-stuck fault k h = cc

total-all :
    {A : Type 0} (g : A → ℕ) (xs : List A)
    → ((k : ℕ) (a : A) → get_elem? xs k ≡ some a → g a ≡ 0)
    → total g xs ≡ 0
total-all g [] h = refl
total-all g (a ∷ xs) h = omega (arith, h 0 a refl, total-all g xs (λ k b at. h (suc k) b at))

total-nil : {A : Type 0} (g : A → ℕ) (xs : List A) → length xs ≡ 0 → total g xs ≡ 0
total-nil g [] h = refl
total-nil g (a ∷ xs) h = absurd (omega arith)

pub length-nil : {A : Type 0} (xs : List A) → length xs ≡ 0 → xs ≡ []
length-nil [] h = refl
length-nil (a ∷ xs) h = absurd (omega arith)

module _ (s : System) (i : IsIdle s) where
  pub asleep : s.rescheduler ≡ sleeping
  unfolding step
  asleep = rescheduler-blocked s.pronto s.rescheduler (resume-stuck _ _ i.rescheduler)

  scheduler-waits :
      (k : ℕ) (pc : SchedulerPc)
      → get_elem? s.schedulers k ≡ some pc
      → (pc ≡ waiting) × (s.pronto.notify ≡ 0)
  unfolding step step_scheduler
  scheduler-waits k pc at =
      scheduler-blocked s.pronto pc
        (rw (asleep) at (resume-stuck _ _ (rw (at) at (i.schedulers k))))

  pub dispatcher-waits :
      (k : ℕ) (pc : DispatcherPc)
      → get_elem? s.dispatchers k ≡ some pc
      → (pc ≡ idle)
        × ((x : Worker) × (get_elem? s.pronto.workers_instances k ≡ some x) × (x.notify ≡ 0))
  unfolding step step_dispatcher
  dispatcher-waits k pc at =
      dispatcher-blocked s.pronto k pc (resume-stuck _ _ (rw (at) at (i.dispatchers k)))

  posted : s.posting ≡ 0
  unfolding step
  posted = none_left s.posting refl i.post_notify
    where
      none_left : (n : ℕ) → s.posting ≡ n → step_post_notify s n ≡ stuck → s.posting ≡ 0
      none_left zero e h = e
      none_left (suc n) e h = cc

  carried-none : (w : ℕ → ℕ) → total (carried w) s.schedulers ≡ 0
  carried-none w =
      total-all (carried w) s.schedulers (λ k pc at. rw ((scheduler-waits k pc at).0) refl)

  di_carried-none : (w : ℕ → ℕ) → total (di_carried w) s.dispatchers ≡ 0
  di_carried-none w =
      total-all (di_carried w) s.dispatchers (λ k pc at. rw ((dispatcher-waits k pc at).0) refl)

  pub owes-none : (g : SchedulerPc → ℕ) → g waiting ≡ 0 → total g s.schedulers ≡ 0
  owes-none g e = total-all g s.schedulers (λ k pc at. rw ((scheduler-waits k pc at).0) e)

  no_count : 1 ≤ length s.schedulers → s.pronto.notify ≡ 0
  no_count h = let (pc, at) = get_elem?-lt s.schedulers 0 h in (scheduler-waits 0 pc at).1

  module _ (inv : Inv s) where
    queue-empty : 1 ≤ length s.schedulers → length s.pronto.job_queue ≡ 0
    queue-empty h = omega (arith, inv.notified, no_count h, owes-none owes_job refl, posted)

    pub worker-empty :
        (k : ℕ) (x : Worker)
        → get_elem? s.pronto.workers_instances k ≡ some x
        → length x.scheduler_jobs ≡ 0
    worker-empty k x at =
        let (d, on) =
          get_elem?-lt s.dispatchers k
            (omega (arith, inv.dispatched, get_elem?-some s.pronto.workers_instances k x at)) in
        let (e, there) = dispatcher-waits k d on in
        let (y, at', quiet) = there in
        let same : x ≡ y = some-injective _ _ (sym at ∙ at') in
        let count = inv.posted k x d at on in
        let none_owed = owes-none (owes_post k) refl in
        omega (arith, rw (e, asleep) at count, none_owed, ap (λ x. x.notify) same, quiet)

    stored-idle :
        (w : ℕ → ℕ) → 1 ≤ length s.schedulers → stored w s.pronto ≡ total w s.pronto.waiting_queue
    stored-idle w h = omega (
      arith,
      total-nil w s.pronto.job_queue (queue-empty h),
      total-all (jobs_of w) s.pronto.workers_instances
          (λ k x at. total-nil w x.scheduler_jobs (worker-empty k x at)),
    )

    in_flight-idle :
        (w : ℕ → ℕ) → 1 ≤ length s.schedulers → in_flight w s ≡ total w s.pronto.waiting_queue
    in_flight-idle w h =
        rw (asleep) (omega (arith, stored-idle w h, carried-none w, di_carried-none w))

-- When no thread can go on, whatever the order of the moves was: with at least one scheduler, the job
-- queue is empty.
pub IsIdle-job_queue :
    {n m : ℕ} {s : System} → Reach n m s → 1 ≤ m → IsIdle s → s.pronto.job_queue ≡ []
IsIdle-job_queue {s} r h i =
    length-nil s.pronto.job_queue
      (queue-empty s i (Reach-Inv r) (omega (arith, Reach-schedulers r)))

-- Once no thread can go on, whatever the order of the moves was, every accepted job has been sent to
-- its worker by a POST that was answered, was dropped because its POST was not made or failed, or is in
-- the waiting queue: the weights of these add up, for every weight of a request.
pub run-idle :
    (w : ℕ → ℕ) (n m : ℕ) (es : List Event) (t : System)
    → 1 ≤ m
    → run (start n m) es ≡ some t
    → IsIdle t
    → along (accepted w) (start n m) es
      ≡ along (sent w) (start n m) es
        + along (dropped w) (start n m) es
        + total w t.pronto.waiting_queue
run-idle w n m es t h ran i =
    let r = Reach-run (start n m) es t started ran in
    omega (
      arith,
      run-jobs w n m es t ran,
      in_flight-idle t i (Reach-Inv r) w (omega (arith, Reach-schedulers r)),
    )
