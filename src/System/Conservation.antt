-- ===== src/System/Conservation.antt =====
-- No job is lost or made twice between its acceptance and the POST of its dispatcher.
use pronto.Prelude.{
  ℕ, zero, suc, ◌+◌, ◌≡◌, refl, sym, Option, none, some, List, [], ◌∷◌, arith, get_elem?, total,
  total-set, replicate, Bool-cases, inl, inr, some-injective, if◌then◌else◌,
}
use pronto.Word.{u32}
use pronto.PrioQueue.Order.{total-insert_job}
use pronto.Cluster.{Pronto, init_worker, init_workers, is_schedulable, add_job, free_capacity}
use pronto.Threads.{
  Move, go, blocked, fault, SchedulerPc, waiting, scheduler_move, holds_waiting, rescheduler_move,
  DispatcherPc, idle, dispatcher_move,
}
use pronto.Threads.Stored.{
  jobs_of, stored, carried, re_carried, di_carried, scheduler_move-stored, rescheduler_move-stored,
  dispatcher_move-stored, free-stored,
}
use pronto.System.{
  System, start, Event, scheduler, rescheduler, dispatcher, fail_post, schedule, post_notify, done,
  post_reschedule, next, stuck, crash, resume, step_scheduler, step_dispatcher, step_schedule,
  step_done, step_post_notify, step_post_reschedule, step,
}
use pronto.System.Fails.{fail-dispatcher}
use pronto.System.Runs.{run, next-cases}

pub next_injective : {s t : System} → next s ≡ next t → s ≡ t
next_injective h = cc

pub resume-inv :
    {A : Type 0} (m : Move A) (k : Pronto → A → System) (t : System)
    → resume m k ≡ next t
    → (q : Pronto) × (a : A) × (m ≡ go q a) × (t ≡ k q a)
resume-inv (go q a) k t h = (q, a, refl, sym (next_injective h))
resume-inv blocked k t h = cc
resume-inv fault k t h = cc

module _ (w : ℕ → ℕ) where
  -- The weight of all jobs in the server: in queues, and in the hands of threads.
  abbrev pub in_flight : System → ℕ
  in_flight s =
      stored w s.pronto
      + total (carried w) s.schedulers
      + re_carried w s.rescheduler
      + total (di_carried w) s.dispatchers

  -- What an event brings in, and what it takes out: the job of a dispatcher whose POST is answered, and
  -- the job of one whose POST is not made or fails, which is lost.
  abbrev pub accepted : System → Event → ℕ
  accepted s (schedule qty) = if is_schedulable s.pronto (u32 qty) then w (u32 qty) else 0
  accepted s _ = 0

  abbrev pub sent_by : Option DispatcherPc → ℕ
  sent_by none = 0
  sent_by (some pc) = di_carried w pc

  abbrev pub sent : System → Event → ℕ
  sent s (dispatcher k) = sent_by (get_elem? s.dispatchers k)
  sent s _ = 0

  abbrev pub dropped : System → Event → ℕ
  dropped s (fail_post k) = sent_by (get_elem? s.dispatchers k)
  dropped s _ = 0

  -- The weight before and after a step.
  abbrev Conserves : System → Event → System → Type 0
  Conserves s e t = in_flight t + (sent s e + dropped s e) ≡ in_flight s + accepted s e

  scheduler-conserves :
      (s t : System) (k : ℕ) (o : Option SchedulerPc)
      → get_elem? s.schedulers k ≡ o
      → step_scheduler s k o ≡ next t
      → in_flight t ≡ in_flight s
  unfolding step_scheduler
  scheduler-conserves s t k none at run = cc
  scheduler-conserves s t k (some pc) at run =
      let (q, pc', moved, e) =
        resume-inv (scheduler_move s.pronto (holds_waiting s.rescheduler) pc) _ t run in
      let m = scheduler_move-stored w s.pronto _ pc moved in
      rw (e) (omega (arith, m, total-set (carried w) s.schedulers k pc' pc at))

  dispatcher-conserves :
      (s t : System) (k : ℕ) (o : Option DispatcherPc)
      → get_elem? s.dispatchers k ≡ o
      → step_dispatcher s k o ≡ next t
      → in_flight t + sent_by o ≡ in_flight s
  unfolding step_dispatcher
  dispatcher-conserves s t k none at run = cc
  dispatcher-conserves s t k (some pc) at run =
      let (q, pc', moved, e) = resume-inv (dispatcher_move s.pronto k pc) _ t run in
      let m = dispatcher_move-stored w s.pronto k pc moved in
      rw (e) (omega (arith, m, total-set (di_carried w) s.dispatchers k pc' pc at))

  post_notify-conserves :
      (s t : System) (n : ℕ) → step_post_notify s n ≡ next t → in_flight t ≡ in_flight s
  post_notify-conserves s t zero run = cc
  post_notify-conserves s t (suc n) run = rw (← next_injective run) refl

  post_reschedule-conserves :
      (s t : System) (n : ℕ) → step_post_reschedule s n ≡ next t → in_flight t ≡ in_flight s
  post_reschedule-conserves s t zero run = cc
  post_reschedule-conserves s t (suc n) run = rw (← next_injective run) refl

  done-conserves :
      (s t : System) (i qty : ℕ) (o : Option Pronto)
      → free_capacity s.pronto i qty ≡ o
      → step_done s o ≡ next t
      → in_flight t ≡ in_flight s
  done-conserves s t i qty none freed run = cc
  done-conserves s t i qty (some p) freed run =
      let e = free-stored w s.pronto i qty freed in rw (← next_injective run) (omega (arith, e))

  pub step-Conserves : (s t : System) (e : Event) → step s e ≡ next t → Conserves s e t
  unfolding step step_schedule add_job
  step-Conserves s t (scheduler k) run =
      let e = scheduler-conserves s t k (get_elem? s.schedulers k) refl run in omega (arith, e)
  step-Conserves s t rescheduler run =
      let (q, pc', moved, e) = resume-inv (rescheduler_move s.pronto s.rescheduler) _ t run in
      let m = rescheduler_move-stored w s.pronto s.rescheduler moved in rw (e) (omega (arith, m))
  step-Conserves s t (dispatcher k) run =
      let e = dispatcher-conserves s t k (get_elem? s.dispatchers k) refl run in omega (arith, e)
  step-Conserves s t (fail_post k) run =
      let ran = fail-dispatcher s t k run in
      let e = dispatcher-conserves s t k (get_elem? s.dispatchers k) refl ran in omega (arith, e)
  step-Conserves s t (schedule qty) run = elim (Bool-cases (is_schedulable s.pronto (u32 qty))) [
    | inl e ↦
        rw (← next_injective (rw (e) at run), e)
          (omega (arith, total-insert_job w (u32 qty) s.pronto.job_queue))
    | inr e ↦ rw (← next_injective (rw (e) at run), e) refl
  ]
  step-Conserves s t post_notify run =
      let e = post_notify-conserves s t s.posting run in omega (arith, e)
  step-Conserves s t (done i qty) run =
      let e = done-conserves s t i (u32 qty) (free_capacity s.pronto i (u32 qty)) refl run in
      omega (arith, e)
  step-Conserves s t post_reschedule run =
      let e = post_reschedule-conserves s t s.freeing run in omega (arith, e)

-- The sum of a number of each step along a run.
unfoldable pub along : (System → Event → ℕ) → System → List Event → ℕ
along g s [] = 0
along g s (e ∷ es) = g s e + (elim (step s e) [ next t ↦ along g t es | stuck ↦ 0 | crash ↦ 0 ])

run-conserves :
    (w : ℕ → ℕ) (s t : System) (es : List Event)
    → run s es ≡ some t
    → in_flight w t + (along (sent w) s es + along (dropped w) s es)
      ≡ in_flight w s + along (accepted w) s es
unfolding run along
run-conserves w s t [] ran = rw (some-injective _ _ ran) refl
run-conserves w s t (e ∷ es) ran = elim (next-cases (step s e)) [
  | inl (u, f) ↦
      let one = step-Conserves w s u e f in
      let rest = run-conserves w u t es (rw (f, run) at ran) in
      rw (f, along) (omega (arith, one, rest))
  | inr (inl f) ↦ cc (rw (f, run) at ran)
  | inr (inr f) ↦ cc (rw (f, run) at ran)
]

pub total-idle : {A : Type 0} (g : A → ℕ) (a : A) (n : ℕ) → g a ≡ 0 → total g (replicate n a) ≡ 0
total-idle g a zero e = refl
total-idle g a (suc n) e = omega (arith, total-idle g a n e)

jobs_of-start : (w : ℕ → ℕ) (n j : ℕ) → total (jobs_of w) (init_workers n j) ≡ 0
unfolding init_workers init_worker
jobs_of-start w zero j = refl
jobs_of-start w (suc n) j = omega (arith, jobs_of-start w n (suc j))

pub start-empty : (w : ℕ → ℕ) (n m : ℕ) → in_flight w (start n m) ≡ 0
unfolding start
start-empty w n m = omega (
  arith,
  jobs_of-start w n 0,
  total-idle (carried w) waiting m refl,
  total-idle (di_carried w) idle n refl,
)

-- Over any run of the server, in any order of its threads, and for every weight of a request (so for
-- the number of the jobs of each size): what was accepted is what dispatchers have sent by a POST that
-- was answered, what was dropped because a dispatcher's POST was not made or failed, and what is in a
-- queue or in the hands of a thread. No job is lost in another way, and none is made twice.
pub run-jobs :
    (w : ℕ → ℕ) (n m : ℕ) (es : List Event) (t : System)
    → run (start n m) es ≡ some t
    → along (accepted w) (start n m) es
      ≡ along (sent w) (start n m) es + along (dropped w) (start n m) es + in_flight w t
run-jobs w n m es t ran = omega (arith, run-conserves w (start n m) t es ran, start-empty w n m)
