-- ===== src/System/Rest.antt =====
-- The moves that the threads can make on their own are bounded by what requests have brought.
use pronto.Prelude.{
  ℕ, zero, suc, ◌+◌, ◌*◌, ◌≤◌, ◌<◌, ◌≡◌, refl, Option, none, some, List, [], ◌∷◌, arith, get_elem?,
  total, total-set, Bool-cases, inl, inr, some-injective, length,
}
use pronto.Word.{u32}
use pronto.Cluster.{Pronto, is_schedulable, add_job, free_capacity}
use pronto.Threads.{
  SchedulerPc, scheduler_move, holds_waiting, rescheduler_move, DispatcherPc, dispatcher_move,
}
use pronto.Threads.Effort.{
  effort, scheduler_effort, rescheduler_effort, dispatcher_effort, free-effort,
  scheduler_move-effort, rescheduler_move-effort, dispatcher_move-effort,
}
use pronto.System.{
  System, Event, scheduler, rescheduler, dispatcher, fail_post, schedule, post_notify, done,
  post_reschedule, next, step_scheduler, step_dispatcher, step_schedule, step_done,
  step_post_notify, step_post_reschedule, step,
}
use pronto.System.Fails.{fail-dispatcher}
use pronto.System.Conservation.{resume-inv, next_injective}
use pronto.System.Runs.{run, next-cases}

-- A bound on the moves that are left before every thread waits.
abbrev pub remaining : System → ℕ
remaining s =
    effort s.pronto
    + 12 * s.posting
    + 4 * s.freeing
    + total scheduler_effort s.schedulers
    + rescheduler_effort s.rescheduler
    + total dispatcher_effort s.dispatchers

-- What a request brings; a thread's own move brings nothing.
abbrev pub brings : Event → ℕ
brings (schedule qty) = 13
brings (done i qty) = 5
brings _ = 0

module _ (s t : System) where
  scheduler-remaining :
      (k : ℕ) (o : Option SchedulerPc)
      → get_elem? s.schedulers k ≡ o
      → step_scheduler s k o ≡ next t
      → remaining t < remaining s
  unfolding step_scheduler
  scheduler-remaining k none at run = cc
  scheduler-remaining k (some pc) at run =
      let (q, pc', moved, e) =
        resume-inv (scheduler_move s.pronto (holds_waiting s.rescheduler) pc) _ t run in
      let m = scheduler_move-effort s.pronto _ pc moved in
      rw (e) (omega (arith, m, total-set scheduler_effort s.schedulers k pc' pc at))

  dispatcher-remaining :
      (k : ℕ) (o : Option DispatcherPc)
      → get_elem? s.dispatchers k ≡ o
      → step_dispatcher s k o ≡ next t
      → remaining t < remaining s
  unfolding step_dispatcher
  dispatcher-remaining k none at run = cc
  dispatcher-remaining k (some pc) at run =
      let (q, pc', moved, e) = resume-inv (dispatcher_move s.pronto k pc) _ t run in
      let m = dispatcher_move-effort s.pronto k pc moved in
      rw (e) (omega (arith, m, total-set dispatcher_effort s.dispatchers k pc' pc at))

  post_notify-remaining :
      (n : ℕ) → s.posting ≡ n → step_post_notify s n ≡ next t → remaining t < remaining s
  post_notify-remaining zero e run = cc
  post_notify-remaining (suc n) e run = rw (← next_injective run) (omega arith)

  post_reschedule-remaining :
      (n : ℕ) → s.freeing ≡ n → step_post_reschedule s n ≡ next t → remaining t < remaining s
  post_reschedule-remaining zero e run = cc
  post_reschedule-remaining (suc n) e run = rw (← next_injective run) (omega arith)

  done-remaining :
      (i qty : ℕ) (o : Option Pronto)
      → free_capacity s.pronto i qty ≡ o
      → step_done s o ≡ next t
      → remaining t ≡ remaining s + 4
  done-remaining i qty none freed run = cc
  done-remaining i qty (some p) freed run =
      let e = free-effort s.pronto i qty freed in rw (← next_injective run) (omega (arith, e))

  pub step-remaining : (e : Event) → step s e ≡ next t → remaining t < remaining s + brings e
  unfolding step step_schedule add_job
  step-remaining (scheduler k) run =
      let e = scheduler-remaining k (get_elem? s.schedulers k) refl run in omega (arith, e)
  step-remaining rescheduler run =
      let (q, pc', moved, e) = resume-inv (rescheduler_move s.pronto s.rescheduler) _ t run in
      let m = rescheduler_move-effort s.pronto s.rescheduler moved in rw (e) (omega (arith, m))
  step-remaining (dispatcher k) run =
      let e = dispatcher-remaining k (get_elem? s.dispatchers k) refl run in omega (arith, e)
  step-remaining (fail_post k) run =
      let ran = fail-dispatcher s t k run in
      let e = dispatcher-remaining k (get_elem? s.dispatchers k) refl ran in omega (arith, e)
  step-remaining (schedule qty) run = elim (Bool-cases (is_schedulable s.pronto (u32 qty))) [
    | inl e ↦ rw (← next_injective (rw (e) at run)) (omega arith)
    | inr e ↦ rw (← next_injective (rw (e) at run)) (omega arith)
  ]
  step-remaining post_notify run =
      let e = post_notify-remaining s.posting refl run in omega (arith, e)
  step-remaining (done i qty) run =
      let e = done-remaining i (u32 qty) (free_capacity s.pronto i (u32 qty)) refl run in
      omega (arith, e)
  step-remaining post_reschedule run =
      let e = post_reschedule-remaining s.freeing refl run in omega (arith, e)

pub run-remaining :
    (s t : System) (es : List Event)
    → run s es ≡ some t
    → length es + remaining t ≤ remaining s + total brings es
unfolding run
run-remaining s t [] ran = rw (some-injective _ _ ran) (omega arith)
run-remaining s t (e ∷ es) ran = elim (next-cases (step s e)) [
  | inl (u, f) ↦
      let one = step-remaining s u e f in
      let rest = run-remaining u t es (rw (f, run) at ran) in omega (arith, one, rest)
  | inr (inl f) ↦ cc (rw (f, run) at ran)
  | inr (inr f) ↦ cc (rw (f, run) at ran)
]
