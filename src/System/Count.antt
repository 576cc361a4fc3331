-- ===== src/System/Count.antt =====
-- The number of schedulers does not change.
use pronto.Prelude.{
  ℕ, zero, suc, ◌≡◌, refl, ap, ◌∙◌, Option, none, some, length, length-set, replicate, Bool-cases,
  inl, inr,
}
use pronto.Word.{u32}
use pronto.Cluster.{Pronto, is_schedulable}
use pronto.Threads.{
  SchedulerPc, waiting, scheduler_move, holds_waiting, rescheduler_move, DispatcherPc,
  dispatcher_move,
}
use pronto.System.{
  System, start, Event, scheduler, rescheduler, dispatcher, fail_post, schedule, post_notify, done,
  post_reschedule, next, step_scheduler, step_dispatcher, step_schedule, step_done,
  step_post_notify, step_post_reschedule, step, Reach, started, later,
}
use pronto.System.Fails.{fail-dispatcher}
use pronto.System.Conservation.{resume-inv, next_injective}

module _ (s t : System) where
  scheduler-length :
      (k : ℕ) (o : Option SchedulerPc)
      → step_scheduler s k o ≡ next t
      → length t.schedulers ≡ length s.schedulers
  unfolding step_scheduler
  scheduler-length k none run = cc
  scheduler-length k (some pc) run =
      let (q, pc', moved, e) =
        resume-inv (scheduler_move s.pronto (holds_waiting s.rescheduler) pc) _ t run in
      rw (e) (length-set s.schedulers k pc')

  dispatcher-length :
      (k : ℕ) (o : Option DispatcherPc)
      → step_dispatcher s k o ≡ next t
      → length t.schedulers ≡ length s.schedulers
  unfolding step_dispatcher
  dispatcher-length k none run = cc
  dispatcher-length k (some pc) run =
      let (q, pc', moved, e) = resume-inv (dispatcher_move s.pronto k pc) _ t run in rw (e) refl

  post_notify-length :
      (n : ℕ) → step_post_notify s n ≡ next t → length t.schedulers ≡ length s.schedulers
  post_notify-length zero run = cc
  post_notify-length (suc n) run = rw (← next_injective run) refl

  post_reschedule-length :
      (n : ℕ) → step_post_reschedule s n ≡ next t → length t.schedulers ≡ length s.schedulers
  post_reschedule-length zero run = cc
  post_reschedule-length (suc n) run = rw (← next_injective run) refl

  done-length :
      (o : Option Pronto) → step_done s o ≡ next t → length t.schedulers ≡ length s.schedulers
  done-length none run = cc
  done-length (some p) run = rw (← next_injective run) refl

  pub step-length : (e : Event) → step s e ≡ next t → length t.schedulers ≡ length s.schedulers
  unfolding step step_schedule
  step-length (scheduler k) run = scheduler-length k _ run
  step-length rescheduler run =
      let (q, pc', moved, e) = resume-inv (rescheduler_move s.pronto s.rescheduler) _ t run in
      rw (e) refl
  step-length (dispatcher k) run = dispatcher-length k _ run
  step-length (fail_post k) run = dispatcher-length k _ (fail-dispatcher s t k run)
  step-length (schedule qty) run = elim (Bool-cases (is_schedulable s.pronto (u32 qty))) [
    | inl e ↦ rw (← next_injective (rw (e) at run)) refl
    | inr e ↦ rw (← next_injective (rw (e) at run)) refl
  ]
  step-length post_notify run = post_notify-length _ run
  step-length (done i qty) run = done-length _ run
  step-length post_reschedule run = post_reschedule-length _ run

length-waiting : (m : ℕ) → length (replicate m waiting) ≡ m
length-waiting zero = refl
length-waiting (suc m) = ap suc (length-waiting m)

-- The schedulers stay as many as there were at the start.
pub Reach-schedulers : {n m : ℕ} {s : System} → Reach n m s → length s.schedulers ≡ m
unfolding start
Reach-schedulers {n} {m} started = length-waiting m
Reach-schedulers (later {s} {t} r e ran) = step-length s t e ran ∙ Reach-schedulers r
