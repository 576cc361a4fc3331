-- ===== src/System/Steps.antt =====
-- A step from a state with the invariant: it never touches memory that is not there, unless a
-- request to /done names a worker that does not exist.
use pronto.Prelude.{
  ℕ, zero, suc, ◌≤◌, ◌<◌, ◌≡◌, ◌≢◌, refl, Option, none, some, List, [], ◌∷◌, arith, get_elem?,
  length, All-get_elem?, get_elem?-lt, Option-cases, Bool-cases, inl, inr, sym, subst,
}
use pronto.Word.{u32}
use pronto.Cluster.{Pronto, is_schedulable, free_capacity}
use pronto.Threads.{
  Move, go, blocked, fault, SchedulerPc, scheduler_move, holds_waiting, rescheduler_move,
  DispatcherPc, dispatcher_move,
}
use pronto.Threads.Safe.{scheduler_move-ne-fault, rescheduler_move-ne-fault, dispatcher_on-ne-fault}
use pronto.System.{
  System, Event, scheduler, rescheduler, dispatcher, fail_post, schedule, post_notify, done,
  post_reschedule, Outcome, next, stuck, crash, resume, step_scheduler, step_dispatcher,
  step_schedule, step_done, step_post_notify, step_post_reschedule, step,
}
use pronto.System.Fails.{fail-cases}
use pronto.System.Invariant.{Inv}
use pronto.System.Moves.{
  scheduler-Inv, rescheduler-Inv, dispatcher-Inv, schedule-Inv, done-Inv, post_notify-Inv,
  post_reschedule-Inv,
}

-- A step of a state with the invariant ends, waits, or goes on with the invariant.
abbrev pub After : Outcome → Type 0
After (next t) = Inv t
After stuck = Unit
After crash = ⊥

pub get_elem?-some :
    {A : Type 0} (xs : List A) (i : ℕ) (x : A) → get_elem? xs i ≡ some x → i < length xs
get_elem?-some [] i x h = cc
get_elem?-some (y ∷ xs) zero x h = omega arith
get_elem?-some (y ∷ xs) (suc i) x h = omega (arith, get_elem?-some xs i x h)

pub get_elem?-none : {A : Type 0} (xs : List A) (i : ℕ) → length xs ≤ i → get_elem? xs i ≡ none
get_elem?-none [] i h = refl
get_elem?-none (x ∷ xs) zero h = absurd (omega arith)
get_elem?-none (x ∷ xs) (suc i) h = get_elem?-none xs i (omega arith)

pub free-some :
    (p : Pronto) (i qty : ℕ) → i < length p.workers_instances → free_capacity p i qty ≢ none
unfolding free_capacity
free-some p i qty lt run = let (w, at) = get_elem?-lt p.workers_instances i lt in ground arith

pub free-none :
    (p : Pronto) (i qty : ℕ) → length p.workers_instances ≤ i → free_capacity p i qty ≡ none
unfolding free_capacity
free-none p i qty ge = let away = get_elem?-none p.workers_instances i ge in ground arith

resume-After :
    {A : Type 0} (m : Move A) (k : Pronto → A → System)
    → m ≢ fault
    → ((q : Pronto) (a : A) → m ≡ go q a → Inv (k q a))
    → After (resume m k)
resume-After (go p a) k h inv = inv p a refl
resume-After blocked k h inv = tt
resume-After fault k h inv = h refl

module _ (s : System) (inv : Inv s) where
  open inv use {dispatched, in_range, re_in_range, posted}

  scheduler-After :
      (k : ℕ) (o : Option SchedulerPc) → get_elem? s.schedulers k ≡ o → After (step_scheduler s k o)
  unfolding step_scheduler
  scheduler-After k none at = tt
  scheduler-After k (some pc) at =
      resume-After (scheduler_move s.pronto (holds_waiting s.rescheduler) pc) _
        (scheduler_move-ne-fault s.pronto _ pc (All-get_elem? _ s.schedulers k pc in_range at))
        (λ q pc' moved. scheduler-Inv s inv k pc at moved)

  rescheduler-After : After (step s rescheduler)
  unfolding step
  rescheduler-After =
      resume-After (rescheduler_move s.pronto s.rescheduler) _
        (rescheduler_move-ne-fault s.pronto s.rescheduler re_in_range)
        (λ q pc' moved. rescheduler-Inv s inv moved)

  -- The dispatcher's worker exists, and has a job if the dispatcher was notified.
  dispatcher-ne-fault :
      (k : ℕ) (pc : DispatcherPc)
      → get_elem? s.dispatchers k ≡ some pc
      → dispatcher_move s.pronto k pc ≢ fault
  unfolding dispatcher_move
  dispatcher-ne-fault k pc at moved =
      let here = get_elem?-some s.dispatchers k pc at in
      let (w, at') = get_elem?-lt s.pronto.workers_instances k (omega arith) in
      dispatcher_on-ne-fault s.pronto k pc w (omega arith) (omega (arith, posted k w pc at' at))
        (rw (at', dispatcher_move) at moved)

  dispatcher-After :
      (k : ℕ) (o : Option DispatcherPc)
      → get_elem? s.dispatchers k ≡ o
      → After (step_dispatcher s k o)
  unfolding step_dispatcher
  dispatcher-After k none at = tt
  dispatcher-After k (some pc) at =
      resume-After (dispatcher_move s.pronto k pc) _ (dispatcher-ne-fault k pc at)
        (λ q pc' moved. dispatcher-Inv s inv k pc at moved)

  schedule-After : (qty : ℕ) → After (step_schedule s qty)
  unfolding step_schedule
  schedule-After qty = elim (Bool-cases (is_schedulable s.pronto qty)) [
    | inl e ↦ rw e (schedule-Inv s inv qty)
    | inr e ↦ rw e inv
  ]

  -- The worker of the request exists.
  done-After :
      (i qty : ℕ)
      → i < length s.pronto.workers_instances
      → After (step_done s (free_capacity s.pronto i qty))
  done-After i qty lt = elim (Option-cases (free_capacity s.pronto i qty)) [
    | inl e ↦ absurd (free-some s.pronto i qty lt e)
    | inr (q, e) ↦ rw e (done-Inv s inv i qty e)
  ]

  post_notify-After : (n : ℕ) → s.posting ≡ n → After (step_post_notify s n)
  post_notify-After zero e = tt
  post_notify-After (suc n) e = post_notify-Inv s inv n e

  post_reschedule-After : (n : ℕ) → After (step_post_reschedule s n)
  post_reschedule-After zero = tt
  post_reschedule-After (suc n) = post_reschedule-Inv s inv n

  -- The request names a worker of the array.
  abbrev pub IsAddressed : Event → Type 0
  IsAddressed (done i qty) = i < length s.pronto.workers_instances
  IsAddressed _ = Unit

  pub step-After : (e : Event) → IsAddressed e → After (step s e)
  unfolding step
  step-After (scheduler k) h = scheduler-After k _ refl
  step-After rescheduler h = rescheduler-After
  step-After (dispatcher k) h = dispatcher-After k _ refl
  step-After (fail_post k) h = elim (fail-cases s k) [
    | inl e ↦ subst After (sym e) tt
    | inr e ↦ subst After (sym e) (dispatcher-After k (get_elem? s.dispatchers k) refl)
  ]
  step-After (schedule qty) h = schedule-After (u32 qty)
  step-After post_notify h = post_notify-After _ refl
  step-After (done i qty) h = done-After i (u32 qty) h
  step-After post_reschedule h = post_reschedule-After _
