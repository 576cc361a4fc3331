-- ===== src/System/Books.antt =====
-- The capacity books in every reachable state.
use pronto.Prelude.{
  ℕ, zero, suc, ◌*◌, ◌^◌, ◌<◌, ◌≡◌, refl, Option, none, some, arith, get_elem?, total-get_elem?,
  Bool-cases, inl, inr,
}
use pronto.Word.{u32}
use pronto.Cluster.{Pronto, is_schedulable, add_job, free_capacity}
use pronto.Cluster.Capacity.{IsBalanced}
use pronto.Cluster.Schedulable.{init-IsSound}
use pronto.Threads.{
  SchedulerPc, scheduler_move, holds_waiting, rescheduler_move, DispatcherPc, dispatcher_move,
}
use pronto.Threads.Stored.{carried}
use pronto.Threads.Balance.{
  oversize, free-IsBalanced, scheduler_move-IsBalanced, rescheduler_move-IsBalanced,
  dispatcher_move-IsBalanced,
}
use pronto.System.{
  System, start, Event, scheduler, rescheduler, dispatcher, fail_post, schedule, post_notify, done,
  post_reschedule, next, step_scheduler, step_dispatcher, step_schedule, step_done,
  step_post_notify, step_post_reschedule, step, Reach, started, later,
}
use pronto.System.Fails.{fail-dispatcher}
use pronto.System.Conservation.{
  in_flight, accepted, step-Conserves, start-empty, resume-inv, next_injective,
}

accepted_small : (s : System) (e : Event) → accepted oversize s e ≡ 0
accepted_small s (schedule qty) = ground arith
accepted_small s (scheduler k) = refl
accepted_small s rescheduler = refl
accepted_small s (dispatcher k) = refl
accepted_small s (fail_post k) = refl
accepted_small s post_notify = refl
accepted_small s (done i qty) = refl
accepted_small s post_reschedule = refl

pub step-small :
    (s t : System) (e : Event)
    → in_flight oversize s ≡ 0
    → step s e ≡ next t
    → in_flight oversize t ≡ 0
step-small s t e fits ran =
    omega (arith, fits, step-Conserves oversize s t e ran, accepted_small s e)

-- Every request in the server fits an `unsigned int`.
pub Reach-small : {n m : ℕ} {s : System} → Reach n m s → in_flight oversize s ≡ 0
Reach-small {n} {m} started = start-empty oversize n m
Reach-small (later {s} {t} r e ran) = step-small s t e (Reach-small r) ran

module _ (s t : System) (fits : in_flight oversize s ≡ 0) (bal : IsBalanced s.pronto) where
  scheduler-IsBalanced :
      (k : ℕ) (o : Option SchedulerPc)
      → get_elem? s.schedulers k ≡ o
      → step_scheduler s k o ≡ next t
      → IsBalanced t.pronto
  unfolding step_scheduler
  scheduler-IsBalanced k none at run = cc
  scheduler-IsBalanced k (some pc) at run =
      let (q, pc', moved, e) =
        resume-inv (scheduler_move s.pronto (holds_waiting s.rescheduler) pc) _ t run in
      let mine = total-get_elem? (carried oversize) s.schedulers k pc at in
      rw (e) (scheduler_move-IsBalanced s.pronto _ pc (omega (arith, mine, fits)) moved bal)

  dispatcher-IsBalanced :
      (k : ℕ) (o : Option DispatcherPc) → step_dispatcher s k o ≡ next t → IsBalanced t.pronto
  unfolding step_dispatcher
  dispatcher-IsBalanced k none run = cc
  dispatcher-IsBalanced k (some pc) run =
      let (q, pc', moved, e) = resume-inv (dispatcher_move s.pronto k pc) _ t run in
      rw (e) (dispatcher_move-IsBalanced s.pronto k pc moved bal)

  done-IsBalanced :
      (i qty : ℕ) (o : Option Pronto)
      → free_capacity s.pronto i (u32 qty) ≡ o
      → step_done s o ≡ next t
      → IsBalanced t.pronto
  done-IsBalanced i qty none freed run = cc
  done-IsBalanced i qty (some p) freed run =
      let b = free-IsBalanced s.pronto i (u32 qty) (omega arith) freed bal in
      rw (← next_injective run) b

  post_notify-IsBalanced : (n : ℕ) → step_post_notify s n ≡ next t → IsBalanced t.pronto
  post_notify-IsBalanced zero run = cc
  post_notify-IsBalanced (suc n) run = rw (← next_injective run) bal

  post_reschedule-IsBalanced : (n : ℕ) → step_post_reschedule s n ≡ next t → IsBalanced t.pronto
  post_reschedule-IsBalanced zero run = cc
  post_reschedule-IsBalanced (suc n) run = rw (← next_injective run) bal

  step-IsBalanced : (e : Event) → step s e ≡ next t → IsBalanced t.pronto
  unfolding step step_schedule add_job
  step-IsBalanced (scheduler k) run = scheduler-IsBalanced k (get_elem? s.schedulers k) refl run
  step-IsBalanced rescheduler run =
      let (q, pc', moved, e) = resume-inv (rescheduler_move s.pronto s.rescheduler) _ t run in
      rw (e) (rescheduler_move-IsBalanced s.pronto s.rescheduler (omega (arith, fits)) moved bal)
  step-IsBalanced (dispatcher k) run = dispatcher-IsBalanced k (get_elem? s.dispatchers k) run
  step-IsBalanced (fail_post k) run =
      dispatcher-IsBalanced k (get_elem? s.dispatchers k) (fail-dispatcher s t k run)
  step-IsBalanced (schedule qty) run = elim (Bool-cases (is_schedulable s.pronto (u32 qty))) [
    | inl e ↦ rw (← next_injective (rw (e) at run)) bal
    | inr e ↦ rw (← next_injective (rw (e) at run)) bal
  ]
  step-IsBalanced post_notify run = post_notify-IsBalanced s.posting run
  step-IsBalanced (done i qty) run =
      done-IsBalanced i qty (free_capacity s.pronto i (u32 qty)) refl run
  step-IsBalanced post_reschedule run = post_reschedule-IsBalanced s.freeing run

start-IsBalanced : (n m : ℕ) → 15 * n < 2 ^ 31 → IsBalanced (start n m).pronto
unfolding start
start-IsBalanced n m few =
    let sound = init-IsSound n m few in omega (arith, sound.current, sound.capacity, sound.fits_int)

-- In every state that a server can reach whose workers' resources fit an `int` together, under any
-- interleaving of its threads and whatever /done claims to give back, current_capacity is the sum of
-- the workers' current_resources, as far as 32 bits can tell.
pub Reach-IsBalanced : {n m : ℕ} {s : System} → 15 * n < 2 ^ 31 → Reach n m s → IsBalanced s.pronto
Reach-IsBalanced {n} {m} few started = start-IsBalanced n m few
Reach-IsBalanced few (later {s} {t} r e ran) =
    step-IsBalanced s t (Reach-small r) (Reach-IsBalanced few r) e ran
