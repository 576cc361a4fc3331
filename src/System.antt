-- ===== src/System.antt =====
-- The whole server as its threads, interleaved in any order: `step` makes one move of the thread
-- that an event names. The HTTP handlers enter by what `schedule` and `job_done` of
-- srv/lib/handler.c do to the shared state; a handler between that and its sem_post is counted, as
-- it keeps nothing else that matters.
pub mod Invariant
pub mod Start
pub mod Moves
pub mod Steps
pub mod Safety
pub mod Runs
pub mod Fails
pub mod Conservation
pub mod Books
pub mod Ordered
pub mod Resources
pub mod Rest
pub mod Count
pub mod Idle
pub mod Settle
pub mod Covered
pub mod Delivered
pub mod Orders
pub mod Given
pub mod Rescheduled
pub mod Repaid
use pronto.Prelude.{
  ℕ, zero, suc, ◌+◌, ◌-◌, ◌≡◌, Bool, true, false, Option, none, some, List, [], ◌∷◌, ◌==◌,
  if◌then◌else◌, get_elem?, set, replicate,
}
use pronto.Word.{u32}
use pronto.Cluster.{Pronto, init, is_schedulable, add_job, free_capacity}
use pronto.Threads.{
  Move, go, blocked, fault, SchedulerPc, waiting, scheduler_move, ReschedulerPc, sleeping,
  holds_waiting, rescheduler_move, DispatcherPc, idle, dispatcher_move, dispatcher_fail,
}

pub record System : Type 0 where
  pub pronto : Pronto
  pub schedulers : List SchedulerPc
  pub rescheduler : ReschedulerPc
  pub dispatchers : List DispatcherPc
  pub posting : ℕ  -- handlers between pronto_add_job and sem_post(&pronto->notify)
  pub freeing : ℕ  -- handlers between pronto_free_capacity and sem_post(&pronto->reschedule)

-- pronto_init, with all threads started.
unfoldable pub start : ℕ → ℕ → System
unfolding init
start workers schedulers = record {
  pronto = init workers schedulers;
  schedulers = replicate schedulers waiting;
  rescheduler = sleeping;
  dispatchers = replicate workers idle;
  posting = 0;
  freeing = 0;
}

-- Who moves, with what a request brings: its numbers are converted to 32 bits.
pub data Event : Type 0 where
  scheduler : (index : ℕ) → Event
  rescheduler : Event
  dispatcher : (index : ℕ) → Event  -- a POST that it makes is answered
  fail_post : (index : ℕ) → Event  -- the dispatcher's POST is not made, or fails
  schedule : (qty : ℕ) → Event
  post_notify : Event
  done : (worker qty : ℕ) → Event
  post_reschedule : Event

-- A move was made, the thread has to wait, or the server has touched memory that is not there.
pub data Outcome : Type 0 where
  next : System → Outcome
  stuck : Outcome
  crash : Outcome

abbrev pub resume : {A : Type 0} → Move A → (Pronto → A → System) → Outcome
resume (go p pc) k = next (k p pc)
resume blocked k = stuck
resume fault k = crash

unfoldable pub step_scheduler : System → ℕ → Option SchedulerPc → Outcome
step_scheduler s k none = stuck
step_scheduler s k (some pc) =
    resume (scheduler_move s.pronto (holds_waiting s.rescheduler) pc)
      λ p pc'. record s { pronto = p; schedulers = set s.schedulers k pc' }

unfoldable pub step_dispatcher : System → ℕ → Option DispatcherPc → Outcome
step_dispatcher s k none = stuck
step_dispatcher s k (some pc) =
    resume (dispatcher_move s.pronto k pc)
      λ p pc'. record s { pronto = p; dispatchers = set s.dispatchers k pc' }

unfoldable pub step_fail : System → ℕ → Option DispatcherPc → Outcome
step_fail s k none = stuck
step_fail s k (some pc) =
    resume (dispatcher_fail s.pronto k pc)
      λ p pc'. record s { pronto = p; dispatchers = set s.dispatchers k pc' }

-- `schedule` from its test of pronto_is_schedulable on: a refused request changes nothing.
unfoldable pub step_schedule : System → ℕ → Outcome
step_schedule s qty =
    if is_schedulable s.pronto qty
    then next (record s { pronto = add_job s.pronto qty; posting = s.posting + 1 })
    else next s

abbrev pub step_done : System → Option Pronto → Outcome
step_done s none = crash
step_done s (some p) = next (record s { pronto = p; freeing = s.freeing + 1 })

abbrev pub step_post_notify : System → ℕ → Outcome
step_post_notify s zero = stuck
step_post_notify s (suc n) =
    next (record s { pronto = record s.pronto { notify = s.pronto.notify + 1 }; posting = n })

abbrev pub step_post_reschedule : System → ℕ → Outcome
step_post_reschedule s zero = stuck
step_post_reschedule s (suc n) =
    next
      (record s { pronto = record s.pronto { reschedule = s.pronto.reschedule + 1 }; freeing = n })

unfoldable pub step : System → Event → Outcome
unfolding step_scheduler step_dispatcher step_fail step_schedule
step s (scheduler k) = step_scheduler s k (get_elem? s.schedulers k)
step s rescheduler =
    resume (rescheduler_move s.pronto s.rescheduler)
      λ p pc'. record s { pronto = p; rescheduler = pc' }
step s (dispatcher k) = step_dispatcher s k (get_elem? s.dispatchers k)
step s (fail_post k) = step_fail s k (get_elem? s.dispatchers k)
step s (schedule qty) = step_schedule s (u32 qty)
step s post_notify = step_post_notify s s.posting
step s (done worker qty) = step_done s (free_capacity s.pronto worker (u32 qty))
step s post_reschedule = step_post_reschedule s s.freeing

-- The states that `n` workers and `m` schedulers can get to.
pub data Reach (n m : ℕ) : System → Type 0 where
  started : Reach n m (start n m)
  later : {s t : System} → Reach n m s → (e : Event) → step s e ≡ next t → Reach n m t
