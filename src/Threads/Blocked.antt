-- ===== src/Threads/Blocked.antt =====
-- Where a thread can wait: at its semaphore, and a scheduler also for the lock of the waiting queue.
use pronto.Prelude.{
  ℕ, zero, suc, ◌≡◌, refl, false, Option, none, some, List, [], ◌∷◌, ◌==◌, ==_iff, get_elem?,
  Bool-cases, Option-cases, inl, inr,
}
use pronto.Cluster.{Worker, Pronto}
use pronto.Threads.{
  blocked, SchedulerPc, waiting, awake, took, parking, chosen, booked, queued, scheduler_move,
  ReschedulerPc, sleeping, locking, looking, picked, booking, posting, rescheduler_move,
  DispatcherPc, idle, notified, sending, dispatcher_move, then_go, scheduler_took, scheduler_fit,
  rescheduler_look, rescheduler_fit, dispatcher_wait, dispatcher_on, dispatcher_took,
}

then_go-moves : {A : Type 0} (o : Option Pronto) (a : A) {B : Type 0} → then_go o a ≡ blocked → B
then_go-moves none a h = cc
then_go-moves (some p) a h = cc

took-moves : (p : Pronto) (t : Option ℕ × List ℕ) {B : Type 0} → scheduler_took p t ≡ blocked → B
took-moves p (none, l) h = cc
took-moves p (some v, l) h = cc

fit-moves : (p : Pronto) (v : ℕ) (o : Option ℕ) {B : Type 0} → scheduler_fit p v o ≡ blocked → B
fit-moves p v none h = cc
fit-moves p v (some b) h = cc

look-moves : (p : Pronto) (l : List ℕ) {B : Type 0} → rescheduler_look p l ≡ blocked → B
unfolding rescheduler_look
look-moves p [] h = cc
look-moves p (v ∷ l) h = found p l v _ h
  where
    found :
        (p : Pronto) (l : List ℕ) (v : ℕ) (o : Option ℕ) {B : Type 0}
        → rescheduler_fit p l v o ≡ blocked
        → B
    found p l v none h = cc
    found p l v (some b) h = cc

-- A thread waits only at its semaphore, and a scheduler also for the lock of the waiting queue.
pub scheduler-blocked :
    (p : Pronto) (pc : SchedulerPc)
    → scheduler_move p false pc ≡ blocked
    → (pc ≡ waiting) × (p.notify ≡ 0)
unfolding scheduler_move
scheduler-blocked p waiting h = elim (Bool-cases (p.notify == 0)) [
  | inl e ↦ (refl, (==_iff p.notify 0).0 e)
  | inr e ↦ cc (rw (e) at h)
]
scheduler-blocked p awake h = took-moves p _ h
scheduler-blocked p (took v) h = fit-moves p v _ h
scheduler-blocked p (parking v) h = cc
scheduler-blocked p (chosen v b) h = then_go-moves _ _ h
scheduler-blocked p (booked v b) h = then_go-moves _ _ h
scheduler-blocked p (queued v b) h = then_go-moves _ _ h

pub rescheduler-blocked :
    (p : Pronto) (pc : ReschedulerPc) → rescheduler_move p pc ≡ blocked → pc ≡ sleeping
unfolding rescheduler_move
rescheduler-blocked p sleeping h = refl
rescheduler-blocked p locking h = cc
rescheduler-blocked p looking h = look-moves p _ h
rescheduler-blocked p (picked v b) h = then_go-moves _ _ h
rescheduler-blocked p (booking v b) h = then_go-moves _ _ h
rescheduler-blocked p (posting v b) h = then_go-moves _ _ h

di_took-moves :
    (p : Pronto) (i : ℕ) (t : Option ℕ × List ℕ) {B : Type 0} → dispatcher_took p i t ≡ blocked → B
di_took-moves p i (none, l) h = cc
di_took-moves p i (some v, l) h = then_go-moves _ _ h

dispatcher_wait-blocked : (p : Pronto) (i n : ℕ) → dispatcher_wait p i n ≡ blocked → n ≡ 0
dispatcher_wait-blocked p i zero h = refl
dispatcher_wait-blocked p i (suc n) h = then_go-moves _ _ h

on-blocked :
    (p : Pronto) (i : ℕ) (pc : DispatcherPc) (x : Worker)
    → dispatcher_on p i pc x ≡ blocked
    → (pc ≡ idle) × (x.notify ≡ 0)
unfolding dispatcher_on
on-blocked p i idle x h = (refl, dispatcher_wait-blocked p i x.notify h)
on-blocked p i notified x h = di_took-moves p i _ h
on-blocked p i (sending v) x h = cc

pub dispatcher-blocked :
    (p : Pronto) (i : ℕ) (pc : DispatcherPc)
    → dispatcher_move p i pc ≡ blocked
    → (pc ≡ idle) × ((x : Worker) × (get_elem? p.workers_instances i ≡ some x) × (x.notify ≡ 0))
unfolding dispatcher_move
dispatcher-blocked p i pc h = elim (Option-cases (get_elem? p.workers_instances i)) [
  | inl e ↦ cc (rw (e, dispatcher_move) at h)
  | inr (x, e) ↦ let (a, b) = on-blocked p i pc x (rw (e, dispatcher_move) at h) in (a, (x, e, b))
]
