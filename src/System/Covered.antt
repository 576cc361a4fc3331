-- ===== src/System/Covered.antt =====
-- A server with one scheduler, as long as no worker has reported to /done: nobody else touches the
-- books, so that every reservation is covered.
use pronto.Prelude.{
  ℕ, zero, suc, ◌*◌, ◌^◌, ◌<◌, ◌≡◌, refl, sym, ap, ◌∙◌, true, Option, none, some, List, [], ◌∷◌,
  arith, ◌==◌, get_elem?, set, length, All, All-map, get_elem?-set, length-set, Bool-cases, inl,
  inr, subst, some-injective,
}
use pronto.Word.{u32}
use pronto.Cluster.{Pronto, init, is_schedulable, add_job}
use pronto.Cluster.Capacity.{IsSound}
use pronto.Cluster.Schedulable.{init-IsSound}
use pronto.Threads.{
  SchedulerPc, waiting, chosen, scheduler_move, sleeping, holds_waiting, rescheduler_move,
  DispatcherPc, dispatcher_move,
}
use pronto.Threads.Covered.{HasRoom, IsUnfit, Waits, KeepsBooks-Waits, Covers}
use pronto.Threads.Covered.Moves.{
  same_books-IsSound, scheduler_move-Onward, dispatcher_move-KeepsBooks,
}
use pronto.System.{
  System, start, Event, scheduler, rescheduler, dispatcher, fail_post, schedule, post_notify, done,
  post_reschedule, next, stuck, step_scheduler, step_dispatcher, step_schedule, step_post_notify,
  step,
}
use pronto.System.Fails.{fail-dispatcher}
use pronto.System.Conservation.{resume-inv, next_injective}
use pronto.System.Steps.{get_elem?-some}
use pronto.System.Runs.{run, next-cases}

-- No worker reports.
abbrev pub IsUnreported : Event → Type 0
IsUnreported (done i qty) = ⊥
IsUnreported _ = Unit

-- The one scheduler has the books to itself.
record IsAlone (s : System) : Type 0 where
  sound : IsSound s.pronto
  covered : (k : ℕ) (pc : SchedulerPc) → get_elem? s.schedulers k ≡ some pc → Covers s.pronto pc
  waits : Waits s.pronto
  single : length s.schedulers ≡ 1
  asleep : s.rescheduler ≡ sleeping
  unwoken : s.pronto.reschedule ≡ 0
  unfreed : s.freeing ≡ 0

-- Room for what a scheduler has chosen stays there.
room-Covers :
    (p q : Pronto) (pc : SchedulerPc)
    → ((b v : ℕ) → HasRoom p b v → HasRoom q b v)
    → ((v : ℕ) → IsUnfit p v → IsUnfit q v)
    → Covers p pc
    → Covers q pc
room-Covers p q (chosen v b) room unfit c = room b v c
room-Covers p q waiting room unfit c = tt
room-Covers p q SchedulerPc.awake room unfit c = tt
room-Covers p q (SchedulerPc.took v) room unfit c = tt
room-Covers p q (SchedulerPc.parking v) room unfit c = unfit v c
room-Covers p q (SchedulerPc.booked v b) room unfit c = tt
room-Covers p q (SchedulerPc.queued v b) room unfit c = tt

-- The only scheduler is the one that has moved.
moved-Covers :
    (q : Pronto) (xs : List SchedulerPc) (k : ℕ) (pc' : SchedulerPc)
    → length xs ≡ 1
    → k < length xs
    → Covers q pc'
    → (i : ℕ) (pc : SchedulerPc) → get_elem? (set xs k pc') i ≡ some pc
    → Covers q pc
moved-Covers q xs k pc' one in_range c i pc at =
    let (old, there, e) = get_elem?-set xs k i pc' at in
    let same : k ≡ i = omega (arith, get_elem?-some xs i old there) in
    let here : (k == i) ≡ true = ground arith in rw (e, here) c

module _ (s t : System) (alone : IsAlone s) where
  open alone use {sound, covered, waits, single, asleep, unwoken, unfreed}

  scheduler-IsAlone :
      (k : ℕ) (o : Option SchedulerPc)
      → get_elem? s.schedulers k ≡ o
      → step_scheduler s k o ≡ next t
      → IsAlone t
  unfolding step_scheduler
  scheduler-IsAlone k none at ran = cc
  scheduler-IsAlone k (some pc) at ran =
      let (q, pc', moved, e) =
        resume-inv (scheduler_move s.pronto (holds_waiting s.rescheduler) pc) _ t ran in
      let (right, next_covered, still, same) =
        scheduler_move-Onward s.pronto _ pc sound waits (covered k pc at) moved in
      rw (e) record {
        sound = right;
        covered =
            moved-Covers q s.schedulers k pc' single (get_elem?-some s.schedulers k pc at)
              next_covered;
        waits = still;
        single = length-set s.schedulers k pc' ∙ single;
        asleep = asleep;
        unwoken = same ∙ unwoken;
        unfreed = unfreed;
      }

  dispatcher-IsAlone :
      (k : ℕ) (o : Option DispatcherPc) → step_dispatcher s k o ≡ next t → IsAlone t
  unfolding step_dispatcher
  dispatcher-IsAlone k none ran = cc
  dispatcher-IsAlone k (some pc) ran =
      let (q, pc', moved, e) = resume-inv (dispatcher_move s.pronto k pc) _ t ran in
      let keeps = dispatcher_move-KeepsBooks s.pronto k pc moved in
      rw (e) record {
        sound = keeps.sound sound;
        covered = λ i c at. room-Covers s.pronto q c keeps.room keeps.unfit (covered i c at);
        waits = KeepsBooks-Waits s.pronto q keeps waits;
        single = single;
        asleep = asleep;
        unwoken = keeps.reschedule ∙ unwoken;
        unfreed = unfreed;
      }

  -- Another state with the same books and threads.
  same-IsAlone :
      (u : System)
      → u.pronto.workers_instances ≡ s.pronto.workers_instances
      → u.pronto.total_capacity ≡ s.pronto.total_capacity
      → u.pronto.current_capacity ≡ s.pronto.current_capacity
      → u.pronto.waiting_queue ≡ s.pronto.waiting_queue
      → u.pronto.reschedule ≡ s.pronto.reschedule
      → u.schedulers ≡ s.schedulers
      → u.rescheduler ≡ s.rescheduler
      → u.freeing ≡ s.freeing
      → IsAlone u
  same-IsAlone u ws total current queue r threads re f = record {
    sound = same_books-IsSound s.pronto u.pronto ws total current sound;
    covered = λ i pc at.
        room-Covers s.pronto u.pronto pc (λ b v (w, at', room). (w, rw (ws) at', room)) unfit
          (covered i pc (rw (threads) at at));
    waits =
        subst (All (IsUnfit u.pronto)) (sym queue)
          (All-map (IsUnfit s.pronto) (IsUnfit u.pronto) s.pronto.waiting_queue unfit waits);
    single = ap length threads ∙ single;
    asleep = re ∙ asleep;
    unwoken = r ∙ unwoken;
    unfreed = f ∙ unfreed;
  }
    where
      unfit : (v : ℕ) → IsUnfit s.pronto v → IsUnfit u.pronto v
      unfit v low = subst (All (λ w. w.current_resources < v)) (sym ws) low

  post_notify-IsAlone : (n : ℕ) → step_post_notify s n ≡ next t → IsAlone t
  post_notify-IsAlone zero ran = cc
  post_notify-IsAlone (suc n) ran =
      rw (← next_injective ran) (same-IsAlone _ refl refl refl refl refl refl refl refl)

  -- The rescheduler has nothing to wake it.
  rescheduler-stuck : step s rescheduler ≡ stuck
  unfolding step rescheduler_move
  rescheduler-stuck = rw (asleep, unwoken) refl

  post_reschedule-stuck : step s post_reschedule ≡ stuck
  unfolding step
  post_reschedule-stuck = rw (unfreed) refl

  step-IsAlone : (e : Event) → IsUnreported e → step s e ≡ next t → IsAlone t
  unfolding step step_schedule add_job
  step-IsAlone (scheduler k) h ran = scheduler-IsAlone k (get_elem? s.schedulers k) refl ran
  step-IsAlone rescheduler h ran = cc (rescheduler-stuck)
  step-IsAlone (dispatcher k) h ran = dispatcher-IsAlone k (get_elem? s.dispatchers k) ran
  step-IsAlone (fail_post k) h ran =
      dispatcher-IsAlone k (get_elem? s.dispatchers k) (fail-dispatcher s t k ran)
  step-IsAlone (schedule qty) h ran = elim (Bool-cases (is_schedulable s.pronto (u32 qty))) [
    | inl e ↦
        rw (← next_injective (rw (e) at ran))
          (same-IsAlone _ refl refl refl refl refl refl refl refl)
    | inr e ↦ rw (← next_injective (rw (e) at ran)) alone
  ]
  step-IsAlone post_notify h ran = post_notify-IsAlone s.posting ran
  step-IsAlone (done i qty) h ran = absurd h
  step-IsAlone post_reschedule h ran = cc (post_reschedule-stuck)

run-IsAlone :
    (s t : System) (es : List Event)
    → IsAlone s
    → All IsUnreported es
    → run s es ≡ some t
    → IsAlone t
unfolding run
run-IsAlone s t [] alone h ran = subst IsAlone (some-injective _ _ ran) alone
run-IsAlone s t (e ∷ es) alone (one, others) ran = elim (next-cases (step s e)) [
  | inl (u, f) ↦ run-IsAlone u t es (step-IsAlone s u alone e one f) others (rw (f, run) at ran)
  | inr (inl f) ↦ cc (rw (f, run) at ran)
  | inr (inr f) ↦ cc (rw (f, run) at ran)
]

start-IsAlone : (n : ℕ) → 15 * n < 2 ^ 31 → IsAlone (start n 1)
unfolding start
start-IsAlone n few = record {
  sound = init-IsSound n 1 few;
  covered = waits-Covers (init n 1);
  waits = tt;
  single = refl;
  asleep = refl;
  unwoken = refl;
  unfreed = refl;
}
  where
    waits-Covers :
        (p : Pronto) (k : ℕ) (pc : SchedulerPc) → get_elem? (waiting ∷ []) k ≡ some pc → Covers p pc
    waits-Covers p zero pc at = rw (← some-injective _ _ at) tt
    waits-Covers p (suc k) pc at = cc

-- A server with one scheduler, whose workers' resources fit an `int` together, in any run in which no
-- worker reports to /done, with its threads in any order: the books are right, so that no worker has
-- more than its max_resources; whatever the scheduler is about to reserve, the worker has; and every
-- job in the waiting queue is larger than what any worker has left.
pub run-covered :
    (n : ℕ) (es : List Event) (t : System)
    → 15 * n < 2 ^ 31
    → All IsUnreported es
    → run (start n 1) es ≡ some t
    → IsSound t.pronto
      × ((k v b : ℕ) → get_elem? t.schedulers k ≡ some (chosen v b) → HasRoom t.pronto b v)
      × Waits t.pronto
run-covered n es t few h ran =
    let alone = run-IsAlone (start n 1) t es (start-IsAlone n few) h ran in
    (alone.sound, λ k v b at. alone.covered k (chosen v b) at, alone.waits)
