-- ===== src/Threads/Covered/Moves.antt =====
-- The moves of a scheduler that has the books to itself, and of the dispatchers next to it.
use pronto.Prelude.{
  ℕ, zero, suc, ◌≤◌, ◌≡◌, refl, Bool, true, false, Option, none, some, List, arith, ◌==◌, All,
  All-map, All-set, All-get_elem?, Bool-cases, inl, inr, subst, sym, ◌∙◌, some-injective,
}
use pronto.PrioQueue.Order.{take_job, All-insert_job}
use pronto.Cluster.{
  Worker, Pronto, best_current_fit, add_waiting_job, reserved, reserve_capacity, add_worker_job,
}
use pronto.Cluster.Capacity.{IsSound, reserve_capacity_lem, after_reserve-IsSound}
use pronto.Threads.Update.{then_go-inv}
use pronto.Threads.Fits.{best_current_fit_sound, reserve-best_fit}
use pronto.Threads.Jobs.{dispatcher_move-on}
use pronto.Threads.{
  go, post_worker, SchedulerPc, waiting, awake, took, parking, chosen, booked, queued,
  scheduler_move, scheduler_took, scheduler_fit, DispatcherPc, idle, notified, sending,
  dispatcher_wait, dispatcher_took, dispatcher_on, dispatcher_move,
}
use pronto.Threads.Covered.{
  HasRoom, IsUnfit, Covers, Waits, KeepsBooks, update_worker-KeepsBooks, KeepsBooks-Waits,
}

-- A move of the scheduler to `pc'`: the books are right, the next reservation is covered, and what
-- waits fits nowhere.
abbrev pub Onward : Pronto → Pronto → SchedulerPc → Type 0
Onward p q pc' = IsSound q × Covers q pc' × Waits q × (q.reschedule ≡ p.reschedule)

-- The same workers and capacity.
pub same_books-IsSound :
    (p q : Pronto)
    → q.workers_instances ≡ p.workers_instances
    → q.total_capacity ≡ p.total_capacity
    → q.current_capacity ≡ p.current_capacity
    → IsSound p
    → IsSound q
same_books-IsSound p q ws t c s = record {
  bounded = subst (All (λ w. w.current_resources ≤ w.max_resources)) (sym ws) s.bounded;
  fits_int = rw (ws) s.fits_int;
  capacity = rw (ws, t) s.capacity;
  current = rw (ws, c) s.current;
}

pub go_injective : {A : Type 0} {p q : Pronto} {a b : A} → go p a ≡ go q b → (p ≡ q) × (a ≡ b)
go_injective h = (cc, cc)

went :
    (p : Pronto) {q q' : Pronto} {a b : SchedulerPc}
    → go q a ≡ go q' b
    → Onward p q a
    → Onward p q' b
went p {q} {q'} {a} h on =
    let (e, f) = go_injective h in subst (λ x. Onward p q' x) f (subst (λ x. Onward p x a) e on)

took-Onward :
    (p : Pronto) (t : Option ℕ × List ℕ) {q : Pronto} {pc' : SchedulerPc}
    → IsSound p
    → Waits p
    → scheduler_took p t ≡ go q pc'
    → Onward p q pc'
took-Onward p (none, l) s u ran = went p ran (same_books-IsSound p _ refl refl refl s, tt, u, refl)
took-Onward p (some v, l) s u ran =
    went p ran (same_books-IsSound p _ refl refl refl s, tt, u, refl)

fit-Onward :
    (p : Pronto) (v : ℕ) (fit : Option ℕ) {q : Pronto} {pc' : SchedulerPc}
    → IsSound p
    → Waits p
    → best_current_fit p v ≡ fit
    → scheduler_fit p v fit ≡ go q pc'
    → Onward p q pc'
fit-Onward p v none s u found ran = elim (best_current_fit_sound p v s) [
  | inl (e, low) ↦ went p ran (s, low, u, refl)
  | inr (k, w, e, best) ↦ cc
]
fit-Onward p v (some b) s u found ran =
    let (w, at, room, done, after) = reserve-best_fit p v b s found in
    went p ran (s, (w, at, room), u, refl)

-- The reservation is covered.
reserve-Onward :
    (p : Pronto) (v b : ℕ) {q : Pronto}
    → IsSound p
    → Waits p
    → HasRoom p b v
    → reserve_capacity p b v ≡ some q
    → Onward p q (booked v b)
reserve-Onward p v b s u (w, at, room) ran =
    let same = some-injective _ _ (sym (reserve_capacity_lem p b v w at) ∙ ran) in
    rw (← same) (
      after_reserve-IsSound p b v w at room s,
      tt,
      All-map (IsUnfit p) _ p.waiting_queue
          (λ n low.
            All-set _ p.workers_instances b (reserved v w) low
              (omega (arith, All-get_elem? _ p.workers_instances b w low at, room)))
          u,
      refl,
    )

pub scheduler_move-Onward :
    (p : Pronto) (held : Bool) (pc : SchedulerPc) {q : Pronto} {pc' : SchedulerPc}
    → IsSound p
    → Waits p
    → Covers p pc
    → scheduler_move p held pc ≡ go q pc'
    → Onward p q pc'
unfolding scheduler_move add_waiting_job add_worker_job post_worker
scheduler_move-Onward p held waiting s u c ran = elim (Bool-cases (p.notify == 0)) [
  | inl e ↦ cc (rw (e, scheduler_move) at ran)
  | inr e ↦
      went p (rw (e, scheduler_move) at ran) (same_books-IsSound p _ refl refl refl s, tt, u, refl)
]
scheduler_move-Onward p held awake s u c ran = took-Onward p (take_job p.job_queue) s u ran
scheduler_move-Onward p held (took v) s u c ran = fit-Onward p v (best_current_fit p v) s u refl ran
scheduler_move-Onward p true (parking v) s u c ran = cc
scheduler_move-Onward p false (parking v) s u c ran = went p ran (
  same_books-IsSound p _ refl refl refl s,
  tt,
  All-insert_job (IsUnfit p) v p.waiting_queue c u,
  refl,
)
scheduler_move-Onward p held (chosen v b) s u c ran =
    let (r, e) = then_go-inv _ ran in rw (← e) (reserve-Onward p v b s u c r)
scheduler_move-Onward p held (booked v b) s u c ran =
    let (r, e) = then_go-inv _ ran in
    let keeps = update_worker-KeepsBooks p b _ (λ x. (refl, refl)) r in
    rw (← e) (keeps.sound s, tt, KeepsBooks-Waits p _ keeps u, keeps.reschedule)
scheduler_move-Onward p held (queued v b) s u c ran =
    let (r, e) = then_go-inv _ ran in
    let keeps = update_worker-KeepsBooks p b _ (λ x. (refl, refl)) r in
    rw (← e) (keeps.sound s, tt, KeepsBooks-Waits p _ keeps u, keeps.reschedule)

-- A dispatcher never touches the books.
module _ (p : Pronto) (k : ℕ) where
  wait-KeepsBooks :
      (n : ℕ) {q : Pronto} {pc' : DispatcherPc} → dispatcher_wait p k n ≡ go q pc' → KeepsBooks p q
  wait-KeepsBooks zero ran = cc
  wait-KeepsBooks (suc n) ran =
      update_worker-KeepsBooks p k (λ w. record w { notify = n }) (λ x. (refl, refl))
        (then_go-inv _ ran).0

  took-KeepsBooks :
      (t : Option ℕ × List ℕ) {q : Pronto} {pc' : DispatcherPc}
      → dispatcher_took p k t ≡ go q pc'
      → KeepsBooks p q
  took-KeepsBooks (none, l) ran = cc
  took-KeepsBooks (some v, l) ran =
      update_worker-KeepsBooks p k (λ w. record w { scheduler_jobs = l }) (λ x. (refl, refl))
        (then_go-inv _ ran).0

  on-KeepsBooks :
      (pc : DispatcherPc) (x : Worker) {q : Pronto} {pc' : DispatcherPc}
      → dispatcher_on p k pc x ≡ go q pc'
      → KeepsBooks p q
  unfolding dispatcher_on
  on-KeepsBooks idle x ran = wait-KeepsBooks x.notify ran
  on-KeepsBooks notified x ran = took-KeepsBooks (take_job x.scheduler_jobs) ran
  on-KeepsBooks (sending v) x ran = subst (KeepsBooks p) (go_injective ran).0 (record {
    sound = λ s. s;
    room = λ b v r. r;
    unfit = λ v u. u;
    waiting_queue = refl;
    reschedule = refl;
  })

  pub dispatcher_move-KeepsBooks :
      (pc : DispatcherPc) {q : Pronto} {pc' : DispatcherPc}
      → dispatcher_move p k pc ≡ go q pc'
      → KeepsBooks p q
  dispatcher_move-KeepsBooks pc ran =
      let (x, at, on) = dispatcher_move-on p k pc ran in on-KeepsBooks pc x on
