-- ===== src/Threads/Units/Sends.antt =====
-- What a dispatcher and a report to /done do to the units of each worker.
use pronto.Prelude.{
  ℕ, zero, suc, ◌+◌, ◌≡◌, refl, some, List, [], ◌∷◌, arith, ◌==◌, if◌then◌else◌, get_elem?, total,
  Bool-cases, ap, ◌∙◌, inl, inr,
}
use pronto.Word.{u64}
use pronto.PrioQueue.Order.{take_job}
use pronto.Cluster.{Worker, Pronto, free_capacity}
use pronto.Threads.Update.{update_worker-Update, free-Update, then_go-inv}
use pronto.Threads.Posts.{same_at}
use pronto.Threads.Jobs.{dispatcher_move-on}
use pronto.Threads.Stored.{di_carried}
use pronto.Threads.{
  go, DispatcherPc, idle, notified, sending, dispatcher_wait, dispatcher_took, dispatcher_on,
  dispatcher_move,
}
use pronto.Threads.Units.{size, units, same-units}

-- A quantity that belongs to worker `k`, seen from worker `i`.
abbrev pub only_at : ℕ → ℕ → ℕ → ℕ
only_at k i n = if k == i then n else 0

-- The units of worker `i` before the dispatcher of worker `k` moves, and after: what it was sending is
-- gone.
abbrev pub SendsUnits : ℕ → Pronto → Pronto → DispatcherPc → Type 0
SendsUnits k p q pc' =
    (i : ℕ) (w' : Worker)
    → get_elem? q.workers_instances i ≡ some w'
    → (w : Worker) × (get_elem? p.workers_instances i ≡ some w)
      × (u64 (units w' + only_at k i (di_carried size pc')) ≡ u64 (units w))

wait-units :
    (p : Pronto) (k n : ℕ) {q : Pronto} {pc' : DispatcherPc}
    → dispatcher_wait p k n ≡ go q pc'
    → SendsUnits k p q pc'
wait-units p k zero run i w' h = cc
wait-units p k (suc n) run i w' h =
    let (r, e) = then_go-inv _ run in
    let (w, at, same) =
      same-units p k n (λ w. record w { notify = n }) (λ w. refl) (update_worker-Update p k _ r) i
        w' h in
    (
      w,
      at,
      rw (← e) (elim (Bool-cases (k == i)) [
        | inl here ↦ rw (here) (same ∙ omega arith)
        | inr away ↦ rw (away) (same ∙ omega arith)
      ]),
    )

module _ (p : Pronto) (k : ℕ) (x : Worker) (at : get_elem? p.workers_instances k ≡ some x) where
  di_took-units :
      (l : List ℕ) {q : Pronto} {pc' : DispatcherPc}
      → x.scheduler_jobs ≡ l
      → dispatcher_took p k (take_job l) ≡ go q pc'
      → SendsUnits k p q pc'
  unfolding take_job
  di_took-units [] jobs run i w' h = cc
  di_took-units (v ∷ l) jobs run i w' h =
      let (r, e) = then_go-inv _ run in
      let (w, at', change) =
        (update_worker-Update p k (λ y. record y { scheduler_jobs = l }) r).worker i w' h in
      (
        w,
        at',
        rw (← e) (elim (Bool-cases (k == i)) [
          | inl here ↦
              let same = same_at p.workers_instances k i x w at at' here in
              rw (here) (
                ap (λ y. u64 (units y + v)) (rw (here) at change)
                ∙ omega (
                  arith,
                  ap (λ (y : Worker). total size y.scheduler_jobs) same,
                  ap (total size) jobs,
                ))
          | inr away ↦ rw (away) (ap (λ y. u64 (units y + 0)) (rw (away) at change) ∙ omega arith)
        ]),
      )

  on-units :
      (pc : DispatcherPc) {q : Pronto} {pc' : DispatcherPc}
      → dispatcher_on p k pc x ≡ go q pc'
      → SendsUnits k p q pc'
  unfolding dispatcher_on
  on-units idle run = wait-units p k x.notify run
  on-units notified run = di_took-units x.scheduler_jobs refl run
  on-units (sending v) run = λ i w' h. (w', ground arith, ground arith)

pub dispatcher_move-SendsUnits :
    (p : Pronto) (k : ℕ) (pc : DispatcherPc) {q : Pronto} {pc' : DispatcherPc}
    → dispatcher_move p k pc ≡ go q pc'
    → SendsUnits k p q pc'
dispatcher_move-SendsUnits p k pc run =
    let (x, at, on) = dispatcher_move-on p k pc run in on-units p k x at pc on

pub free-units :
    (p : Pronto) (b v : ℕ) {q : Pronto}
    → free_capacity p b v ≡ some q
    → (i : ℕ) (w' : Worker) → get_elem? q.workers_instances i ≡ some w'
    → (w : Worker) × (get_elem? p.workers_instances i ≡ some w)
      × (u64 (units w') ≡ u64 (units w + only_at b i v))
free-units p b v run i w' h =
    let (w, at, e) = (free-Update p b v run).worker i w' h in
    (
      w,
      at,
      elim (Bool-cases (b == i)) [
        | inl here ↦ rw (here) (ap (λ y. u64 (units y)) (rw (here) at e) ∙ omega arith)
        | inr away ↦ rw (away) (ap (λ y. u64 (units y)) (rw (away) at e) ∙ omega arith)
      ],
    )
