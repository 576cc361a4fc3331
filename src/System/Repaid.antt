-- ===== src/System/Repaid.antt =====
-- The resources of each worker over a whole run, and once the server is at rest.
use pronto.Prelude.{
  ℕ, zero, suc, ◌+◌, ◌≡◌, refl, some, List, [], ◌∷◌, arith, get_elem?, replicate, some-injective,
  get_elem?-lt, inl, inr,
}
use pronto.Word.{u64}
use pronto.Cluster.{Worker, init_worker, init_workers, max_resources}
use pronto.Threads.{waiting, DispatcherPc, idle}
use pronto.Threads.Stored.{di_carried}
use pronto.Threads.Balance.{oversize}
use pronto.Threads.Units.{size, units, owes_units}
use pronto.System.{System, start, Event, step, started}
use pronto.System.Conservation.{in_flight, along, start-empty, total-idle}
use pronto.System.Books.{step-small}
use pronto.System.Resources.{Pair, held, sent_to, dropped_from, given_back, Accounts, step-Accounts}
use pronto.System.Safety.{Reach-Inv}
use pronto.System.Steps.{get_elem?-some}
use pronto.System.Runs.{run, next-cases, Reach-run}
use pronto.System.Idle.{IsIdle, asleep, dispatcher-waits, owes-none, worker-empty, length-nil}

run-Accounts :
    (i : ℕ) (s t : System) (es : List Event)
    → in_flight oversize s ≡ 0
    → run s es ≡ some t
    → Accounts s t i
        (along (sent_to i) s es + along (dropped_from i) s es)
        (along (given_back i) s es)
unfolding run along
run-Accounts i s t [] fits ran w' d' h =
    (w', d', rw (← some-injective _ _ ran) at h, rw (some-injective _ _ ran) refl)
run-Accounts i s t (e ∷ es) fits ran w' d' h = elim (next-cases (step s e)) [
  | inl (u, f) ↦
      let (v, c, mid, later) =
        run-Accounts i u t es (step-small s u e fits f) (rw (f, run) at ran) w' d' h in
      let (w, d, first, one) = step-Accounts s u fits i e f v c mid in
      (w, d, first, rw (f, along) (omega (arith, one, later)))
  | inr (inl f) ↦ cc (rw (f, run) at ran)
  | inr (inr f) ↦ cc (rw (f, run) at ran)
]

init_workers-units :
    (n j i : ℕ) (w : Worker) → get_elem? (init_workers n j) i ≡ some w → units w ≡ max_resources
unfolding init_workers init_worker
init_workers-units zero j i w h = cc
init_workers-units (suc n) j zero w h = rw (← some-injective _ _ h) refl
init_workers-units (suc n) j (suc i) w h = init_workers-units n (suc j) i w h

idle-carries :
    (n i : ℕ) (d : DispatcherPc) → get_elem? (replicate n idle) i ≡ some d → di_carried size d ≡ 0
idle-carries zero i d h = cc
idle-carries (suc n) zero d h = rw (← some-injective _ _ h) refl
idle-carries (suc n) (suc i) d h = idle-carries n i d h

held-start :
    (n m i : ℕ) (w : Worker) (d : DispatcherPc)
    → Pair (start n m) i w d
    → held (start n m) i w d ≡ max_resources
unfolding start
held-start n m i w d (h, hd) = omega (
  arith,
  init_workers-units n 0 i w h,
  idle-carries n i d hd,
  total-idle (owes_units i) waiting m refl,
)

-- Over any run of the server, in any order of its threads, each worker's units add up modulo 2 ^ 64:
-- what the worker has left, what its queued jobs need, what threads have reserved for jobs they still
-- have to queue there, what its dispatcher is sending, what has been sent to it by a POST that was
-- answered, and what was dropped because the dispatcher's POST was not made or failed, are its
-- max_resources and what /done has given back to it.
pub run-resources :
    (n m i : ℕ) (es : List Event) (t : System) (w : Worker) (d : DispatcherPc)
    → run (start n m) es ≡ some t
    → Pair t i w d
    → u64
        (held t i w d + (along (sent_to i) (start n m) es + along (dropped_from i) (start n m) es))
      ≡ u64 (max_resources + along (given_back i) (start n m) es)
run-resources n m i es t w d ran h =
    let (w0, d0, before, same) =
      run-Accounts i (start n m) t es (start-empty oversize n m) ran w d h in
    omega (arith, same, held-start n m i w0 d0 before)

-- Once no thread can go on, each worker's queue is empty, and what the worker has left and what has
-- been sent to it are, modulo 2 ^ 64, its max_resources and what /done has given back to it, less what
-- the POSTs that were not made or failed have dropped: those units never come back by themselves.
pub run-repaid :
    (n m i : ℕ) (es : List Event) (t : System) (w : Worker)
    → run (start n m) es ≡ some t
    → IsIdle t
    → get_elem? t.pronto.workers_instances i ≡ some w
    → (w.scheduler_jobs ≡ [])
      × (u64 (
            w.current_resources
            + (along (sent_to i) (start n m) es + along (dropped_from i) (start n m) es))
          ≡ u64 (max_resources + along (given_back i) (start n m) es))
run-repaid n m i es t w ran rest h =
    let inv = Reach-Inv (Reach-run (start n m) es t started ran) in
    let (d, hd) =
      get_elem?-lt t.dispatchers i
        (omega (arith, inv.dispatched, get_elem?-some t.pronto.workers_instances i w h)) in
    let none = length-nil w.scheduler_jobs (worker-empty t rest inv i w h) in
    let books = run-resources n m i es t w d ran (h, hd) in
    (
      none,
      omega (
        arith,
        rw (none, asleep t rest, (dispatcher-waits t rest i d hd).0) at books,
        owes-none t rest (owes_units i) refl,
      ),
    )
