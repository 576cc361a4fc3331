-- ===== src/Threads/Covered.antt =====
-- What keeps the books of the cluster right, as long as one scheduler has them to itself.
pub mod Moves
use pronto.Prelude.{
  ℕ, zero, suc, ◌≤◌, ◌<◌, ◌≡◌, refl, Bool, true, false, Option, none, some, List, [], ◌∷◌, arith,
  ◌==◌, get_elem?, set, total, total-set, All, All-map, All-set, All-get_elem?, get_elem?-set_self,
  get_elem?-set_ne, Bool-cases, Option-cases, ==_iff, inl, inr, subst, sym, ap, ◌∙◌, ◌≢◌,
  some-injective,
}
use pronto.PrioQueue.Order.{take_job, All-insert_job}
use pronto.Cluster.{
  Worker, Pronto, best_current_fit, add_waiting_job, reserved, reserve_capacity, add_worker_job,
  update_worker,
}
use pronto.Cluster.Capacity.{IsSound, resources, reserve_capacity_lem, after_reserve-IsSound}
use pronto.Threads.Update.{then_go-inv}
use pronto.Threads.Stored.{update_worker-set}
use pronto.Threads.Fits.{best_current_fit_sound, reserve-best_fit}
use pronto.Threads.Jobs.{dispatcher_move-on}
use pronto.Threads.{
  go, post_worker, SchedulerPc, waiting, awake, took, parking, chosen, booked, queued,
  scheduler_move, scheduler_took, scheduler_fit, DispatcherPc, idle, notified, sending,
  dispatcher_wait, dispatcher_took, dispatcher_on, dispatcher_move,
}

-- Worker `b` has at least `v` units.
abbrev pub HasRoom : Pronto → ℕ → ℕ → Type 0
HasRoom p b v =
    (w : Worker) × (get_elem? p.workers_instances b ≡ some w) × (v ≤ w.current_resources)

-- No worker has `v` units.
abbrev pub IsUnfit : Pronto → ℕ → Type 0
IsUnfit p v = All (λ w. w.current_resources < v) p.workers_instances

-- What a scheduler is about to reserve is there, and what it is about to park fits nowhere.
abbrev pub Covers : Pronto → SchedulerPc → Type 0
Covers p (chosen v b) = HasRoom p b v
Covers p (parking v) = IsUnfit p v
Covers p _ = Unit

-- The jobs that wait fit nowhere.
abbrev pub Waits : Pronto → Type 0
Waits p = All (IsUnfit p) p.waiting_queue

-- The books stay as they are, and the rescheduler is not woken.
pub record KeepsBooks (p q : Pronto) : Type 0 where
  pub sound : IsSound p → IsSound q
  pub room : (b v : ℕ) → HasRoom p b v → HasRoom q b v
  pub unfit : (v : ℕ) → IsUnfit p v → IsUnfit q v
  pub waiting_queue : q.waiting_queue ≡ p.waiting_queue
  pub reschedule : q.reschedule ≡ p.reschedule

module _ (p : Pronto) (b : ℕ) (f : Worker → Worker)
    (same : (x : Worker)
      → ((f x).current_resources ≡ x.current_resources)
        × ((f x).max_resources ≡ x.max_resources)) where
  set-IsSound :
      (x : Worker)
      → get_elem? p.workers_instances b ≡ some x
      → IsSound p
      → IsSound (record p { workers_instances = set p.workers_instances b (f x) })
  set-IsSound x at s =
      let (c, m) = same x in
      let fits = All-get_elem? _ p.workers_instances b x s.bounded at in
      let most = total-set (λ w. w.max_resources) p.workers_instances b (f x) x at in
      record {
        bounded = All-set _ p.workers_instances b (f x) s.bounded (omega (arith, c, m, fits));
        fits_int = omega (arith, most, m, s.fits_int);
        capacity = omega (arith, most, m, s.capacity);
        current = omega (arith, total-set resources p.workers_instances b (f x) x at, c, s.current);
      }

  set-HasRoom :
      (x : Worker)
      → get_elem? p.workers_instances b ≡ some x
      → (k v : ℕ) → HasRoom p k v
      → HasRoom (record p { workers_instances = set p.workers_instances b (f x) }) k v
  set-HasRoom x at k v (w, at', room) = elim (Bool-cases (b == k)) [
    | inl e ↦
        let eq = (==_iff b k).0 e in
        let mine : x ≡ w =
          some-injective _ _ (sym at ∙ ap (get_elem? p.workers_instances) eq ∙ at') in
        (
          f x,
          subst (λ j. get_elem? (set p.workers_instances b (f x)) j ≡ some (f x)) eq
              (get_elem?-set_self p.workers_instances b (f x) at),
          omega (arith, (same x).0, ap resources mine, room),
        )
    | inr e ↦
        let ne : b ≢ k = λ q. ground (arith, q, e) in
        (w, get_elem?-set_ne p.workers_instances b k (f x) ne ∙ at', room)
  ]

  set-IsUnfit :
      (x : Worker)
      → get_elem? p.workers_instances b ≡ some x
      → (v : ℕ) → IsUnfit p v
      → IsUnfit (record p { workers_instances = set p.workers_instances b (f x) }) v
  set-IsUnfit x at v low =
      All-set _ p.workers_instances b (f x) low
        (omega (arith, (same x).0, All-get_elem? _ p.workers_instances b x low at))

  -- A change that leaves the worker's resources alone.
  pub update_worker-KeepsBooks : {q : Pronto} → update_worker p b f ≡ some q → KeepsBooks p q
  update_worker-KeepsBooks {q} ran =
      let (x, at, e) = update_worker-set p b f ran in
      rw (e) record {
        sound = set-IsSound x at;
        room = set-HasRoom x at;
        unfit = set-IsUnfit x at;
        waiting_queue = refl;
        reschedule = refl;
      }

-- The jobs that wait in `p` wait in `q` as well, and fit nowhere.
pub KeepsBooks-Waits : (p q : Pronto) → KeepsBooks p q → Waits p → Waits q
KeepsBooks-Waits p q keeps unfit =
    subst (All (IsUnfit q)) (sym keeps.waiting_queue)
      (All-map (IsUnfit p) (IsUnfit q) p.waiting_queue keeps.unfit unfit)
