-- ===== src/Threads/Update.antt =====
-- What the operations on one worker leave alone.
use pronto.Prelude.{
  ℕ, ◌+◌, ◌≡◌, refl, some, List, arith, ◌==◌, if◌then◌else◌, get_elem?, set, length, total,
  total-set, get_elem?-set, length-set, Option, none, Option-cases, Bool-cases, ==_iff, ap, sym,
  ◌∙◌, inl, inr, subst, some-injective,
}
use pronto.PrioQueue.Order.{insert_job}
use pronto.Cluster.{
  Worker, Pronto, freed, reserved, free_capacity, reserve_capacity, add_worker_job, update_worker,
}
use pronto.Word.{u32, sub32}
use pronto.Threads.{go, then_go, post_worker}

-- Only worker `b` differs, and it was changed by `f`.
pub record Update (p q : Pronto) (b : ℕ) (f : Worker → Worker) : Type 0 where
  pub worker :
      (i : ℕ) (w' : Worker)
      → get_elem? q.workers_instances i ≡ some w'
      → (w : Worker) × (get_elem? p.workers_instances i ≡ some w)
        × (w' ≡ (if b == i then f w else w))
  pub workers : length q.workers_instances ≡ length p.workers_instances
  pub job_queue : q.job_queue ≡ p.job_queue
  pub notify : q.notify ≡ p.notify
  pub waiting_queue : q.waiting_queue ≡ p.waiting_queue
  pub reschedule : q.reschedule ≡ p.reschedule

same_worker :
    (ws : List Worker) (b i : ℕ) (f : Worker → Worker) (w x : Worker)
    → get_elem? ws b ≡ some w
    → get_elem? ws i ≡ some x
    → (if b == i then f w else x) ≡ (if b == i then f x else x)
same_worker ws b i f w x at at' = elim (Bool-cases (b == i)) [
  | inl e ↦ rw e (ap f (some-injective _ _ (sym at ∙ ap (get_elem? ws) ((==_iff b i).0 e) ∙ at')))
  | inr e ↦ rw e
]

Update-set :
    (p : Pronto) (b : ℕ) (f : Worker → Worker) (w : Worker)
    → get_elem? p.workers_instances b ≡ some w
    → Update p (record p { workers_instances = set p.workers_instances b (f w) }) b f
Update-set p b f w at = record {
  worker = λ i w' h.
      let (x, at', e) = get_elem?-set p.workers_instances b i (f w) h in
      (x, at', e ∙ same_worker p.workers_instances b i f w x at at');
  workers = length-set p.workers_instances b (f w);
  job_queue = refl;
  notify = refl;
  waiting_queue = refl;
  reschedule = refl;
}

pub update_worker-Update :
    (p : Pronto) (b : ℕ) (f : Worker → Worker) {q : Pronto}
    → update_worker p b f ≡ some q
    → Update p q b f
unfolding update_worker
update_worker-Update p b f {q} run = elim (Option-cases (get_elem? p.workers_instances b)) [
  | inl e ↦ cc (rw (e, update_worker) at run)
  | inr (w, e) ↦
      subst (λ q. Update p q b f) (some-injective _ _ (rw (e, update_worker) at run))
        (Update-set p b f w e)
]

-- The scalars of the two states may differ in the capacity.
recapacity :
    {p q : Pronto} {b c : ℕ} {f : Worker → Worker}
    → Update (record p { current_capacity = c }) q b f
    → Update p q b f
recapacity u = record {
  worker = u.worker;
  workers = u.workers;
  job_queue = u.job_queue;
  notify = u.notify;
  waiting_queue = u.waiting_queue;
  reschedule = u.reschedule;
}

pub reserve-Update :
    (p : Pronto) (b v : ℕ) {q : Pronto}
    → reserve_capacity p b v ≡ some q
    → Update p q b (reserved v)
unfolding reserve_capacity
reserve-Update p b v run =
    recapacity {c = sub32 p.current_capacity v} (update_worker-Update _ b (reserved v) run)

pub free-Update :
    (p : Pronto) (b v : ℕ) {q : Pronto} → free_capacity p b v ≡ some q → Update p q b (freed v)
unfolding free_capacity
free-Update p b v run =
    recapacity {c = u32 (p.current_capacity + v)} (update_worker-Update _ b (freed v) run)

abbrev pub with_job : ℕ → Worker → Worker
with_job v w = record w { scheduler_jobs = insert_job v w.scheduler_jobs }

abbrev pub with_post : Worker → Worker
with_post w = record w { notify = w.notify + 1 }

pub add_worker_job-Update :
    (p : Pronto) (b v : ℕ) {q : Pronto} → add_worker_job p b v ≡ some q → Update p q b (with_job v)
unfolding add_worker_job
add_worker_job-Update p b v run = update_worker-Update p b (with_job v) run

pub post_worker-Update :
    (p : Pronto) (b : ℕ) {q : Pronto} → post_worker p b ≡ some q → Update p q b with_post
unfolding post_worker
post_worker-Update p b run = update_worker-Update p b with_post run

pub then_go-inv :
    {A : Type 0} (o : Option Pronto) {pc pc' : A} {q : Pronto}
    → then_go o pc ≡ go q pc'
    → (o ≡ some q) × (pc ≡ pc')
then_go-inv none run = cc
then_go-inv (some p) run = (cc, cc)

-- A sum over the workers after the change of one.
pub update_worker-total :
    (g : Worker → ℕ) (p : Pronto) (b : ℕ) (f : Worker → Worker) {q : Pronto}
    → update_worker p b f ≡ some q
    → (w : Worker) × (get_elem? p.workers_instances b ≡ some w)
      × (total g q.workers_instances + g w ≡ total g p.workers_instances + g (f w))
unfolding update_worker
update_worker-total g p b f {q} run = elim (Option-cases (get_elem? p.workers_instances b)) [
  | inl e ↦ cc (rw (e, update_worker) at run)
  | inr (w, e) ↦ (
    w,
    e,
    subst
        (λ (q : Pronto). total g q.workers_instances + g w ≡ total g p.workers_instances + g (f w))
        (some-injective _ _ (rw (e, update_worker) at run))
        (total-set g p.workers_instances b (f w) w e),
  )
]

-- A change that leaves a weight alone.
pub update_worker-total_same :
    (g : Worker → ℕ) (p : Pronto) (b : ℕ) (f : Worker → Worker) {q : Pronto}
    → ((w : Worker) → g (f w) ≡ g w)
    → update_worker p b f ≡ some q
    → total g q.workers_instances ≡ total g p.workers_instances
update_worker-total_same g p b f same run =
    let (w, at, e) = update_worker-total g p b f run in omega (arith, same w)
