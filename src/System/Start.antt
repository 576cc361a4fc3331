-- ===== src/System/Start.antt =====
-- pronto_init starts the threads in a state with the invariant.
use pronto.Prelude.{
  ℕ, zero, suc, ◌≡◌, refl, some, arith, get_elem?, length, total, All, replicate, sym, ap, ◌∙◌,
}
use pronto.Cluster.{Worker, init_worker, init_workers}
use pronto.Threads.{SchedulerPc, waiting, DispatcherPc, idle}
use pronto.Threads.Posts.{owes_job, owes_post, owes_take}
use pronto.Threads.Safe.{InRange}
use pronto.System.{start}
use pronto.System.Invariant.{Inv}

init_workers-quiet :
    (n j i : ℕ) (w : Worker)
    → get_elem? (init_workers n j) i ≡ some w
    → (w.notify ≡ 0) × (length w.scheduler_jobs ≡ 0)
unfolding init_workers init_worker
init_workers-quiet zero j i w h = cc
init_workers-quiet (suc n) j zero w h = (ground arith, ground arith)
init_workers-quiet (suc n) j (suc i) w h = init_workers-quiet n (suc j) i w h

pub length-init_workers : (n j : ℕ) → length (init_workers n j) ≡ n
unfolding init_workers
length-init_workers zero j = refl
length-init_workers (suc n) j = ap suc (length-init_workers n (suc j))

length-replicate {ℓ} : {A : Type ℓ} (n : ℕ) (a : A) → length (replicate n a) ≡ n
length-replicate zero a = refl
length-replicate (suc n) a = ap suc (length-replicate n a)

total-waiting : (w : SchedulerPc → ℕ) (m : ℕ) → w waiting ≡ 0 → total w (replicate m waiting) ≡ 0
total-waiting w zero e = refl
total-waiting w (suc m) e = omega (arith, total-waiting w m e)

All-waiting : (n m : ℕ) → All (InRange n) (replicate m waiting)
All-waiting n zero = tt
All-waiting n (suc m) = (tt, All-waiting n m)

get-idle : (n i : ℕ) (d : DispatcherPc) → get_elem? (replicate n idle) i ≡ some d → owes_take d ≡ 0
get-idle zero i d h = cc
get-idle (suc n) zero d h = ground arith
get-idle (suc n) (suc i) d h = get-idle n i d h

pub start-Inv : (n m : ℕ) → Inv (start n m)
unfolding start
start-Inv n m = record {
  dispatched = length-replicate n idle ∙ sym (length-init_workers n 0);
  in_range = All-waiting _ m;
  re_in_range = tt;
  notified = omega (arith, total-waiting owes_job m refl);
  posted = λ i w d h hd.
      let (a, b) = init_workers-quiet n 0 i w h in
      omega (arith, get-idle n i d hd, total-waiting (owes_post i) m refl);
}
