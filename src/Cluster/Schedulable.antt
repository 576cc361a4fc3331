-- ===== src/Cluster/Schedulable.antt =====
-- pronto_is_schedulable, and the state that pronto_init builds.
use pronto.Prelude.{
  ℕ, zero, suc, ◌+◌, ◌*◌, ◌^◌, ◌≤◌, ◌<◌, ◌≡◌, refl, ◌↔◌, true, false, some, List, [], ◌∷◌, arith,
  leb, get_elem?, total, All, Bool-cases, inl, inr, ◌∙◌,
}
use pronto.Word.{u32, ulong_of_int}
use pronto.Cluster.{
  Worker, Pronto, init_worker, init_workers, sum_capacity, init, any_holds, is_schedulable,
}
use pronto.Cluster.Capacity.{IsSound, resources}

-- A worker that is large enough for `value` when it is idle.
abbrev pub Holder : ℕ → List Worker → Type 0
Holder value ws = (k : ℕ) × (w : Worker) × (get_elem? ws k ≡ some w) × (value ≤ w.max_resources)

narrow : (value : ℕ) → value < 2 ^ 31 → ulong_of_int value ≡ value
narrow value small = ground arith

Holder-any_holds :
    (value : ℕ) (ws : List Worker) → value < 2 ^ 31 → any_holds value ws ≡ true → Holder value ws
unfolding any_holds
Holder-any_holds value [] small h = cc
Holder-any_holds value (w ∷ ws) small h = elim (Bool-cases (leb value w.max_resources)) [
  | inl e ↦ (0, w, refl, ground arith)
  | inr e ↦
      let (k, x, at, fits) = Holder-any_holds value ws small (rw (narrow value small, e) at h) in
      (suc k, x, at, fits)
]

any_holds-Holder :
    (value : ℕ) (ws : List Worker) (k : ℕ) (w : Worker)
    → value < 2 ^ 31
    → get_elem? ws k ≡ some w
    → value ≤ w.max_resources
    → any_holds value ws ≡ true
unfolding any_holds
any_holds-Holder value [] k w small at fits = cc
any_holds-Holder value (x ∷ ws) zero w small at fits = ground arith
any_holds-Holder value (x ∷ ws) (suc k) w small at fits =
    ground (arith, any_holds-Holder value ws k w small at fits)

-- For an `int` that is not negative, and a total capacity that is not: the job is accepted exactly
-- if it is smaller than the whole cluster and some worker could hold it when idle.
pub is_schedulable_iff :
    (p : Pronto) (value : ℕ)
    → value < 2 ^ 31
    → p.total_capacity < 2 ^ 31
    → (is_schedulable p value ≡ true)
      ↔ ((value < p.total_capacity) × Holder value p.workers_instances)
unfolding is_schedulable
is_schedulable_iff p value small bound = (
  λ h. (ground arith, Holder-any_holds value p.workers_instances small (ground arith)),
  λ (lt, (k, w, at, fits)).
      ground (arith, any_holds-Holder value p.workers_instances k w small at fits),
)

any_holds-negative :
    (value : ℕ) (ws : List Worker)
    → 2 ^ 31 ≤ value
    → All (λ w. w.max_resources < 2 ^ 31) ws
    → any_holds value ws ≡ false
unfolding any_holds
any_holds-negative value [] neg small = refl
any_holds-negative value (w ∷ ws) neg small =
    ground (arith, any_holds-negative value ws neg small.1)

-- A negative `int` is refused, if every worker's maximum is less than 2 ^ 31: as an `unsigned long`
-- the value is larger.
pub is_schedulable-negative :
    (p : Pronto) (value : ℕ)
    → 2 ^ 31 ≤ value
    → All (λ w. w.max_resources < 2 ^ 31) p.workers_instances
    → is_schedulable p value ≡ false
unfolding is_schedulable
is_schedulable-negative p value neg small =
    ground (arith, any_holds-negative value p.workers_instances neg small)

sum_capacity-total :
    (t : ℕ) (ws : List Worker)
    → t + total (λ w. w.max_resources) ws < 2 ^ 32
    → sum_capacity t ws ≡ t + total (λ w. w.max_resources) ws
unfolding sum_capacity
sum_capacity-total t [] h = omega arith
sum_capacity-total t (w ∷ ws) h =
    sum_capacity-total (u32 (t + w.max_resources)) ws (omega arith) ∙ omega arith

init_workers-total :
    (n i : ℕ)
    → (total (λ w. w.max_resources) (init_workers n i) ≡ 15 * n)
      × (total resources (init_workers n i) ≡ 15 * n)
      × All (λ w. w.current_resources ≤ w.max_resources) (init_workers n i)
unfolding init_workers init_worker
init_workers-total zero i = (refl, refl, tt)
init_workers-total (suc n) i =
    let (a, b, c) = init_workers-total n (suc i) in (omega arith, omega arith, (omega arith, c))

-- pronto_init starts with the books right, for any number of workers whose resources together fit
-- in an `int`.
pub init-IsSound : (n s : ℕ) → 15 * n < 2 ^ 31 → IsSound (init n s)
unfolding init
init-IsSound n s few =
    let (a, b, c) = init_workers-total n 0 in
    let e = sum_capacity-total 0 (init_workers n 0) (omega arith) in
    record {
      bounded = c;
      fits_int = omega arith;
      capacity = omega (arith, e);
      current = omega (arith, e);
    }
