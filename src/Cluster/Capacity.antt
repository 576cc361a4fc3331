-- ===== src/Cluster/Capacity.antt =====
-- pronto_reserve_capacity and pronto_free_capacity: what they do to the books.
use pronto.Prelude.{
  ℕ, zero, suc, ◌+◌, ◌%◌, ◌^◌, ◌≤◌, ◌<◌, ◌≡◌, some, List, [], ◌∷◌, arith, get_elem?, set, total,
  total-set, total-get_elem?, get_elem?-set_self, set-set, set-get_elem?, All, All-set,
  All-get_elem?, ap, ◌∙◌,
}
use pronto.Word.{u32, u64, sub32, sub64}
use pronto.Cluster.{Worker, Pronto, freed, reserved, free_capacity, reserve_capacity}

abbrev pub resources : Worker → ℕ
resources w = w.current_resources

-- The capacity of the cluster is that of its workers, as far as an `int` can tell.
abbrev pub IsBalanced : Pronto → Type 0
IsBalanced p = p.current_capacity ≡ total resources p.workers_instances % 2 ^ 32

-- The books are right: no number is out of its range, and the totals are sums.
pub record IsSound (p : Pronto) : Type 0 where
  pub bounded : All (λ w. w.current_resources ≤ w.max_resources) p.workers_instances
  pub fits_int : total (λ w. w.max_resources) p.workers_instances < 2 ^ 31
  pub capacity : p.total_capacity ≡ total (λ w. w.max_resources) p.workers_instances
  pub current : p.current_capacity ≡ total resources p.workers_instances

total-le :
    (ws : List Worker)
    → All (λ x. x.current_resources ≤ x.max_resources) ws
    → total resources ws ≤ total (λ x. x.max_resources) ws
total-le [] b = omega arith
total-le (x ∷ ws) b = omega (arith, b.0, total-le ws b.1)

slack :
    (ws : List Worker) (i : ℕ) (w : Worker)
    → get_elem? ws i ≡ some w
    → All (λ x. x.current_resources ≤ x.max_resources) ws
    → total resources ws + w.max_resources ≤ total (λ x. x.max_resources) ws + w.current_resources
slack [] i w at b = cc
slack (x ∷ ws) zero w at b = ground (arith, total-le ws b.1)
slack (x ∷ ws) (suc i) w at b = omega (arith, b.0, slack ws i w at b.1)

-- The states after the two operations on worker `i`, which was `w`.
abbrev pub after_reserve : Pronto → ℕ → ℕ → Worker → Pronto
after_reserve p i qty w = record p {
  current_capacity = sub32 p.current_capacity qty;
  workers_instances = set p.workers_instances i (reserved qty w);
}

abbrev pub after_free : Pronto → ℕ → ℕ → Worker → Pronto
after_free p i qty w = record p {
  current_capacity = u32 (p.current_capacity + qty);
  workers_instances = set p.workers_instances i (freed qty w);
}

module _ (p : Pronto) (i qty : ℕ) (w : Worker) (at : get_elem? p.workers_instances i ≡ some w) where
  pub reserve_capacity_lem : reserve_capacity p i qty ≡ some (after_reserve p i qty w)
  unfolding reserve_capacity
  reserve_capacity_lem = ground arith

  pub free_capacity_lem : free_capacity p i qty ≡ some (after_free p i qty w)
  unfolding free_capacity
  free_capacity_lem = ground arith

  -- Whatever the amounts, wrap-around included, the two books stay in step.
  pub after_reserve-IsBalanced : qty < 2 ^ 32 → IsBalanced p → IsBalanced (after_reserve p i qty w)
  after_reserve-IsBalanced small bal =
      omega (arith, total-set resources p.workers_instances i (reserved qty w) w at)

  pub after_free-IsBalanced : qty < 2 ^ 32 → IsBalanced p → IsBalanced (after_free p i qty w)
  after_free-IsBalanced small bal =
      omega (arith, total-set resources p.workers_instances i (freed qty w) w at)

  -- The worker's own numbers, and what is left of the two totals without it.
  pub in_range :
      IsSound p
      → (w.current_resources ≤ w.max_resources)
        × (w.max_resources < 2 ^ 31)
        × (total resources p.workers_instances < 2 ^ 31)
        × (total resources p.workers_instances + w.max_resources
            ≤ total (λ x. x.max_resources) p.workers_instances + w.current_resources)
  in_range s = (
    All-get_elem? _ p.workers_instances i w s.bounded at,
    omega (arith, total-get_elem? (λ x. x.max_resources) p.workers_instances i w at, s.fits_int),
    omega (arith, total-le p.workers_instances s.bounded, s.fits_int),
    slack p.workers_instances i w at s.bounded,
  )

  -- A reservation that the worker can cover keeps the books right.
  pub after_reserve-IsSound :
      qty ≤ w.current_resources → IsSound p → IsSound (after_reserve p i qty w)
  after_reserve-IsSound covered s =
      let (fit, small, whole, spare) = in_range s in
      let least = total-get_elem? resources p.workers_instances i w at in
      record {
        bounded = All-set _ p.workers_instances i _ s.bounded (omega arith);
        fits_int =
            omega (arith, total-set _ p.workers_instances i (reserved qty w) w at, s.fits_int);
        capacity =
            omega (arith, total-set _ p.workers_instances i (reserved qty w) w at, s.capacity);
        current =
            omega
              (arith, total-set resources p.workers_instances i (reserved qty w) w at, s.current);
      }

  -- So does giving back what the worker has room for.
  pub after_free-IsSound :
      w.current_resources + qty ≤ w.max_resources → IsSound p → IsSound (after_free p i qty w)
  after_free-IsSound room s =
      let (fit, small, whole, spare) = in_range s in
      record {
        bounded = All-set _ p.workers_instances i _ s.bounded (omega arith);
        fits_int = omega (arith, total-set _ p.workers_instances i (freed qty w) w at, s.fits_int);
        capacity = omega (arith, total-set _ p.workers_instances i (freed qty w) w at, s.capacity);
        current = omega (
          arith,
          total-set resources p.workers_instances i (freed qty w) w at,
          s.current,
          s.fits_int,
        );
      }

freed-reserved :
    (qty : ℕ) (w : Worker)
    → qty ≤ w.current_resources
    → w.current_resources < 2 ^ 64
    → w.scheduled_jobs < 2 ^ 32
    → freed qty (reserved qty w) ≡ w
freed-reserved qty w covered small jobs =
    let e : u64 (sub64 w.current_resources qty + qty) ≡ w.current_resources = omega arith in
    let f : sub32 (u32 (w.scheduled_jobs + 1)) 1 ≡ w.scheduled_jobs = omega arith in
    λ k. record w { current_resources = e k; scheduled_jobs = f k }

free-after_reserve :
    (p : Pronto) (i qty : ℕ) (w : Worker)
    → get_elem? p.workers_instances i ≡ some w
    → IsSound p
    → qty ≤ w.current_resources
    → w.scheduled_jobs < 2 ^ 32
    → free_capacity (after_reserve p i qty w) i qty ≡ some p
free-after_reserve p i qty w at s covered jobs =
    let ws = p.workers_instances in
    let (fit, small, whole, spare) = in_range p i qty w at s in
    let found = get_elem?-set_self ws i (reserved qty w) at in
    let e : u32 (sub32 p.current_capacity qty + qty) ≡ p.current_capacity =
      omega (arith, s.current, total-get_elem? resources ws i w at) in
    let same : set (set ws i (reserved qty w)) i (freed qty (reserved qty w)) ≡ ws =
      set-set ws i _ _
      ∙ ap (set ws i) (freed-reserved qty w covered (omega arith) jobs)
      ∙ set-get_elem? ws i w at in
    free_capacity_lem (after_reserve p i qty w) i qty (reserved qty w) found ∙ λ k.
    some (record p { current_capacity = e k; workers_instances = same k })

-- With the books right, pronto_reserve_capacity of what a worker of the array has left succeeds, and
-- pronto_free_capacity of the same amount then gives back the whole state, if the count of the
-- worker's jobs is less than 2 ^ 32.
pub free-reserve :
    (p : Pronto) (i qty : ℕ) (w : Worker)
    → get_elem? p.workers_instances i ≡ some w
    → IsSound p
    → qty ≤ w.current_resources
    → w.scheduled_jobs < 2 ^ 32
    → (q : Pronto) × (reserve_capacity p i qty ≡ some q) × (free_capacity q i qty ≡ some p)
free-reserve p i qty w at s covered jobs = (
  after_reserve p i qty w,
  reserve_capacity_lem p i qty w at,
  free-after_reserve p i qty w at s covered jobs,
)
