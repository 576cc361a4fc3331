-- ===== src/Cluster/Fit.antt =====
-- pronto_best_current_fit: the search for the least busy worker that can take a job.
use pronto.Prelude.{
  ℕ, suc, ◌+◌, ◌%◌, ◌^◌, ◌≤◌, ◌<◌, ◌≡◌, refl, ◌⊎◌, inl, inr, ◌&&◌, Option, none, some, List, [],
  ◌∷◌, arith, ltb, leb, get_elem?, take, length, total, All, All-map, Bool-cases, ltb→lt, sym, ◌∙◌,
  some-injective,
}
use native.Mathlib.Nat.{add-zero}
use pronto.Word.{u32, minus_one, lt_int}
use pronto.Cluster.{Worker, Pronto, consider, fit_loop, best_current_fit}

-- The resources fit in an `int`, so that the conversion in the loop keeps them.
abbrev pub IsSmall : Worker → Type 0
IsSmall w = w.current_resources < 2 ^ 31

-- Worker `k` can take `value`, none has more resources, and each one before it has fewer.
pub record IsBestFit (value : ℕ) (ws : List Worker) (k : ℕ) (w : Worker) : Type 0 where
  pub at : get_elem? ws k ≡ some w
  pub fits : value ≤ w.current_resources
  pub most : All (λ x. x.current_resources ≤ w.current_resources) ws
  pub earliest : All (λ x. x.current_resources < w.current_resources) (take k ws)

-- One more than the `int` `capacity`: 0 at the start, where it is -1.
abbrev rank : ℕ → ℕ
rank capacity = (capacity + 1) % 2 ^ 32

-- What the loop does from a given `capacity` on: it keeps it, or finds a better worker.
abbrev Kept : ℕ → ℕ → List Worker → ℕ × Option ℕ → Type 0
Kept value i ws (c, b) =
    (fit_loop value i ws (c, b) ≡ (c, b))
    × All (λ w. (w.current_resources < value) ⊎ (w.current_resources < rank c)) ws

abbrev Found : ℕ → ℕ → List Worker → ℕ × Option ℕ → Type 0
Found value i ws (c, b) =
    (k : ℕ) × (w : Worker) × (fit_loop value i ws (c, b) ≡ (w.current_resources, some (i + k)))
    × IsBestFit value ws k w
    × (rank c ≤ w.current_resources)

-- One round: the worker is better than what was found, or is passed over.
consider-cases :
    (value i c : ℕ) (b : Option ℕ) (w : Worker)
    → IsSmall w
    → rank c ≤ 2 ^ 31
    → ((consider value i w (c, b) ≡ (w.current_resources, some i))
        × (value ≤ w.current_resources)
        × (rank c ≤ w.current_resources))
      ⊎ ((consider value i w (c, b) ≡ (c, b))
          × ((w.current_resources < value) ⊎ (w.current_resources < rank c)))
unfolding consider
consider-cases value i c b w small r =
    elim (Bool-cases (leb value w.current_resources && lt_int c (u32 w.current_resources))) [
      | inl e ↦ inl (rw e (ground arith), ground arith, ground arith)
      | inr e ↦ inr (rw e refl, ground arith)
    ]

add_suc : (i k : ℕ) → suc i + k ≡ i + suc k
add_suc i k = omega arith

-- What the rest of the loop does decides what the loop does.
module _ (value i c : ℕ) (b : Option ℕ) (w : Worker) (ws : List Worker) where
  after_better :
      consider value i w (c, b) ≡ (w.current_resources, some i)
      → value ≤ w.current_resources
      → rank c ≤ w.current_resources
      → IsSmall w
      → Kept value (suc i) ws (w.current_resources, some i)
        ⊎ Found value (suc i) ws (w.current_resources, some i)
      → Found value i (w ∷ ws) (c, b)
  unfolding fit_loop
  after_better e fits r small (inl (run, low)) = (
    0,
    w,
    rw (e, run, add-zero),
    record {
      at = refl;
      fits = fits;
      most = (omega arith, All-map _ _ ws (λ x h. omega arith) low);
      earliest = tt;
    },
    r,
  )
  after_better e fits r small (inr (k, x, run, best, low)) = (
    suc k,
    x,
    rw (e, run, add_suc),
    record {
      at = best.at;
      fits = best.fits;
      most = (omega arith, best.most);
      earliest = (omega arith, best.earliest);
    },
    omega arith,
  )

  after_worse :
      consider value i w (c, b) ≡ (c, b)
      → (w.current_resources < value) ⊎ (w.current_resources < rank c)
      → Kept value (suc i) ws (c, b) ⊎ Found value (suc i) ws (c, b)
      → Kept value i (w ∷ ws) (c, b) ⊎ Found value i (w ∷ ws) (c, b)
  unfolding fit_loop
  after_worse e low (inl (run, rest)) = inl (rw (e, run), (low, rest))
  after_worse e low (inr (k, x, run, best, r)) = inr (
    suc k,
    x,
    rw (e, run, add_suc),
    record {
      at = best.at;
      fits = best.fits;
      most = (omega (arith, best.fits), best.most);
      earliest = (omega (arith, best.fits), best.earliest);
    },
    r,
  )

fit_loop-cases :
    (value i c : ℕ) (b : Option ℕ) (ws : List Worker)
    → All IsSmall ws
    → rank c ≤ 2 ^ 31
    → Kept value i ws (c, b) ⊎ Found value i ws (c, b)
unfolding fit_loop
fit_loop-cases value i c b [] small r = inl (refl, tt)
fit_loop-cases value i c b (w ∷ ws) small r = elim (consider-cases value i c b w small.0 r) [
  | inl (e, fits, low) ↦ inr (
      after_better value i c b w ws e fits low small.0 (
        fit_loop-cases value (suc i) w.current_resources (some i) ws small.1
          (omega (arith, small.0))))
  | inr (e, low) ↦
      after_worse value i c b w ws e low (fit_loop-cases value (suc i) c b ws small.1 r)
]

All-lt :
    (value : ℕ) (ws : List Worker)
    → total (λ w. w.current_resources) ws < value
    → All (λ w. w.current_resources < value) ws
All-lt value [] h = tt
All-lt value (w ∷ ws) h = (omega arith, All-lt value ws (omega arith))

-- The whole search, when the total is consistent with the workers: `none` exactly if no worker can
-- take the job, else the least busy worker.
pub best_current_fit-cases :
    (p : Pronto) (value : ℕ)
    → All IsSmall p.workers_instances
    → total (λ w. w.current_resources) p.workers_instances ≡ p.current_capacity
    → ((best_current_fit p value ≡ none)
        × All (λ w. w.current_resources < value) p.workers_instances)
      ⊎ ((k : ℕ) × (w : Worker) × (best_current_fit p value ≡ some k)
          × IsBestFit value p.workers_instances k w)
unfolding best_current_fit
best_current_fit-cases p value small sum = elim (Bool-cases (ltb p.current_capacity value)) [
  | inl e ↦ inl (rw e refl, All-lt value p.workers_instances (ltb→lt _ _ (rw sum e)))
  | inr e ↦ elim (fit_loop-cases value 0 minus_one none p.workers_instances small (omega arith)) [
    | inl (run, low) ↦ inl (rw (e, run), All-map _ _ _ (λ x h. omega arith) low)
    | inr (k, w, run, best, r) ↦ inr (k, w, rw (e, run) (ground arith), best)
  ]
]

consider-index :
    (value i : ℕ) (w : Worker) (best : ℕ × Option ℕ)
    → ((consider value i w best).1 ≡ best.1) ⊎ ((consider value i w best).1 ≡ some i)
unfolding consider
consider-index value i w (c, b) =
    elim (Bool-cases (leb value w.current_resources && lt_int c (u32 w.current_resources))) [
      | inl e ↦ inr (rw e)
      | inr e ↦ inl (rw e)
    ]

fit_loop-lt :
    (value i : ℕ) (best : ℕ × Option ℕ) (ws : List Worker) (k : ℕ)
    → (fit_loop value i ws best).1 ≡ some k
    → (best.1 ≡ some k) ⊎ (k < i + length ws)
unfolding fit_loop
fit_loop-lt value i best [] k run = inl run
fit_loop-lt value i best (w ∷ ws) k run =
    elim (fit_loop-lt value (suc i) (consider value i w best) ws k run) [
      | inl f ↦ elim (consider-index value i w best) [
        | inl e ↦ inl (sym e ∙ f)
        | inr e ↦ inr (omega (arith, some-injective _ _ (sym e ∙ f)))
      ]
      | inr f ↦ inr (omega arith)
    ]

-- Whatever the state, a worker that is chosen is one of the array.
pub best_current_fit-lt :
    (p : Pronto) (value k : ℕ) → best_current_fit p value ≡ some k → k < length p.workers_instances
unfolding best_current_fit
best_current_fit-lt p value k run = elim (Bool-cases (ltb p.current_capacity value)) [
  | inl e ↦ cc (rw (e, best_current_fit) at run)
  | inr e ↦
      elim (fit_loop-lt value 0 (minus_one, none) p.workers_instances k
        (rw (e, best_current_fit) at run)) [ inl f ↦ cc f | inr f ↦ omega arith ]
]
