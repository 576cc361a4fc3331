-- ===== src/Threads/Fits.antt =====
-- What the search and the reservation that follows it do to the books, when no other thread comes
-- between, and when one does.
use pronto.Prelude.{
  ℕ, ◌+◌, ◌-◌, ◌^◌, ◌≤◌, ◌<◌, ◌≡◌, ◌⊎◌, none, some, List, [], ◌∷◌, arith, get_elem?, total, All,
  All-map, All-get_elem?, get_elem?-set_self, Option-cases, inl, inr, some-injective, sym, ◌∙◌,
}
use pronto.PrioQueue.Order.{IsSorted}
use pronto.Cluster.{Worker, Pronto, best_current_fit, reserve_capacity, reserved}
use pronto.Cluster.Capacity.{IsSound, after_reserve, reserve_capacity_lem, after_reserve-IsSound}
use pronto.Cluster.Fit.{IsSmall, IsBestFit, best_current_fit-cases}
use pronto.Threads.{go, sleeping, rescheduler_look}

All-IsSmall :
    (ws : List Worker)
    → All (λ w. w.current_resources ≤ w.max_resources) ws
    → total (λ w. w.max_resources) ws < 2 ^ 31
    → All IsSmall ws
All-IsSmall [] b h = tt
All-IsSmall (w ∷ ws) b h = (omega (arith, b.0), All-IsSmall ws b.1 (omega arith))

-- With the books right (no worker above its max_resources, these fit an `int` together, and the totals
-- are their sums), the search finds a worker that can take the job, such that none has more
-- resources and each one before it has fewer; or it finds none, and every worker has too few.
pub best_current_fit_sound :
    (p : Pronto) (value : ℕ)
    → IsSound p
    → ((best_current_fit p value ≡ none)
        × All (λ w. w.current_resources < value) p.workers_instances)
      ⊎ ((k : ℕ) × (w : Worker) × (best_current_fit p value ≡ some k)
          × IsBestFit value p.workers_instances k w)
best_current_fit_sound p value s =
    best_current_fit-cases p value (All-IsSmall p.workers_instances s.bounded s.fits_int)
      (sym s.current)

-- With the books right, a reservation in the state that the search saw is covered by the worker's
-- resources, succeeds, and leaves the books right.
pub reserve-best_fit :
    (p : Pronto) (value b : ℕ)
    → IsSound p
    → best_current_fit p value ≡ some b
    → (w : Worker) × (get_elem? p.workers_instances b ≡ some w)
      × (value ≤ w.current_resources)
      × (reserve_capacity p b value ≡ some (after_reserve p b value w))
      × IsSound (after_reserve p b value w)
reserve-best_fit p value b s found = elim (best_current_fit_sound p value s) [
  | inl (e, low) ↦ cc
  | inr (k, w, e, best) ↦
      let same : k ≡ b = some-injective _ _ (sym e ∙ found) in
      let at : get_elem? p.workers_instances b ≡ some w = rw (← same) best.at in
      (
        w,
        at,
        best.fits,
        reserve_capacity_lem p b value w at,
        after_reserve-IsSound p b value w at best.fits s,
      )
]

-- Two reservations on worker `b`, of which each alone is covered: if the two jobs together are more
-- than the worker has left (less than 2 ^ 31), the second one succeeds as well, and the worker's
-- resources wrap round to 2 ^ 64 less what is missing, which is more than 2 ^ 31.
pub double_booking :
    (p : Pronto) (u v b : ℕ) (w : Worker)
    → get_elem? p.workers_instances b ≡ some w
    → u ≤ w.current_resources
    → v ≤ w.current_resources
    → w.current_resources < u + v
    → w.current_resources < 2 ^ 31
    → (q : Pronto) × (w' : Worker) × (reserve_capacity (after_reserve p b u w) b v ≡ some q)
      × (get_elem? q.workers_instances b ≡ some w')
      × (w'.current_resources ≡ 2 ^ 64 + w.current_resources - (u + v))
      × (2 ^ 31 < w'.current_resources)
double_booking p u v b w at hu hv over small =
    let at' = get_elem?-set_self p.workers_instances b (reserved u w) at in
    let p' = after_reserve p b u w in
    (
      after_reserve p' b v (reserved u w),
      reserved v (reserved u w),
      reserve_capacity_lem p' b v (reserved u w) at',
      get_elem?-set_self p'.workers_instances b (reserved v (reserved u w)) at',
      omega arith,
      omega arith,
    )

none_mono :
    (p : Pronto) (v u : ℕ)
    → IsSound p
    → best_current_fit p v ≡ none
    → v ≤ u
    → best_current_fit p u ≡ none
none_mono p v u s e le = elim (best_current_fit_sound p u s) [
  | inl (f, low) ↦ f
  | inr (k, w, f, best) ↦ elim (best_current_fit_sound p v s) [
    | inl (g, low) ↦
        absurd (omega (arith, best.fits, All-get_elem? _ p.workers_instances k w low best.at))
    | inr (j, x, g, better) ↦ cc
  ]
]

-- With the books right and the waiting queue in ascending order, when the rescheduler goes back to
-- sleep it has changed nothing, and no job that waits fits any worker: it looks at the smallest only.
pub look_complete :
    (p : Pronto) (l : List ℕ) {q : Pronto}
    → IsSound p
    → IsSorted l
    → rescheduler_look p l ≡ go q sleeping
    → (q ≡ p) × All (λ v. best_current_fit p v ≡ none) l
unfolding rescheduler_look
look_complete p [] s sorted ran = (ground arith, tt)
look_complete p (v ∷ l) s sorted ran = elim (Option-cases (best_current_fit p v)) [
  | inl e ↦ (ground arith, (e, All-map _ _ l (λ u le. none_mono p v u s e le) sorted.0))
  | inr (k, e) ↦ cc (rw (e, rescheduler_look) at ran)
]
