-- ===== src/Handler/Callbacks.antt =====
-- The callbacks `schedule` and `job_done` against the events of System.
use native.Mathlib.Decide.{dec_lt}
use pronto.Prelude.{
  ℕ, zero, suc, ◌+◌, ◌≡◌, ap, List, [], ◌∷◌, get_elem?, ◌⊎◌, inl, inr, refl, true, Option, none,
  some, arith, Bool-cases, Option-cases, length, ◌≤◌, ◌<◌,
}
use pronto.Word.{u32}
use pronto.Bytes.{Bytes, codes}
use pronto.Cluster.{
  Pronto, is_schedulable, add_job, free_capacity, update_worker, increase_current_capacity,
}
use pronto.Handler
use pronto.Request.{HttpRequest}
use pronto.Handler.{
  Reply, has_body, item, bad_request, missing, too_big, scheduled, freed_from, sem_post_notify,
  sem_post_reschedule,
}
use pronto.System.Steps.{free-none}
use pronto.System.{
  System, Event, schedule, post_notify, done, post_reschedule, next, crash, step, step_schedule,
  step_post_notify, step_post_reschedule,
}

-- The events `e`, then `f`, lead from `s` to a state with the books `p`.
abbrev pub Leads : System → Event → Event → Pronto → Type 0
Leads s e f p = (t u : System) × (step s e ≡ next t) × (step t f ≡ next u) × (p ≡ u.pronto)

scheduled-Leads :
    (s : System) (q : ℕ)
    → is_schedulable s.pronto (u32 q) ≡ true
    → Leads s (schedule q) post_notify (sem_post_notify (add_job s.pronto (u32 q)))
unfolding step step_schedule
scheduled-Leads s q g =
    let p = add_job s.pronto (u32 q) in
    let t : System = record s { pronto = p; posting = s.posting + 1 } in
    let u : System = record t { pronto = sem_post_notify p; posting = s.posting } in
    let e : s.posting + 1 ≡ suc s.posting = omega arith in
    (t, u, rw (g) refl, ap (step_post_notify t) e, refl)

freed-Leads :
    (s : System) (w q : ℕ) (p : Pronto)
    → free_capacity s.pronto w (u32 q) ≡ some p
    → Leads s (done w q) post_reschedule (sem_post_reschedule p)
unfolding step
freed-Leads s w q p h =
    let t : System = record s { pronto = p; freeing = s.freeing + 1 } in
    let u : System = record t { pronto = sem_post_reschedule p; freeing = s.freeing } in
    let e : s.freeing + 1 ≡ suc s.freeing = omega arith in
    (t, u, rw (h) refl, ap (step_post_reschedule t) e, refl)

missing-length : {A : Type 0} (xs : List A) (i : ℕ) → get_elem? xs i ≡ none → length xs ≤ i
missing-length [] i h = omega arith
missing-length (x ∷ xs) zero h = cc
missing-length (x ∷ xs) (suc i) h = let le = missing-length xs i h in omega arith

-- Only an index outside the array makes pronto_free_capacity fail.
pub none-free :
    (p : Pronto) (i qty : ℕ) → free_capacity p i qty ≡ none → length p.workers_instances ≤ i
unfolding free_capacity update_worker increase_current_capacity
none-free p i qty h = elim (Option-cases (get_elem? p.workers_instances i)) [
  | inl e ↦ missing-length p.workers_instances i e
  | inr (w, e) ↦ absurd (ground arith)
]

some-free :
    (p : Pronto) (i qty : ℕ) (q : Pronto)
    → free_capacity p i qty ≡ some q
    → i < length p.workers_instances
some-free p i qty q h = elim (dec_lt i (length p.workers_instances)) [
  | yes lt ↦ lt
  | no ge ↦ let away = free-none p i qty (omega arith) in cc
]

module _ {ℓ} {Json : Type ℓ} (valueint : Json → Bytes → Option ℕ) where
  -- The request asks for `q` units that pronto_is_schedulable accepts.
  abbrev pub Asks : System → HttpRequest Json → ℕ → Type 0
  Asks s req q =
      (has_body req ≡ true)
      × (item valueint req (codes "qty") ≡ some q)
      × (is_schedulable s.pronto (u32 q) ≡ true)

  -- The request gives back `q` units to worker `w`.
  abbrev pub Returns : HttpRequest Json → ℕ → ℕ → Type 0
  Returns req q w =
      (has_body req ≡ true)
      × (item valueint req (codes "freed_qty") ≡ some q)
      × (item valueint req (codes "worker") ≡ some w)

  -- A refusal changes nothing.
  abbrev pub Refused : System → Pronto → Reply → Type 0
  Refused s p reply = (p ≡ s.pronto) × (reply.status ≡ 400)

  pub schedule-events :
      (s : System) (req : HttpRequest Json)
      → (p : Pronto) × (reply : Reply) × (Handler.schedule valueint s.pronto req ≡ some (p, reply))
        × (((q : ℕ) × Asks s req q × (reply.status ≡ 200) × Leads s (schedule q) post_notify p)
            ⊎ (¬ ((q : ℕ) × Asks s req q) × Refused s p reply))
  unfolding Handler.schedule step step_schedule
  schedule-events s req = elim (Bool-cases (has_body req)) [
    | inr e ↦ (s.pronto, bad_request, rw (e) refl, inr (λ (q, (b, i, g)). cc, (refl, refl)))
    | inl e ↦ elim (Option-cases (item valueint req (codes "qty"))) [
      | inl f ↦ (
        s.pronto,
        missing (codes "qty"),
        rw (e, f) refl,
        inr (λ (q, (b, i, g)). cc, (refl, refl)),
      )
      | inr (q, f) ↦ elim (Bool-cases (is_schedulable s.pronto (u32 q))) [
        | inl g ↦ (
          sem_post_notify (add_job s.pronto (u32 q)),
          scheduled (u32 q),
          rw (e, f, g) refl,
          inl (q, (e, f, g), refl, scheduled-Leads s q g),
        )
        | inr g ↦ (s.pronto, too_big, rw (e, f, g) refl, inr (λ (r, (b, i, h)). cc, (refl, refl)))
      ]
    ]
  ]

  -- The callback `job_done`, on a request that has a body with `freed_qty` and `worker`: if the worker is
  -- outside the array it touches memory that is not there, as the event `done` does; else it replies 200
  -- and does what the events `done` and `post_reschedule` do, one after the other. On any other request
  -- it replies 400 and changes nothing.
  pub job_done-events :
      (s : System) (req : HttpRequest Json)
      → ((q w : ℕ) × Returns req q w
          × (length s.pronto.workers_instances ≤ u32 w)
          × (step s (done (u32 w) q) ≡ crash)
          × (Handler.job_done valueint s.pronto req ≡ none))
        ⊎ ((p : Pronto) × (reply : Reply) × (Handler.job_done valueint s.pronto req
              ≡ some (p, reply))
            × (((q w : ℕ) × Returns req q w
                  × (u32 w < length s.pronto.workers_instances)
                  × (reply.status ≡ 200)
                  × Leads s (done (u32 w) q) post_reschedule p)
                ⊎ (¬ ((q w : ℕ) × Returns req q w) × Refused s p reply)))
  unfolding Handler.job_done step
  job_done-events s req = elim (Bool-cases (has_body req)) [
    | inr e ↦ inr (s.pronto, bad_request, rw (e) refl, inr (λ (q, w, (b, i, j)). cc, (refl, refl)))
    | inl e ↦ elim (Option-cases (item valueint req (codes "freed_qty"))) [
      | inl f ↦ inr (
        s.pronto,
        missing (codes "qty"),
        rw (e, f) refl,
        inr (λ (q, w, (b, i, j)). cc, (refl, refl)),
      )
      | inr (q, f) ↦ elim (Option-cases (item valueint req (codes "worker"))) [
        | inl g ↦ inr (
          s.pronto,
          missing (codes "worker"),
          rw (e, f, g) refl,
          inr (λ (r, w, (b, i, j)). cc, (refl, refl)),
        )
        | inr (w, g) ↦ elim (Option-cases (free_capacity s.pronto (u32 w) (u32 q))) [
          | inl h ↦ inl (
            q,
            w,
            (e, f, g),
            none-free s.pronto (u32 w) (u32 q) h,
            rw (h) refl,
            rw (e, f, g, h) refl,
          )
          | inr (p, h) ↦ inr (
            sem_post_reschedule p,
            freed_from (u32 q) (u32 w),
            rw (e, f, g, h) refl,
            inl (
              q,
              w,
              (e, f, g),
              some-free s.pronto (u32 w) (u32 q) p h,
              refl,
              freed-Leads s (u32 w) q p h,
            ),
          )
        ]
      ]
    ]
  ]
