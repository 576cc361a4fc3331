-- ===== src/System/Settle.antt =====
-- The threads of the server come to rest by themselves.
use native.Mathlib.Decide.{dec_lt}
use pronto.Prelude.{
  ℕ, zero, suc, ◌≤◌, ◌<◌, ◌≡◌, ◌⊎◌, refl, sym, ap, ◌∙◌, subst, some, List, [], arith, length, total,
  inl, inr,
}
use pronto.System.{
  System, start, Event, scheduler, rescheduler, dispatcher, post_notify, done, post_reschedule,
  next, stuck, step_scheduler, step_dispatcher, step, Reach,
}
use pronto.System.Steps.{get_elem?-none}
use pronto.System.Safety.{crash_iff}
use pronto.System.Runs.{run, Reach-run, next-cases}
use pronto.System.Rest.{remaining, brings, run-remaining}
use pronto.System.Idle.{IsIdle, IsIdle-job_queue}
use pronto.Cluster.{init_worker, init_workers}
use pronto.Threads.{waiting, idle}
use pronto.Threads.Effort.{post_effort, scheduler_effort, dispatcher_effort}
use pronto.System.Conservation.{total-idle}

-- A thread's own move that can be made.
abbrev pub CanMove : System → Type 0
CanMove s = (e : Event) × (brings e ≡ 0) × ((t : System) × (step s e ≡ next t))

done_brings : (i qty : ℕ) (e : Event) → brings e ≡ 0 → e ≡ done i qty → brings (done i qty) ≡ 0
done_brings i qty e z h = sym (ap brings h) ∙ z

module _ {n m : ℕ} {s : System} (r : Reach n m s) where
  -- A thread's move is made, or it waits: it never touches memory that is not there.
  moves_or_waits : (e : Event) → brings e ≡ 0 → CanMove s ⊎ (step s e ≡ stuck)
  moves_or_waits e z = elim (next-cases (step s e)) [
    | inl (t, f) ↦ inl (e, z, (t, f))
    | inr (inl f) ↦ inr f
    | inr (inr f) ↦
        let (i, qty, h, ge) = (crash_iff r e).0 f in absurd (omega (arith, done_brings i qty e z h))
  ]

  scan :
      (who : ℕ → Event)
      → ((k : ℕ) → brings (who k) ≡ 0)
      → (l : ℕ) → CanMove s ⊎ ((k : ℕ) → k < l → step s (who k) ≡ stuck)
  scan who z zero = inr (λ k lt. absurd (omega arith))
  scan who z (suc l) = elim (scan who z l) [
    | inl c ↦ inl c
    | inr below ↦ elim (moves_or_waits (who l) (z l)) [
      | inl c ↦ inl c
      | inr h ↦ inr (λ k lt. elim (dec_lt k l) [
        | yes less ↦ below k less
        | no ge ↦ let same : l ≡ k = omega (arith, ge) in subst (λ k. step s (who k) ≡ stuck) same h
      ])
    ]
  ]

scheduler-none : (s : System) (k : ℕ) → length s.schedulers ≤ k → step s (scheduler k) ≡ stuck
unfolding step step_scheduler
scheduler-none s k h = rw (get_elem?-none s.schedulers k h) refl

dispatcher-none : (s : System) (k : ℕ) → length s.dispatchers ≤ k → step s (dispatcher k) ≡ stuck
unfolding step step_dispatcher
dispatcher-none s k h = rw (get_elem?-none s.dispatchers k h) refl

everywhere :
    (s : System) (who : ℕ → Event) (l : ℕ)
    → ((k : ℕ) → k < l → step s (who k) ≡ stuck)
    → ((k : ℕ) → l ≤ k → step s (who k) ≡ stuck)
    → (k : ℕ) → step s (who k) ≡ stuck
everywhere s who l below above k = elim (dec_lt k l) [
  | yes lt ↦ below k lt
  | no ge ↦ above k (omega arith)
]

-- In a state that the server can reach, a thread can go on or none can.
progress : {n m : ℕ} {s : System} → Reach n m s → IsIdle s ⊎ CanMove s
progress {s} r = elim (scan r scheduler (λ k. refl) (length s.schedulers)) [
  | inl c ↦ inr c
  | inr a ↦ elim (scan r dispatcher (λ k. refl) (length s.dispatchers)) [
    | inl c ↦ inr c
    | inr b ↦ elim (moves_or_waits r rescheduler refl) [
      | inl c ↦ inr c
      | inr x ↦ elim (moves_or_waits r post_notify refl) [
        | inl c ↦ inr c
        | inr y ↦ elim (moves_or_waits r post_reschedule refl) [
          | inl c ↦ inr c
          | inr z ↦ inl (record {
            schedulers = everywhere s scheduler (length s.schedulers) a (scheduler-none s);
            rescheduler = x;
            dispatchers = everywhere s dispatcher (length s.dispatchers) b (dispatcher-none s);
            post_notify = y;
            post_reschedule = z;
          })
        ]
      ]
    ]
  ]
]

-- From every state that a server with a scheduler can reach, whatever the order of the moves that its
-- threads make without another request, they are at most as many as `remaining` counts there; and after
-- them a thread can still go on, or all threads are at rest and the job queue is empty. So each schedule
-- that is carried on as long as it can be ends at rest.
pub Reach-settles :
    {n m : ℕ} {s : System}
    → Reach n m s
    → 1 ≤ m
    → (es : List Event) (t : System) → run s es ≡ some t
    → total brings es ≡ 0
    → (length es ≤ remaining s) × (CanMove t ⊎ (IsIdle t × (t.pronto.job_queue ≡ [])))
Reach-settles {s} r few es t ran z = (
  omega (arith, run-remaining s t es ran),
  elim (progress (Reach-run s es t r ran)) [
    | inl i ↦ inr (i, IsIdle-job_queue (Reach-run s es t r ran) few i)
    | inr c ↦ inl c
  ],
)

quiet : (n j : ℕ) → total post_effort (init_workers n j) ≡ 0
unfolding init_workers init_worker
quiet zero j = refl
quiet (suc n) j = omega (arith, quiet n (suc j))

remaining-start : (n m : ℕ) → remaining (start n m) ≡ 0
unfolding start
remaining-start n m = omega (
  arith,
  quiet n 0,
  total-idle scheduler_effort waiting m refl,
  total-idle dispatcher_effort idle n refl,
)

-- In any order of its threads the server makes at most 13 moves for each request to /schedule and 5
-- for each to /done, the request's own move among them: no thread goes on for ever without requests.
pub run-length :
    (n m : ℕ) (es : List Event) (t : System)
    → run (start n m) es ≡ some t
    → length es ≤ total brings es
run-length n m es t ran = omega (arith, run-remaining (start n m) t es ran, remaining-start n m)
