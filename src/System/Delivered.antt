-- ===== src/System/Delivered.antt =====
-- Where the jobs of a server with one scheduler end up before the first report to /done.
use pronto.Prelude.{
  ℕ, ◌+◌, ◌*◌, ◌^◌, ◌≤◌, ◌<◌, ◌≡◌, ap, ◌∙◌, some, List, [], ◌∷◌, ◌++◌, arith, length, total, All,
  inl, inr, some-injective, ◌⊎◌,
}
use pronto.Threads.Covered.{Waits}
use pronto.System.{
  System, start, Event, scheduler, rescheduler, dispatcher, fail_post, schedule, post_notify, done,
  post_reschedule, step, started,
}
use pronto.System.Conservation.{along, accepted, sent, dropped}
use pronto.System.Covered.{IsUnreported, run-covered}
use pronto.System.Idle.{IsIdle, run-idle}
use pronto.System.Rest.{brings, remaining}
use pronto.System.Settle.{CanMove, Reach-settles}
use pronto.System.Runs.{run, next-cases, Reach-run}

-- A run that goes on.
pub run-append :
    (s t : System) (es more : List Event) → run s es ≡ some t → run s (es ++ more) ≡ run t more
unfolding run
run-append s t [] more ran = ap (λ u. run u more) (some-injective _ _ ran)
run-append s t (e ∷ es) more ran = elim (next-cases (step s e)) [
  | inl (u, f) ↦ rw (f, run) (run-append u t es more (rw (f, run) at ran))
  | inr (inl f) ↦ cc (rw (f, run) at ran)
  | inr (inr f) ↦ cc (rw (f, run) at ran)
]

-- The threads' own moves are no reports.
brings-IsUnreported : (e : Event) → brings e ≡ 0 → IsUnreported e
brings-IsUnreported (schedule qty) z = tt
brings-IsUnreported (done i qty) z = absurd (omega arith)
brings-IsUnreported (scheduler k) z = tt
brings-IsUnreported rescheduler z = tt
brings-IsUnreported (dispatcher k) z = tt
brings-IsUnreported (fail_post k) z = tt
brings-IsUnreported post_notify z = tt
brings-IsUnreported post_reschedule z = tt

All-IsUnreported : (es : List Event) → total brings es ≡ 0 → All IsUnreported es
All-IsUnreported [] z = tt
All-IsUnreported (e ∷ es) z =
    (brings-IsUnreported e (omega arith), All-IsUnreported es (omega arith))

All-append :
    (es more : List Event)
    → All IsUnreported es
    → All IsUnreported more
    → All IsUnreported (es ++ more)
All-append [] more a b = b
All-append (e ∷ es) more (h, a) b = (h, All-append es more a b)

-- After any run of a server with one scheduler, whose workers' resources fit an `int` together, in
-- which no worker has reported to /done, and any further moves of the threads without another request:
-- these are at most as many as `remaining` counts, and a thread can still go on, or all are at rest. At
-- rest, for every weight of a request, each accepted job has been sent to its worker by a POST that was
-- answered, was dropped because its POST was not made or failed, or is in the waiting queue, and each
-- that waits is larger than what any worker has left.
pub run-delivers :
    (w : ℕ → ℕ) (n : ℕ) (es : List Event) (t : System)
    → 15 * n < 2 ^ 31
    → All IsUnreported es
    → run (start n 1) es ≡ some t
    → (more : List Event) (u : System) → run t more ≡ some u
    → total brings more ≡ 0
    → (length more ≤ remaining t)
      × (CanMove u
          ⊎ (IsIdle u
              × (along (accepted w) (start n 1) (es ++ more)
                  ≡ along (sent w) (start n 1) (es ++ more)
                    + along (dropped w) (start n 1) (es ++ more)
                    + total w u.pronto.waiting_queue)
              × Waits u.pronto))
run-delivers w n es t few h ran more u on z =
    let (short, ends) =
      Reach-settles (Reach-run (start n 1) es t started ran) (omega arith) more u on z in
    let whole = run-append (start n 1) t es more ran ∙ on in
    let (sound, covered, waits) =
      run-covered n (es ++ more) u few (All-append es more h (All-IsUnreported more z)) whole in
    (
      short,
      elim ends [
        | inl c ↦ inl c
        | inr (rest, empty) ↦
            inr (rest, run-idle w n 1 (es ++ more) u (omega arith) whole rest, waits)
      ],
    )
