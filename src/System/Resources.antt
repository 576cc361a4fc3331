-- ===== src/System/Resources.antt =====
-- The resources of each worker along a run: what is reserved leaves with a job, sent or dropped, and what
-- is freed comes back.
use pronto.Prelude.{
  ℕ, zero, suc, ◌+◌, ◌≡◌, refl, Option, none, some, List, arith, ◌==◌, get_elem?, set, total,
  total-set, total-get_elem?, get_elem?-set, Bool-cases, ==_iff, some-injective, inl, inr, sym, ap,
  subst, ◌∙◌,
}
use pronto.Word.{u32, u64}
use pronto.Cluster.{Worker, Pronto, is_schedulable, add_job, free_capacity}
use pronto.Threads.{
  SchedulerPc, scheduler_move, holds_waiting, rescheduler_move, DispatcherPc, dispatcher_move,
}
use pronto.Threads.Stored.{carried, di_carried}
use pronto.Threads.Balance.{oversize}
use pronto.Threads.Units.{
  size, units, owes_units, reowes_units, scheduler_move-KeepsUnits, rescheduler_move-KeepsUnits,
}
use pronto.Threads.Units.Sends.{only_at, dispatcher_move-SendsUnits, free-units}
use pronto.System.{
  System, Event, scheduler, rescheduler, dispatcher, fail_post, schedule, post_notify, done,
  post_reschedule, next, step_scheduler, step_dispatcher, step_schedule, step_done,
  step_post_notify, step_post_reschedule, step,
}
use pronto.System.Fails.{fail-dispatcher}
use pronto.System.Conservation.{in_flight, sent_by, resume-inv, next_injective}

-- Worker `i` and its dispatcher.
abbrev pub Pair : System → ℕ → Worker → DispatcherPc → Type 0
Pair s i w d =
    (get_elem? s.pronto.workers_instances i ≡ some w) × (get_elem? s.dispatchers i ≡ some d)

-- The units of worker `i` in a state: left, queued, reserved by a thread, and being sent.
abbrev pub held : System → ℕ → Worker → DispatcherPc → ℕ
held s i w d =
    units w + total (owes_units i) s.schedulers + reowes_units i s.rescheduler + di_carried size d

-- What a step sends to worker `i`, what it loses of that by a POST that fails, and what it gives back
-- to it.
abbrev pub sent_to : ℕ → System → Event → ℕ
sent_to i s (dispatcher k) = only_at k i (sent_by size (get_elem? s.dispatchers k))
sent_to i s _ = 0

abbrev pub dropped_from : ℕ → System → Event → ℕ
dropped_from i s (fail_post k) = only_at k i (sent_by size (get_elem? s.dispatchers k))
dropped_from i s _ = 0

-- What leaves the server for worker `i`, whether the POST is answered or not.
abbrev pub left_for : ℕ → System → Event → ℕ
left_for i s e = sent_to i s e + dropped_from i s e

abbrev pub given_back : ℕ → System → Event → ℕ
given_back i s (done k qty) = only_at k i (u32 qty)
given_back i s _ = 0

-- The units of worker `i` from `s` to `t`.
abbrev pub Accounts : System → System → ℕ → (sent given : ℕ) → Type 0
Accounts s t i sent given =
    (w' : Worker) (d' : DispatcherPc)
    → Pair t i w' d'
    → (w : Worker) × (d : DispatcherPc) × Pair s i w d
      × (u64 (held t i w' d' + sent) ≡ u64 (held s i w d + given))

-- What the dispatcher at `i` holds, after the write of one.
carried-set :
    (ds : List DispatcherPc) (k i : ℕ) (pc pc' d' : DispatcherPc)
    → get_elem? ds k ≡ some pc
    → get_elem? (set ds k pc') i ≡ some d'
    → (d : DispatcherPc) × (get_elem? ds i ≡ some d)
      × (di_carried size d' + only_at k i (di_carried size pc)
          ≡ di_carried size d + only_at k i (di_carried size pc'))
carried-set ds k i pc pc' d' at h =
    let (d, hd, f) = get_elem?-set ds k i pc' h in
    (
      d,
      hd,
      elim (Bool-cases (k == i)) [
        | inl here ↦
            let same : pc ≡ d =
              some-injective _ _ (sym at ∙ ap (get_elem? ds) ((==_iff k i).0 here) ∙ hd) in
            rw (here, f, here, same) (omega arith)
        | inr away ↦ rw (away, f, away) refl
      ],
    )

module _ (s t : System) (fits : in_flight oversize s ≡ 0) (i : ℕ) where
  scheduler-Accounts :
      (k : ℕ) (o : Option SchedulerPc)
      → get_elem? s.schedulers k ≡ o
      → step_scheduler s k o ≡ next t
      → Accounts s t i 0 0
  unfolding step_scheduler
  scheduler-Accounts k none at ran = cc
  scheduler-Accounts k (some pc) at ran =
      let (q, pc', moved, e) =
        resume-inv (scheduler_move s.pronto (holds_waiting s.rescheduler) pc) _ t ran in
      let mine = total-get_elem? (carried oversize) s.schedulers k pc at in
      let moves = scheduler_move-KeepsUnits s.pronto _ pc (omega (arith, mine, fits)) moved in
      rw (e) λ w' d' (h, hd).
        let (w, at', same) = moves i w' h in
        (w, d', (at', hd), omega (arith, same, total-set (owes_units i) s.schedulers k pc' pc at))

  rescheduler-Accounts : step s rescheduler ≡ next t → Accounts s t i 0 0
  unfolding step
  rescheduler-Accounts ran =
      let (q, pc', moved, e) = resume-inv (rescheduler_move s.pronto s.rescheduler) _ t ran in
      let moves = rescheduler_move-KeepsUnits s.pronto s.rescheduler (omega (arith, fits)) moved in
      rw (e) λ w' d' (h, hd).
        let (w, at', same) = moves i w' h in (w, d', (at', hd), omega (arith, same))

  dispatcher-Accounts :
      (k : ℕ) (o : Option DispatcherPc)
      → get_elem? s.dispatchers k ≡ o
      → step_dispatcher s k o ≡ next t
      → Accounts s t i (only_at k i (sent_by size o)) 0
  unfolding step_dispatcher
  dispatcher-Accounts k none at ran = cc
  dispatcher-Accounts k (some pc) at ran =
      let (q, pc', moved, e) = resume-inv (dispatcher_move s.pronto k pc) _ t ran in
      let moves = dispatcher_move-SendsUnits s.pronto k pc moved in
      rw (e) λ w' d' (h, hd).
        let (w, at', same) = moves i w' h in
        let (d, hd', sends) = carried-set s.dispatchers k i pc pc' d' at hd in
        (w, d, (at', hd'), omega (arith, same, sends))

  -- What leaves the dispatcher is sent or dropped.
  dispatcher-left :
      (k sent lost : ℕ)
      → step_dispatcher s k (get_elem? s.dispatchers k) ≡ next t
      → only_at k i (sent_by size (get_elem? s.dispatchers k)) ≡ sent + lost
      → Accounts s t i (sent + lost) 0
  dispatcher-left k sent lost ran split =
      subst (λ n. Accounts s t i n 0) split
        (dispatcher-Accounts k (get_elem? s.dispatchers k) refl ran)

  done-Accounts :
      (k qty : ℕ) (o : Option Pronto)
      → free_capacity s.pronto k (u32 qty) ≡ o
      → step_done s o ≡ next t
      → Accounts s t i 0 (only_at k i (u32 qty))
  done-Accounts k qty none freed ran = cc
  done-Accounts k qty (some p) freed ran =
      let moves = free-units s.pronto k (u32 qty) freed i in
      rw (← next_injective ran)
        λ w' d' (h, hd). let (w, at', same) = moves w' h in (w, d', (at', hd), omega (arith, same))

  post_notify-Accounts : (n : ℕ) → step_post_notify s n ≡ next t → Accounts s t i 0 0
  post_notify-Accounts zero ran = cc
  post_notify-Accounts (suc n) ran = rw (← next_injective ran) λ w' d' h. (w', d', h, refl)

  post_reschedule-Accounts : (n : ℕ) → step_post_reschedule s n ≡ next t → Accounts s t i 0 0
  post_reschedule-Accounts zero ran = cc
  post_reschedule-Accounts (suc n) ran = rw (← next_injective ran) λ w' d' h. (w', d', h, refl)

  pub step-Accounts :
      (e : Event) → step s e ≡ next t → Accounts s t i (left_for i s e) (given_back i s e)
  unfolding step step_schedule add_job
  step-Accounts (scheduler k) ran = scheduler-Accounts k (get_elem? s.schedulers k) refl ran
  step-Accounts rescheduler ran = rescheduler-Accounts ran
  step-Accounts (dispatcher k) ran =
      dispatcher-left k (only_at k i (sent_by size (get_elem? s.dispatchers k))) 0 ran (omega arith)
  step-Accounts (fail_post k) ran =
      dispatcher-left k 0 (only_at k i (sent_by size (get_elem? s.dispatchers k)))
        (fail-dispatcher s t k ran) (omega arith)
  step-Accounts (schedule qty) ran = elim (Bool-cases (is_schedulable s.pronto (u32 qty))) [
    | inl e ↦ rw (← next_injective (rw (e) at ran)) λ w' d' h. (w', d', h, refl)
    | inr e ↦ rw (← next_injective (rw (e) at ran)) λ w' d' h. (w', d', h, refl)
  ]
  step-Accounts post_notify ran = post_notify-Accounts s.posting ran
  step-Accounts (done k qty) ran = done-Accounts k qty (free_capacity s.pronto k (u32 qty)) refl ran
  step-Accounts post_reschedule ran = post_reschedule-Accounts s.freeing ran
