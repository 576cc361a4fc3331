-- ===== src/System/Moves.antt =====
-- Each kind of step keeps the invariant.
use pronto.Prelude.{
  ℕ, suc, ◌+◌, ◌≡◌, refl, some, List, arith, ◌==◌, get_elem?, set, length, All, All-set,
  All-get_elem?, total-set, total-get_elem?, subst, get_elem?-set, length-set, Bool-cases, ==_iff,
  some-injective, inl, inr, sym, ap, ◌∙◌,
}
use pronto.PrioQueue.Order.{length-insert_job}
use pronto.Cluster.{Worker, Pronto, add_job, freed, free_capacity}
use pronto.Threads.{
  go, SchedulerPc, scheduler_move, ReschedulerPc, holds_waiting, rescheduler_move, DispatcherPc,
  dispatcher_move,
}
use pronto.Threads.Update.{Update, free-Update}
use pronto.Threads.Posts.{
  owes_job, owes_post, owes_take, owes_take_at, scheduler_move-KeepsPosts,
  rescheduler_move-KeepsPosts, dispatcher_move-KeepsPosts,
}
use pronto.Threads.Safe.{InRange, ReInRange, scheduler_move-InRange, rescheduler_move-InRange}
use pronto.Threads.Jobs.{scheduler_move-notify, rescheduler_move-KeepsQueue, dispatcher_move-Update}
use pronto.System.{System}
use pronto.System.Invariant.{Inv}

-- What the dispatchers owe after the write of one.
owes_take-set :
    (ds : List DispatcherPc) (k i : ℕ) (pc pc' d' : DispatcherPc)
    → get_elem? ds k ≡ some pc
    → get_elem? (set ds k pc') i ≡ some d'
    → (d : DispatcherPc) × (get_elem? ds i ≡ some d)
      × (owes_take d' + owes_take_at k i pc ≡ owes_take d + owes_take_at k i pc')
owes_take-set ds k i pc pc' d' at h =
    let (d, hd, f) = get_elem?-set ds k i pc' h in
    (
      d,
      hd,
      elim (Bool-cases (k == i)) [
        | inl here ↦
            let same : pc ≡ d =
              some-injective _ _ (sym at ∙ ap (get_elem? ds) ((==_iff k i).0 here) ∙ hd) in
            rw (here, f, here, same) (omega arith)
        | inr away ↦ rw (away, f, away) refl
      ],
    )

-- Freeing capacity leaves the worker's queue and semaphore alone.
changed-freed :
    {p q : Pronto} {b : ℕ} (qty : ℕ)
    → Update p q b (freed qty)
    → (i : ℕ) (w' : Worker) → get_elem? q.workers_instances i ≡ some w'
    → (w : Worker) × (get_elem? p.workers_instances i ≡ some w)
      × (w'.notify ≡ w.notify)
      × (length w'.scheduler_jobs ≡ length w.scheduler_jobs)
changed-freed {b} qty u i w' h =
    let (w, at, e) = u.worker i w' h in (w, at, ground arith, ground arith)

module _ (s : System) (inv : Inv s) where
  open inv use {dispatched, in_range, re_in_range, notified, posted}

  pub scheduler-Inv :
      (k : ℕ) (pc : SchedulerPc) {q : Pronto} {pc' : SchedulerPc}
      → get_elem? s.schedulers k ≡ some pc
      → scheduler_move s.pronto (holds_waiting s.rescheduler) pc ≡ go q pc'
      → Inv (record s { pronto = q; schedulers = set s.schedulers k pc' })
  scheduler-Inv k pc {q} {pc'} at moved =
      let mine = All-get_elem? _ s.schedulers k pc in_range at in
      let (there, same) = scheduler_move-InRange s.pronto _ pc mine moved in
      let owed = total-get_elem? owes_job s.schedulers k pc at in
      record {
        dispatched = dispatched ∙ sym same;
        in_range =
            subst (λ n. All (InRange n) (set s.schedulers k pc')) (sym same)
              (All-set _ s.schedulers k pc' in_range there);
        re_in_range = subst (λ n. ReInRange n s.rescheduler) (sym same) re_in_range;
        notified = omega (
          arith,
          scheduler_move-notify s.pronto _ pc (omega arith) moved,
          total-set owes_job s.schedulers k pc' pc at,
        );
        posted = λ i w' d h hd.
            let (w, at', e) = scheduler_move-KeepsPosts s.pronto _ pc moved i w' h in
            omega (arith, posted i w d at' hd, total-set (owes_post i) s.schedulers k pc' pc at);
      }

  pub rescheduler-Inv :
      {q : Pronto} {pc' : ReschedulerPc}
      → rescheduler_move s.pronto s.rescheduler ≡ go q pc'
      → Inv (record s { pronto = q; rescheduler = pc' })
  rescheduler-Inv {q} {pc'} moved =
      let (there, same) = rescheduler_move-InRange s.pronto s.rescheduler re_in_range moved in
      let (n, l) = rescheduler_move-KeepsQueue s.pronto s.rescheduler moved in
      record {
        dispatched = dispatched ∙ sym same;
        in_range = subst (λ n. All (InRange n) s.schedulers) (sym same) in_range;
        re_in_range = subst (λ n. ReInRange n pc') (sym same) there;
        notified = omega (arith, n, ap length l);
        posted = λ i w' d h hd.
            let (w, at', e) = rescheduler_move-KeepsPosts s.pronto s.rescheduler moved i w' h in
            omega (arith, posted i w d at' hd);
      }

  pub dispatcher-Inv :
      (k : ℕ) (pc : DispatcherPc) {q : Pronto} {pc' : DispatcherPc}
      → get_elem? s.dispatchers k ≡ some pc
      → dispatcher_move s.pronto k pc ≡ go q pc'
      → Inv (record s { pronto = q; dispatchers = set s.dispatchers k pc' })
  dispatcher-Inv k pc {q} {pc'} at moved =
      let ((n, l), same) = dispatcher_move-Update s.pronto k pc moved in
      record {
        dispatched = length-set s.dispatchers k pc' ∙ dispatched ∙ sym same;
        in_range = subst (λ n. All (InRange n) s.schedulers) (sym same) in_range;
        re_in_range = subst (λ n. ReInRange n s.rescheduler) (sym same) re_in_range;
        notified = omega (arith, n, ap length l);
        posted = λ i w' d' h hd'.
            let (w, at', e) = dispatcher_move-KeepsPosts s.pronto k pc moved i w' h in
            let (d, hd, f) = owes_take-set s.dispatchers k i pc pc' d' at hd' in
            omega (arith, posted i w d at' hd);
      }

  pub schedule-Inv :
      (qty : ℕ) → Inv (record s { pronto = add_job s.pronto qty; posting = s.posting + 1 })
  unfolding add_job
  schedule-Inv qty = record {
    dispatched = dispatched;
    in_range = in_range;
    re_in_range = re_in_range;
    notified = omega (arith, length-insert_job qty s.pronto.job_queue);
    posted = posted;
  }

  pub done-Inv :
      (i qty : ℕ) {q : Pronto}
      → free_capacity s.pronto i qty ≡ some q
      → Inv (record s { pronto = q; freeing = s.freeing + 1 })
  done-Inv i qty ran =
      let u = free-Update s.pronto i qty ran in
      record {
        dispatched = dispatched ∙ sym u.workers;
        in_range = subst (λ n. All (InRange n) s.schedulers) (sym u.workers) in_range;
        re_in_range = subst (λ n. ReInRange n s.rescheduler) (sym u.workers) re_in_range;
        notified = omega (arith, u.notify, ap length u.job_queue);
        posted = λ j w' d h hd.
            let (w, at', n, l) = changed-freed qty u j w' h in omega (arith, posted j w d at' hd);
      }

  pub post_notify-Inv :
      (n : ℕ)
      → s.posting ≡ suc n
      → Inv (record s { pronto = record s.pronto { notify = s.pronto.notify + 1 }; posting = n })
  post_notify-Inv n e = record {
    dispatched = dispatched;
    in_range = in_range;
    re_in_range = re_in_range;
    notified = omega arith;
    posted = posted;
  }

  pub post_reschedule-Inv :
      (n : ℕ)
      → Inv (record s {
        pronto = record s.pronto { reschedule = s.pronto.reschedule + 1 };
        freeing = n;
      })
  post_reschedule-Inv n = record {
    dispatched = dispatched;
    in_range = in_range;
    re_in_range = re_in_range;
    notified = notified;
    posted = posted;
  }
