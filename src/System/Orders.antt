-- ===== src/System/Orders.antt =====
-- Two dispatchers never get into each other's way: the order of their moves is of no matter.
use pronto.Prelude.{
  ℕ, zero, suc, ◌≡◌, ◌≢◌, refl, sym, ap, ◌∙◌, Option, none, some, List, [], ◌∷◌, get_elem?, set,
  get_elem?-set_ne, set-get_elem?, subst,
}
use pronto.PrioQueue.Order.{take_job}
use pronto.Cluster.{Worker, Pronto, update_worker}
use pronto.Threads.Update.{then_go-inv}
use pronto.Threads.Jobs.{dispatcher_move-on}
use pronto.Threads.Covered.Moves.{go_injective}
use pronto.Threads.{
  go, then_go, DispatcherPc, idle, notified, sending, dispatcher_wait, dispatcher_took,
  dispatcher_on, dispatcher_move,
}
use pronto.System.{System, dispatcher, next, step, step_dispatcher}
use pronto.System.Conservation.{resume-inv}

set_comm {ℓ} :
    {A : Type ℓ} (xs : List A) (i j : ℕ) (a b : A)
    → i ≢ j
    → set (set xs i a) j b ≡ set (set xs j b) i a
set_comm [] i j a b ne = refl
set_comm (x ∷ xs) zero zero a b ne = absurd (ne refl)
set_comm (x ∷ xs) zero (suc j) a b ne = refl
set_comm (x ∷ xs) (suc i) zero a b ne = refl
set_comm (x ∷ xs) (suc i) (suc j) a b ne =
    ap (λ l. x ∷ l) (set_comm xs i j a b (λ e. ne (ap suc e)))

-- The state with another worker `k`.
abbrev with_worker : Pronto → ℕ → Worker → Pronto
with_worker p k x = record p { workers_instances = set p.workers_instances k x }

-- A move of dispatcher `k` reads and writes its own worker only.
abbrev IsLocal : ℕ → DispatcherPc → Worker → Worker → DispatcherPc → Type 0
IsLocal k pc x x' pc' =
    (p : Pronto)
    → get_elem? p.workers_instances k ≡ some x
    → dispatcher_on p k pc x ≡ go (with_worker p k x') pc'

update_here :
    {A : Type 0} (p : Pronto) (k : ℕ) (f : Worker → Worker) (x : Worker) (pc : A)
    → get_elem? p.workers_instances k ≡ some x
    → then_go (update_worker p k f) pc ≡ go (with_worker p k (f x)) pc
unfolding update_worker
update_here p k f x pc at = rw (at, then_go) refl

wait-IsLocal :
    (p : Pronto) (k n : ℕ) (x : Worker) {q : Pronto} {pc' : DispatcherPc}
    → x.notify ≡ n
    → dispatcher_wait p k n ≡ go q pc'
    → (x' : Worker) × IsLocal k idle x x' pc'
unfolding dispatcher_on
wait-IsLocal p k zero x e ran = cc
wait-IsLocal p k (suc n) x e ran =
    let (r, same) = then_go-inv _ ran in
    (
      record x { notify = n },
      λ p at. rw (e, ← same) (update_here p k (λ w. record w { notify = n }) x notified at),
    )

took-IsLocal :
    (p : Pronto) (k : ℕ) (l : List ℕ) (x : Worker) {q : Pronto} {pc' : DispatcherPc}
    → x.scheduler_jobs ≡ l
    → dispatcher_took p k (take_job l) ≡ go q pc'
    → (x' : Worker) × IsLocal k notified x x' pc'
unfolding dispatcher_on take_job
took-IsLocal p k [] x e ran = cc
took-IsLocal p k (v ∷ l) x e ran =
    let (r, same) = then_go-inv _ ran in
    (
      record x { scheduler_jobs = l },
      λ p at.
          rw (e, ← same) (update_here p k (λ w. record w { scheduler_jobs = l }) x (sending v) at),
    )

on-IsLocal :
    (p : Pronto) (k : ℕ) (pc : DispatcherPc) (x : Worker) {q : Pronto} {pc' : DispatcherPc}
    → dispatcher_on p k pc x ≡ go q pc'
    → (x' : Worker) × IsLocal k pc x x' pc'
unfolding dispatcher_on
on-IsLocal p k idle x ran = wait-IsLocal p k x.notify x refl ran
on-IsLocal p k notified x ran = took-IsLocal p k x.scheduler_jobs x refl ran
on-IsLocal p k (sending v) x ran = (
  x,
  λ p at.
      subst (λ c. go p idle ≡ go (with_worker p k x) c) (go_injective ran).1
        (ap (λ ws. go (record p { workers_instances = ws }) idle)
          (sym (set-get_elem? p.workers_instances k x at))),
)

-- The state after a move of dispatcher `k`.
abbrev moved : System → ℕ → Worker → DispatcherPc → System
moved s k x pc = record s {
  pronto = with_worker s.pronto k x;
  dispatchers = set s.dispatchers k pc;
}

-- The same move in any state with the same worker and dispatcher at `k`.
abbrev Repeats : ℕ → Worker → DispatcherPc → Worker → DispatcherPc → Type 0
Repeats k x pc x' pc' =
    (s : System)
    → get_elem? s.dispatchers k ≡ some pc
    → get_elem? s.pronto.workers_instances k ≡ some x
    → step s (dispatcher k) ≡ next (moved s k x' pc')

repeats :
    (k : ℕ) (x x' : Worker) (pc pc' : DispatcherPc) → IsLocal k pc x x' pc' → Repeats k x pc x' pc'
unfolding step step_dispatcher dispatcher_move
repeats k x x' pc pc' local s on at = rw (on, at, dispatcher_move, local s.pronto at) refl

step-Repeats :
    (s t : System) (k : ℕ) (o : Option DispatcherPc)
    → get_elem? s.dispatchers k ≡ o
    → step_dispatcher s k o ≡ next t
    → (x : Worker) × (x' : Worker) × (pc : DispatcherPc) × (pc' : DispatcherPc) × (get_elem?
          s.dispatchers k
        ≡ some pc)
      × (get_elem? s.pronto.workers_instances k ≡ some x)
      × (t ≡ moved s k x' pc')
      × Repeats k x pc x' pc'
unfolding step_dispatcher
step-Repeats s t k none on ran = cc
step-Repeats s t k (some pc) on ran =
    let (q, pc', went, e) = resume-inv (dispatcher_move s.pronto k pc) _ t ran in
    let (x, at, acts) = dispatcher_move-on s.pronto k pc went in
    let (x', local) = on-IsLocal s.pronto k pc x acts in
    let same = (go_injective (sym acts ∙ local s.pronto at)).0 in
    (x, x', pc, pc', on, at, rw (← same) e, repeats k x x' pc pc' local)

moved_comm :
    (s : System) (j k : ℕ) (x y : Worker) (pc qc : DispatcherPc)
    → k ≢ j
    → moved (moved s k y qc) j x pc ≡ moved (moved s j x pc) k y qc
moved_comm s j k x y pc qc ne =
    let ws = set_comm s.pronto.workers_instances k j y x ne in
    let ds = set_comm s.dispatchers k j qc pc ne in
    λ i. record s { pronto = record s.pronto { workers_instances = ws i }; dispatchers = ds i }

-- Two dispatchers that both can move in a state, whatever the state of the server is: neither takes its
-- move from the other, and they reach the same state in either order.
pub dispatchers-commute :
    (s t v : System) (j k : ℕ)
    → j ≢ k
    → step s (dispatcher j) ≡ next t
    → step s (dispatcher k) ≡ next v
    → (u : System) × (step t (dispatcher k) ≡ next u) × (step v (dispatcher j) ≡ next u)
unfolding step
dispatchers-commute s t v j k ne first second =
    let (x, x', pc, pc', on, at, e, again) =
      step-Repeats s t j (get_elem? s.dispatchers j) refl first in
    let (y, y', qc, qc', on', at', f, again') =
      step-Repeats s v k (get_elem? s.dispatchers k) refl second in
    let back : k ≢ j = λ q. ne (sym q) in
    (
      moved t k y' qc',
      again' t (rw (e) (get_elem?-set_ne s.dispatchers j k pc' ne ∙ on'))
          (rw (e) (get_elem?-set_ne s.pronto.workers_instances j k x' ne ∙ at')),
      again v (rw (f) (get_elem?-set_ne s.dispatchers k j qc' back ∙ on))
            (rw (f) (get_elem?-set_ne s.pronto.workers_instances k j y' back ∙ at))
          ∙ ap next (
              ap (λ r. moved r j x' pc') f
              ∙ moved_comm s j k x' y' pc' qc' back
              ∙ sym (ap (λ r. moved r k y' qc') e)),
    )
