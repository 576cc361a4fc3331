-- ===== src/System/Fails.antt =====
-- A dispatcher whose POST fails leaves the shared state as one whose POST is answered.
use pronto.Prelude.{ℕ, ◌≡◌, refl, sym, ◌∙◌, Option, none, some, get_elem?, inl, inr, ◌⊎◌}
use pronto.Threads.{
  DispatcherPc, idle, notified, sending, dispatcher_move, dispatcher_fail, dispatcher_on,
}
use pronto.System.{System, dispatcher, fail_post, next, stuck, step_dispatcher, step_fail, step}

step_fail-cases :
    (s : System) (k : ℕ) (o : Option DispatcherPc)
    → (step_fail s k o ≡ stuck) ⊎ (step_fail s k o ≡ step_dispatcher s k o)
unfolding step_fail dispatcher_fail step_dispatcher dispatcher_move dispatcher_on
step_fail-cases s k none = inl refl
step_fail-cases s k (some idle) = inl refl
step_fail-cases s k (some notified) = inl refl
step_fail-cases s k (some (sending v)) = inr refl

pub fail-cases :
    (s : System) (k : ℕ)
    → (step s (fail_post k) ≡ stuck) ⊎ (step s (fail_post k) ≡ step s (dispatcher k))
unfolding step
fail-cases s k = step_fail-cases s k (get_elem? s.dispatchers k)

pub fail-dispatcher :
    (s t : System) (k : ℕ) → step s (fail_post k) ≡ next t → step s (dispatcher k) ≡ next t
fail-dispatcher s t k ran = elim (fail-cases s k) [ inl e ↦ cc | inr e ↦ sym e ∙ ran ]
