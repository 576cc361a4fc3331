-- ===== src/System/Runs.antt =====
-- Reachable states by evaluation: run a list of events from the start.
use pronto.Prelude.{
  ℕ, ◌≡◌, refl, Option, none, some, List, [], ◌∷◌, ◌⊎◌, inl, inr, subst, some-injective,
}
use pronto.System.{System, Event, Outcome, next, stuck, crash, step, Reach, later}

-- Every event has to be a move; `none` is a thread that waits, or a crash.
unfoldable pub run : System → List Event → Option System
run s [] = some s
run s (e ∷ es) = elim (step s e) [ next t ↦ run t es | stuck ↦ none | crash ↦ none ]

abbrev pub state_or : System → Option System → System
state_or s none = s
state_or s (some t) = t

pub next-cases : (o : Outcome) → ((t : System) × (o ≡ next t)) ⊎ ((o ≡ stuck) ⊎ (o ≡ crash))
next-cases (next t) = inl (t, refl)
next-cases stuck = inr (inl refl)
next-cases crash = inr (inr refl)

-- A run leads to a reachable state.
pub Reach-run :
    {n m : ℕ} (s : System) (es : List Event) (t : System)
    → Reach n m s
    → run s es ≡ some t
    → Reach n m t
unfolding run
Reach-run {n} {m} s [] t r ran = subst (Reach n m) (some-injective _ _ ran) r
Reach-run s (e ∷ es) t r ran = elim (next-cases (step s e)) [
  | inl (u, f) ↦ Reach-run u es t (later r e f) (rw (f, run) at ran)
  | inr (inl f) ↦ cc (rw (f, run) at ran)
  | inr (inr f) ↦ cc (rw (f, run) at ran)
]
