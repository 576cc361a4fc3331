-- ===== src/Server/Safety.antt =====
-- The server thread never uses a handler that is not there.
use native.Mathlib.Nat.{mod-lt}
use pronto.Prelude.{
  ℕ, zero, suc, ◌+◌, ◌≤◌, ◌≡◌, ◌≢◌, refl, ap, ◌∙◌, subst, Bool, true, false, some, List, [], ◌∷◌,
  ◌==◌, length, get_elem?-lt, length-set, arith, Bool-cases, Option-cases, inl, inr,
}
use pronto.Sockets.{make_nonblocking, create_socket}
use pronto.Server.{
  Handler, Server, Outcome, running, exited, fault, Startup, Accept, accepted, try_again, failed,
  give, after, init_handlers, started, fresh_server, server_init, server_on_connection, server_loop,
  serve_events,
}
use pronto.Server.RoundRobin.{IsReady}

-- An outcome without a fault.
abbrev pub IsSafe : Outcome → Type 0
IsSafe (running t) = IsReady t
IsSafe exited = Unit
IsSafe fault = ⊥

give-IsSafe :
    (s : Server) (fd : ℕ) (added : Bool) (h : Handler)
    → IsReady s
    → IsSafe (give s fd added (some h))
give-IsSafe s fd false h ready = tt
give-IsSafe s fd true h ready = record {
  some_handler = ready.some_handler;
  counted = length-set s.handlers s.selector _ ∙ ready.counted;
  selects = mod-lt (s.selector + 1) ready.some_handler;
}

connection-IsSafe : (s : Server) (a : Accept) → IsReady s → IsSafe (server_on_connection s a)
unfolding server_on_connection
connection-IsSafe s try_again ready = ready
connection-IsSafe s failed ready = tt
connection-IsSafe s (accepted fd calls added) ready = elim (Option-cases (make_nonblocking calls)) [
  | inl e ↦ rw (e, server_on_connection) tt
  | inr (flags, e) ↦
      let (h, at) =
        get_elem?-lt s.handlers s.selector (omega (arith, ready.counted, ready.selects)) in
      rw (e, server_on_connection, at) (give-IsSafe s fd added h ready)
]

after-IsSafe :
    (o : Outcome) (k : Server → Outcome)
    → IsSafe o
    → ((t : Server) → IsReady t → IsSafe (k t))
    → IsSafe (after o k)
after-IsSafe (running t) k r h = h t r
after-IsSafe exited k r h = tt
after-IsSafe fault k r h = r

loop-IsSafe : (s : Server) (events : List (ℕ × Accept)) → IsReady s → IsSafe (serve_events s events)
unfolding serve_events
loop-IsSafe s [] ready = ready
loop-IsSafe s ((fd, a) ∷ events) ready = elim (Bool-cases (fd == s.socket_fd)) [
  | inr e ↦ rw (e) (loop-IsSafe s events ready)
  | inl e ↦ rw (e) (
      after-IsSafe (server_on_connection s a) _ (connection-IsSafe s a ready)
        λ t r. loop-IsSafe t events r)
]

length-init_handlers : (n : ℕ) (h : Handler) → length (init_handlers n h) ≡ n
unfolding init_handlers
length-init_handlers zero h = refl
length-init_handlers (suc n) h = ap suc (length-init_handlers n h)

running_injective : {s t : Server} → running s ≡ running t → s ≡ t
running_injective h = cc

started-IsReady :
    (up : Startup) (fd : ℕ) (k : ℕ → Server) (s : Server)
    → IsReady (k fd)
    → started up fd k ≡ running s
    → IsReady s
started-IsReady up fd k s ready h = elim (Bool-cases up.epoll) [
  | inr e ↦ absurd (ground (arith, e, h))
  | inl e ↦ elim (Bool-cases up.control) [
    | inr f ↦ absurd (ground (arith, e, f, h))
    | inl f ↦ let same : k fd ≡ s = running_injective (rw (e, f) at h) in subst IsReady same ready
  ]
]

fresh-IsReady :
    (max_events n queue buffer request body fd : ℕ)
    → 1 ≤ n
    → IsReady (fresh_server max_events n queue buffer request body fd)
unfolding fresh_server
fresh-IsReady max_events n queue buffer request body fd h = record {
  some_handler = h;
  counted = length-init_handlers n _;
  selects = h;
}

init-IsReady :
    (up : Startup) (port max_events n queue buffer request body : ℕ) (s : Server)
    → 1 ≤ n
    → server_init up port max_events n queue buffer request body ≡ running s
    → IsReady s
unfolding server_init
init-IsReady up port max_events n queue buffer request body s h ran =
    elim (Option-cases (create_socket up.socket port)) [
      | inl e ↦ cc (rw (e, server_init) at ran)
      | inr ((fd, socket), e) ↦
          started-IsReady up fd (fresh_server max_events n queue buffer request body) s
            (fresh-IsReady max_events n queue buffer request body fd h) (rw (e, server_init) at ran)
    ]

-- A server that server_init has set up with at least one handler never uses a handler that is not
-- there, whatever events epoll reports and whatever accept, fcntl and epoll_ctl return.
pub server_loop_safe :
    (up : Startup) (port max_events n queue buffer request body : ℕ) (s : Server)
    → 1 ≤ n
    → server_init up port max_events n queue buffer request body ≡ running s
    → (events : List (ℕ × Accept)) → server_loop s events ≢ fault
unfolding server_loop
server_loop_safe up port max_events n queue buffer request body s h ran events crash =
    let ready = init-IsReady up port max_events n queue buffer request body s h ran in
    let active : IsReady (record s { active = true }) = record {
      some_handler = ready.some_handler;
      counted = ready.counted;
      selects = ready.selects;
    } in
    subst IsSafe crash (loop-IsSafe (record s { active = true }) events active)
