-- ===== src/Server/RoundRobin.antt =====
-- The connections are dealt out to the handlers in turn.
use native.Mathlib.Nat.{mod-lt, mod-add-mod}
use mathlib.Core.List.{append_assoc, append-nil}
use pronto.Prelude.{
  ℕ, suc, ◌+◌, ◌%◌, ◌≤◌, ◌<◌, ◌≡◌, ◌≢◌, refl, sym, ap, ◌∙◌, true, some, List, [], ◌∷◌, ◌++◌, ◌==◌,
  ==_refl, ==_iff, get_elem?-lt, get_elem?-set_self, get_elem?-set_ne, some-injective, subst,
  length, get_elem?, set, length-set, arith, Bool-cases, inl, inr, if◌then◌else◌,
}
use pronto.Sockets.{Fcntl, make_nonblocking}
use pronto.Server.{
  Handler, Server, Outcome, running, exited, fault, Accept, accepted, server_on_connection,
  serve_events,
}

-- `selector` is the index of a handler.
pub record IsReady (s : Server) : Type 0 where
  pub some_handler : 1 ≤ s.num_handlers
  pub counted : length s.handlers ≡ s.num_handlers
  pub selects : s.selector < s.num_handlers

-- What an outcome without a fault is.
abbrev pub Sound : Outcome → Type 0
Sound (running t) = IsReady t
Sound exited = Unit
Sound fault = ⊥

-- The clients of handler `i`, if client `j` of the list goes to handler (k + j) % n.
abbrev pub dealt : ℕ → ℕ → ℕ → List ℕ → List ℕ
dealt n i k [] = []
dealt n i k (c ∷ cs) = (if k % n == i then c ∷ [] else []) ++ dealt n i (suc k) cs

-- fcntl does what it is asked to do.
abbrev pub works : Fcntl
works = record { flags = some 2; settable = true }

-- Clients that connect one after the other, without a failure.
abbrev pub arrivals : ℕ → List ℕ → List (ℕ × Accept)
arrivals fd [] = []
arrivals fd (c ∷ cs) = (fd, accepted c works true) ∷ arrivals fd cs

-- Every handler has got the clients that `new` says, behind those that it had.
abbrev pub Gets : List Handler → List Handler → (ℕ → List ℕ) → Type 0
Gets hs hs' new =
    (i : ℕ) (h : Handler)
    → get_elem? hs i ≡ some h
    → (h' : Handler) × (get_elem? hs' i ≡ some h') × (h'.clients ≡ h.clients ++ new i)

abbrev add_client : Handler → ℕ → Handler
add_client h c = record h { clients = h.clients ++ c ∷ [] }

Gets-set :
    (hs : List Handler) (k : ℕ) (h : Handler) (c : ℕ)
    → get_elem? hs k ≡ some h
    → Gets hs (set hs k (add_client h c)) (λ i. if k == i then c ∷ [] else [])
Gets-set hs k h c at i g at_i = elim (Bool-cases (k == i)) [
  | inl e ↦
      let eq = (==_iff k i).0 e in
      let same_handler : h ≡ g = some-injective _ _ (sym at ∙ ap (get_elem? hs) eq ∙ at_i) in
      (
        add_client h c,
        subst (λ j. get_elem? (set hs k (add_client h c)) j ≡ some (add_client h c)) eq
            (get_elem?-set_self hs k (add_client h c) at),
        rw (e, sym same_handler) refl,
      )
  | inr e ↦
      let ne : k ≢ i = λ q. ground (arith, q, e) in
      (g, get_elem?-set_ne hs k i (add_client h c) ne ∙ at_i, rw (e) (sym (append-nil g.clients)))
]

-- One connection.
connection_lem :
    (s : Server) (k c : ℕ)
    → IsReady s
    → s.selector ≡ k % s.num_handlers
    → (t : Server) × (server_on_connection s (accepted c works true) ≡ running t)
      × IsReady t
      × (t.num_handlers ≡ s.num_handlers)
      × (t.socket_fd ≡ s.socket_fd)
      × (t.selector ≡ suc k % s.num_handlers)
      × Gets s.handlers t.handlers (λ i. if k % s.num_handlers == i then c ∷ [] else [])
unfolding server_on_connection make_nonblocking
connection_lem s k c ready sel =
    let n = s.num_handlers in
    let (h, at) =
      get_elem?-lt s.handlers s.selector (omega (arith, ready.counted, ready.selects)) in
    let hs = set s.handlers s.selector (add_client h c) in
    let t : Server = record s { handlers = hs; selector = (s.selector + 1) % n } in
    (
      t,
      rw (at) refl,
      record {
        some_handler = ready.some_handler;
        counted = length-set s.handlers s.selector (add_client h c) ∙ ready.counted;
        selects = mod-lt (s.selector + 1) ready.some_handler;
      },
      refl,
      refl,
      ap (λ x. (x + 1) % n) sel ∙ mod-add-mod k n 1 ∙ ap (λ x. x % n) (omega arith),
      subst (λ m. Gets s.handlers hs (λ i. if m == i then c ∷ [] else [])) sel
          (Gets-set s.handlers s.selector h c at),
    )

-- Clients that connect one after the other are dealt out in turn: the server goes on, client `j`
-- goes to handler (k + j) % n and to no other, where `k` counts the clients before, and the selector
-- stands at the next handler.
pub serve_events_deals :
    (cs : List ℕ) (s : Server) (k : ℕ)
    → IsReady s
    → s.selector ≡ k % s.num_handlers
    → (t : Server) × (serve_events s (arrivals s.socket_fd cs) ≡ running t)
      × IsReady t
      × (t.selector ≡ (k + length cs) % s.num_handlers)
      × Gets s.handlers t.handlers (λ i. dealt s.num_handlers i k cs)
unfolding serve_events
serve_events_deals [] s k ready sel = (
  s,
  refl,
  ready,
  sel ∙ ap (λ x. x % s.num_handlers) (omega arith),
  λ i h at. (h, at, sym (append-nil h.clients)),
)
serve_events_deals (c ∷ cs) s k ready sel =
    let (t, ran, ready', num, fd, sel', gets) = connection_lem s k c ready sel in
    let (u, ran', ready'', sel'', gets') =
      serve_events_deals cs t (suc k) ready' (sel' ∙ ap (λ n. suc k % n) (sym num)) in
    let one : ℕ → List ℕ = λ i. if k % s.num_handlers == i then c ∷ [] else [] in
    (
      u,
      rw (==_refl s.socket_fd, ran)
          (subst (λ x. serve_events t (arrivals x cs) ≡ running u) fd ran'),
      ready'',
      sel'' ∙ ap (λ n. (suc k + length cs) % n) num ∙ ap (λ x. x % s.num_handlers) (omega arith),
      λ i h at.
          let (g, at', e) = gets i h at in
          let (g', at'', e') = gets' i g at' in
          (
            g',
            at'',
            e'
                ∙ ap (λ l. l ++ dealt t.num_handlers i (suc k) cs) e
                ∙ append_assoc h.clients (one i) (dealt t.num_handlers i (suc k) cs)
                ∙ ap (λ n. h.clients ++ (one i ++ dealt n i (suc k) cs)) num,
          ),
    )
