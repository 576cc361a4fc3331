-- ===== src/Main.antt =====
-- The start of the program (srv/main.c): pronto_init with the numbers of srv/lib/h/config.h, then the
-- loop that accepts connections. The threads that pronto_init starts move by System.
use mathlib.Core.List.{map}
use pronto.Threads.{SchedulerPc, waiting, ReschedulerPc, sleeping}
use pronto.Prelude.{
  ℕ, zero, suc, Bool, true, replicate, ap, sym, ◌∷◌, ◌≢◌, ◌≡◌, refl, List, Bool-cases, Option-cases,
  inl, inr, arith,
}
use pronto.Cluster.{cluster_workers, num_schedulers}
use pronto.System.{System, start, Reach, started}
use pronto.Reading.{max_request_size}
use pronto.Sockets.{create_socket}
use pronto.Server
use pronto.Server.{
  Server, Outcome, running, exited, fault, fresh_server, Startup, Accept, after, server_init,
  server_loop,
}
use pronto.Server.Safety.{server_loop_safe}

abbrev pub max_events : ℕ
max_events = 128

abbrev pub port : ℕ
port = 8080

abbrev pub num_handlers : ℕ
num_handlers = 6

abbrev pub max_epoll_handler_queue_size : ℕ
max_epoll_handler_queue_size = 2048

abbrev pub request_buffer_size : ℕ
request_buffer_size = 32368

abbrev pub max_body_size : ℕ
max_body_size = 122880

-- struct scheduler_worker and struct rescheduler, with where the thread that they start begins.
pub record SchedulerWorker : Type 0 where
  pub active : Bool
  pub loop : SchedulerPc

pub record Rescheduler : Type 0 where
  pub active : Bool
  pub loop : ReschedulerPc

abbrev pub scheduler_worker_init : SchedulerWorker
scheduler_worker_init = record { active = true; loop = waiting }

abbrev pub rescheduler_init : Rescheduler
rescheduler_init = record { active = true; loop = sleeping }

-- The threads, and the HTTP server or the exit of the program.
abbrev pub Instance : Type 0
Instance = System × Outcome

unfoldable pub pronto_init : Startup → ℕ → ℕ → Instance
pronto_init up workers schedulers = (
  start workers schedulers,
  server_init up port max_events num_handlers max_epoll_handler_queue_size request_buffer_size
      max_request_size max_body_size,
)

unfoldable pub pronto_start_http : Instance → List (ℕ × Accept) → Instance
pronto_start_http (threads, http_server) events =
    (threads, after http_server (λ s. server_loop s events))

unfoldable pub main : Startup → List (ℕ × Accept) → Instance
unfolding pronto_init pronto_start_http
main up events = pronto_start_http (pronto_init up cluster_workers num_schedulers) events

-- `start` has the threads where their init functions start them.
replicate-loop :
    (n : ℕ) → map (λ w. w.loop) (replicate n scheduler_worker_init) ≡ replicate n waiting
replicate-loop zero = refl
replicate-loop (suc n) = ap (λ l. waiting ∷ l) (replicate-loop n)

start-threads :
    (workers schedulers : ℕ)
    → ((start workers schedulers).schedulers
        ≡ map (λ w. w.loop) (replicate schedulers scheduler_worker_init))
      × ((start workers schedulers).rescheduler ≡ rescheduler_init.loop)
unfolding start
start-threads workers schedulers = (sym (replicate-loop schedulers), refl)

started_safe : (up : Startup) (fd : ℕ) (k : ℕ → Server) → Server.started up fd k ≢ fault
started_safe up fd k h = elim (Bool-cases up.epoll) [
  | inr e ↦ cc (rw (e) at h)
  | inl e ↦ elim (Bool-cases up.control) [
    | inl f ↦ cc (rw (e, f) at h)
    | inr f ↦ cc (rw (e, f) at h)
  ]
]

server_init_safe :
    (up : Startup) (port max_events n queue buffer request body : ℕ)
    → server_init up port max_events n queue buffer request body ≢ fault
unfolding server_init
server_init_safe up port max_events n queue buffer request body h =
    elim (Option-cases (create_socket up.socket port)) [
      | inl e ↦ cc (rw (e, server_init) at h)
      | inr ((fd, socket), e) ↦
          started_safe up fd (fresh_server max_events n queue buffer request body)
            (rw (e, server_init) at h)
    ]

loop_safe :
    (up : Startup) (events : List (ℕ × Accept)) (o : Outcome)
    → server_init up port max_events num_handlers max_epoll_handler_queue_size request_buffer_size
        max_request_size max_body_size
      ≡ o
    → after o (λ s. server_loop s events) ≢ fault
loop_safe up events (running s) ran =
    server_loop_safe up port max_events num_handlers _ _ _ _ s (omega arith) ran events
loop_safe up events exited ran = λ h. cc
loop_safe up events fault ran = λ h. server_init_safe up _ _ _ _ _ _ _ ran

-- With the configured numbers the server never uses a handler that is not there, whatever the system
-- calls return, and the threads start in a reachable state.
pub main_safe :
    (up : Startup) (events : List (ℕ × Accept))
    → ((main up events).1 ≢ fault) × Reach cluster_workers num_schedulers (main up events).0
unfolding main
main_safe up events = (loop_safe up events _ refl, started)
