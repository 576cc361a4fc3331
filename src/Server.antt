-- ===== src/Server.antt =====
-- srv/lib/server.c, and handler_init of srv/lib/handler.c: the thread that accepts connections and
-- gives each to the epoll of a handler. The results of the system calls are inputs.
pub mod RoundRobin
pub mod Safety
use pronto.Prelude.{
  ℕ, zero, suc, ◌+◌, ◌%◌, Bool, true, false, Option, none, some, List, [], ◌∷◌, ◌++◌, ◌==◌,
  get_elem?, set, if◌then◌else◌,
}
use pronto.Sockets.{Fcntl, make_nonblocking, SocketCalls, create_socket}

-- struct handler, with the descriptors added to its epoll, oldest first.
pub record Handler : Type 0 where
  pub max_request_size : ℕ
  pub max_body_size : ℕ
  pub max_events : ℕ
  pub request_buffer_size : ℕ
  pub routes_idx : ℕ
  pub active : Bool
  pub clients : List ℕ

pub record Server : Type 0 where
  pub max_connection_events : ℕ
  pub socket_fd : ℕ
  pub active : Bool
  pub num_handlers : ℕ
  pub selector : ℕ
  pub max_body_size : ℕ
  pub handlers : List Handler

-- The server goes on, it has called exit(-1), or it uses a handler that is not there.
pub data Outcome : Type 0 where
  running : Server → Outcome
  exited : Outcome
  fault : Outcome

unfoldable pub handler_init : ℕ → ℕ → ℕ → ℕ → Handler
handler_init max_events buf_size max_request_size max_body_size = record {
  max_request_size = max_request_size;
  max_body_size = max_body_size;
  max_events = max_events;
  request_buffer_size = buf_size;
  routes_idx = 0;
  active = true;
  clients = [];
}

-- The loop of server_init.
unfoldable pub init_handlers : ℕ → Handler → List Handler
init_handlers zero h = []
init_handlers (suc n) h = h ∷ init_handlers n h

-- What the calls of create_socket, epoll_create1 and epoll_ctl give server_init.
pub record Startup : Type 0 where
  pub socket : SocketCalls
  pub epoll : Bool
  pub control : Bool

abbrev pub started : Startup → ℕ → (ℕ → Server) → Outcome
started up fd k = if up.epoll then (if up.control then running (k fd) else exited) else exited

-- What server_init fills in, and at last its socket.
unfoldable pub fresh_server : ℕ → ℕ → ℕ → ℕ → ℕ → ℕ → ℕ → Server
unfolding handler_init init_handlers
fresh_server max_events num_handlers max_epoll_handler_queue_size request_buffer_size
      max_request_size max_body_size socket_fd =
    record {
      max_connection_events = max_events;
      socket_fd = socket_fd;
      active = false;
      num_handlers = num_handlers;
      selector = 0;
      max_body_size = max_body_size;
      handlers = init_handlers num_handlers (
          handler_init max_epoll_handler_queue_size request_buffer_size max_request_size
            max_body_size);
    }

unfoldable pub server_init : Startup → ℕ → ℕ → ℕ → ℕ → ℕ → ℕ → ℕ → Outcome
unfolding fresh_server create_socket
server_init up port max_events n queue buffer request body = elim (create_socket up.socket port) [
  | none ↦ exited
  | some (fd, s) ↦ started up fd (fresh_server max_events n queue buffer request body)
]

-- What accept returns, with the calls of make_nonblocking and the success of epoll_ctl after it.
pub data Accept : Type 0 where
  accepted : (client_fd : ℕ) (calls : Fcntl) (added : Bool) → Accept
  try_again : Accept  -- EAGAIN, which is EWOULDBLOCK
  failed : Accept

-- The client goes to the handler at `selector`, and the selector goes on.
abbrev pub give : Server → ℕ → Bool → Option Handler → Outcome
give s client_fd added none = fault
give s client_fd false (some h) = exited
give s client_fd true (some h) = running (record s {
  handlers = set s.handlers s.selector (record h { clients = h.clients ++ client_fd ∷ [] });
  selector = (s.selector + 1) % s.num_handlers;
})

unfoldable pub server_on_connection : Server → Accept → Outcome
unfolding make_nonblocking
server_on_connection s try_again = running s
server_on_connection s failed = exited
server_on_connection s (accepted client_fd calls added) = elim (make_nonblocking calls) [
  | none ↦ exited
  | some flags ↦ give s client_fd added (get_elem? s.handlers s.selector)
]

abbrev pub after : Outcome → (Server → Outcome) → Outcome
after (running t) k = k t
after exited k = exited
after fault k = fault

-- The rounds of server_loop: an event on a descriptor, with what accept gives if it is called.
unfoldable pub serve_events : Server → List (ℕ × Accept) → Outcome
unfolding server_on_connection
serve_events s [] = running s
serve_events s ((fd, a) ∷ events) =
    let called = after (server_on_connection s a) (λ t. serve_events t events) in
    let skipped = serve_events s events in if fd == s.socket_fd then called else skipped

unfoldable pub server_loop : Server → List (ℕ × Accept) → Outcome
unfolding serve_events
server_loop s events = serve_events (record s { active = true }) events
