-- ===== src/Tests/Servers.antt =====
-- A server of two handlers.
use pronto.Prelude.{ℕ, ◌+◌, ◌%◌, ◌≡◌, ◌≢◌, ◌⊎◌, refl, true, none, some, [], ◌∷◌, arith}
use pronto.Sockets.{Socket, make_nonblocking, create_on, create_socket}
use pronto.Server.{
  Server, running, fault, Startup, accepted, try_again, handler_init, init_handlers, fresh_server,
  server_init, server_loop, serve_events,
}
use pronto.Sockets.Ready.{HasFailed, HasSucceeded, IsListening, create_socket_lem}
use pronto.Server.RoundRobin.{IsReady, Gets, dealt, works, arrivals, serve_events_deals}
use pronto.Server.Safety.{server_loop_safe}

abbrev up : Startup
up = record {
  socket = record { socket = some 3; setsockopt = true; bind = true; listen = true; fcntl = works };
  epoll = true;
  control = true;
}

two : Server
two = fresh_server 128 2 2048 32368 122880 122880 3

two-IsReady : IsReady two
unfolding two fresh_server init_handlers handler_init
two-IsReady = record { some_handler = ground arith; counted = refl; selects = ground arith }

two_selector : two.selector ≡ 0 % two.num_handlers
unfolding two fresh_server
two_selector = refl

serve_events_deals_example :
    (t : Server) × (serve_events two (arrivals two.socket_fd (7 ∷ 8 ∷ 9 ∷ [])) ≡ running t)
    × IsReady t
    × (t.selector ≡ (0 + 3) % two.num_handlers)
    × Gets two.handlers t.handlers (λ i. dealt two.num_handlers i 0 (7 ∷ 8 ∷ 9 ∷ []))
serve_events_deals_example = serve_events_deals (7 ∷ 8 ∷ 9 ∷ []) two 0 two-IsReady two_selector

two_starts : server_init up 8080 128 2 2048 32368 122880 122880 ≡ running two
unfolding two server_init create_socket create_on make_nonblocking
two_starts = refl

server_loop_safe_example :
    server_loop two ((3, accepted 7 works true) ∷ (4, try_again) ∷ (3, try_again) ∷ []) ≢ fault
server_loop_safe_example =
    server_loop_safe up 8080 128 2 2048 32368 122880 122880 two (ground arith) two_starts
      ((3, accepted 7 works true) ∷ (4, try_again) ∷ (3, try_again) ∷ [])

create_socket_lem_example :
    ((create_socket up.socket 8080 ≡ none) × HasFailed up.socket)
    ⊎ ((fd : ℕ) × (s : Socket) × (create_socket up.socket 8080 ≡ some (fd, s))
        × HasSucceeded up.socket fd
        × IsListening up.socket 8080 s)
create_socket_lem_example = create_socket_lem up.socket 8080
