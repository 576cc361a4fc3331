-- ===== src/Lib.antt =====
-- A model of the pronto server (srv/), a distributed scheduler: HTTP handlers take jobs (`qty` units
-- of a worker's resources) into a job queue; a scheduler thread gives each job to the least busy
-- worker that can hold it, or puts it into a waiting queue; a dispatcher thread for each worker sends
-- its jobs out; a worker that is done posts to /done, which gives the units back and wakes the
-- rescheduler, which goes through the waiting queue.
--
-- Parts and files:
-- - Prelude: names, tests and list lemmas that all files share. Word: `int`, `unsigned int` and
--   `unsigned long` as bit patterns, with their conversions (LP64); Word/Small is about small numbers.
--   Bytes: C strings as lists of bytes, `%d`.
-- - PrioQueue (srv/lib/prio_queue.c): the linked list. PrioQueue/Memory is the store of nodes and the
--   commands on it; `init`, `enqueue`, `fifo_dequeue` are the three functions, `walk` and `link` the
--   loop and the branches of prio_queue_enqueue. PrioQueue/Cells and View say which list of cells a
--   queue stands for; Enqueue (with Relink) and Dequeue prove the functions against it; Order has the
--   queue as a list of requests, `insert_job` and `take_job`, which the rest of the model uses. Calls
--   has what the threads do with a queue and its nodes, from calloc to free, Held follows the nodes that
--   are taken and not freed, and Replay runs such calls beside the list.
-- - Cluster (srv/lib/pronto.c, and the state of srv/lib/cluster_worker.c): `Pronto` and `Worker` are
--   the two structs, and each function of pronto.c is the definition without its prefix. Cluster/Fit
--   is about pronto_best_current_fit, Capacity about reserving and freeing, Schedulable about
--   pronto_is_schedulable and pronto_init.
-- - Threads (srv/lib/scheduler_worker.c, rescheduler.c, cluster_worker.c): where each thread's loop
--   can stand, and its moves; a move is what is done under one lock or one semaphore call.
--   What libcurl and cJSON return to a dispatcher is a choice of the environment: `dispatcher_fail` is
--   the move of a dispatcher whose job is dropped. Threads/
--   Update, Posts, Jobs and Safe prove facts of single moves, Fits of search and reservation; Stored
--   weighs the jobs that a move passes on, Balance keeps the capacity books, Units follows the resources
--   of one worker, Ordered the order of the queues, Covered a scheduler that has the books to itself,
--   Effort counts what moves use up, Blocked says where a thread can wait.
-- - System: all threads interleaved, `step` by `step`; the callbacks `schedule` and `job_done` of
--   srv/lib/handler.c enter by their effect. System/Invariant, Start, Moves and Steps carry the
--   invariant, Safety what follows, Runs the evaluation of lists of events. Conservation follows the
--   jobs along a run, Books the capacity books, Resources and Repaid the resources of each worker,
--   Ordered the queues, Covered a server before the first report to /done, Delivered where its jobs
--   end up, Fails ties a POST that fails to one that is answered; Rest bounds the moves of a run,
--   Count counts the schedulers, Idle is about the states in which all threads wait, Settle leads to
--   them; Orders is about the order of the dispatchers, Given and Rescheduled are about the loop of
--   the rescheduler.
-- - Request (srv/lib/http_request.c, and to_lowercase and get_header of srv/lib/utils.c): the struct,
--   `http_request_from`, `get_header`, and `atoi` of the C library. Request/Strings is about strcmp,
--   Headers about the headers, Number about atoi.
-- - Handler (srv/lib/handler.c from a parsed request on, has_body of srv/lib/utils.c): `handler_route`,
--   `handler_route_search`, the callbacks `schedule` and `job_done`, `build_response`; `served` is the
--   table that handler_process_request registers. A callback maps the shared state to the state after
--   it and a reply; `valueint` stands for cJSON_GetObjectItem. Handler/Routes is about the table,
--   Callbacks ties the callbacks to the events of System, Replies is about the text of the replies.
-- - Response (srv/lib/http_response.c): `create` and `stringify` are http_response_create and
--   http_response_stringify. Response/Buffer has blocks of bytes with strncpy and strncat, where an
--   access past the end of a block is a failure; Create and Zeroed are about the response that comes
--   out, for any contents of fresh memory and for zeros.
-- - Reading (srv/lib/handler.c, handler_process_request): `read_loop` is the loop that reads and parses
--   a request, on the list of what read returns; phr_parse_request is a parameter. Reading/Bounds is
--   about the end of the buffer, Parsed about the requests that get parsed.
-- - Sockets (create_socket of srv/lib/server.c, make_nonblocking of srv/lib/utils.c): the listening
--   socket and the flags of a descriptor; Sockets/Ready is about the socket that comes out.
-- - Server (srv/lib/server.c): `server_init`, `server_on_connection` and `server_loop`, with what the
--   system calls return as inputs, and `handler_init` of srv/lib/handler.c. Server/RoundRobin says who
--   gets a connection, Safety that the handler is there.
-- - Sending (srv/lib/handler.c, the EPOLLOUT branch): `send_loop` is what happens to one response over
--   its events.
-- - Intake (srv/lib/handler.c, the EPOLLIN branch behind the reading loop): `on_input` takes the body
--   out of the buffer (`fetch_body`), and answers (`respond`). Memory that the code uses without having
--   set it is an input, `Surroundings`. Intake/Answers says which responses go out, Posts follows a POST
--   from its bytes to the job and the response, Reports one on /done to the books.
-- - Serving (srv/lib/handler.c, the loop around epoll_wait): `serve` takes one connection from event to
--   event, by the branches that Reading, Intake and Sending have; Serving/Continues is about what goes
--   out of a response, Sent about what the client gets; Deeds and Reached tie what a connection does to
--   the shared state to the events and the reachable states of System.
-- - Main (srv/main.c, srv/lib/h/config.h): the threads of System and the Server, as they are started.
-- - Filename, Lines, WholeFile (srv/lib/utils.c) and Context (srv/lib/connection_context.c): helpers that
--   no code calls: content types by file name (Filename/Types), count_lines and bytes_to_lines (Lines/
--   Joined), read_whole_file (WholeFile/Rounds and Joined), and a buffer that grows (Context/Blocks is
--   about its block, Context/Writes about its writes).
-- - Tests: runs at concrete inputs.
--
-- Bounds: the loop of prio_queue_enqueue has `size + 1` rounds of fuel, which suffices as a queue of
-- `size` nodes is left after `size` rounds (a run out of fuel is an outcome of its own, and excluded
-- by the theorem). `digits` gets one more than the number, which has fewer digits. The loops of count_lines
-- and bytes_to_lines get one round more than the block has bytes, and each round uses one up. Semaphores
-- and the `size` of a queue are unbounded here, in C an `int`.
--
-- Not modelled: srv/lib/c_json.c and srv/lib/picohttpparser.c (copies of cJSON and picohttpparser),
-- libcurl, the log output, and the worker's client (client/, Rust). Memory is never exhausted.
pub mod Prelude
pub mod Word
pub mod Bytes
pub mod PrioQueue
pub mod Cluster
pub mod Threads
pub mod System
pub mod Request
pub mod Handler
pub mod Response
pub mod Reading
pub mod Sockets
pub mod Server
pub mod Sending
pub mod Intake
pub mod Serving
pub mod Main
pub mod Filename
pub mod Lines
pub mod Context
pub mod WholeFile
pub mod Tests
