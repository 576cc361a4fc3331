-- ===== src/Serving.antt =====
-- One connection in the loop of handler_process_request (srv/lib/handler.c): which branch an event
-- takes, and what is left after it. Reading, Intake and Sending have the branches.
pub mod Continues
pub mod Sent
pub mod Deeds
pub mod Reached
use pronto.Prelude.{ℕ, Option, none, some, List, [], ◌∷◌, ◌++◌, ◌==◌, if◌then◌else◌}
use pronto.Word.{u32}
use pronto.Bytes.{Bytes}
use pronto.Cluster.{Pronto}
use pronto.Response.{HttpResponse}
use pronto.Reading.{ReadResult, ParseResult, read_loop}
use pronto.Intake.{
  PhrRequest, Surroundings, Answer, pending, ignored, undefined, watching, dropped, on_input,
}
use pronto.Sending.{SendResult, Progress, streaming, closed, overread, send_loop}

abbrev pub epollin : ℕ
epollin = 1

abbrev pub epollout : ℕ
epollout = 4

-- What the socket is watched for, with the union epoll_data: the descriptor that server_on_connection
-- has put there, or the address of the response.
pub data Watched : Type 0 where
  for_request : (client_fd : ℕ) → Watched
  for_response : (client_fd address : ℕ) (response : HttpResponse) → Watched

-- data.fd, the low half of the union.
abbrev pub data_fd : Watched → ℕ
data_fd (for_request client_fd) = client_fd
data_fd (for_response client_fd address response) = u32 address

-- An event, with what the calls made for it return.
pub record Ready {ℓ} (Json : Type ℓ) : Type ℓ where
  pub events : ℕ
  pub reads : List ReadResult
  pub surroundings : Surroundings Json
  pub address : ℕ  -- where malloc puts the response
  pub sent : SendResult
  pub meanwhile : Pronto → Pronto  -- what other threads have done to the shared state

-- `unreported` is an event that epoll does not report, `stalled` a thread that is still in its loop
-- over read.
pub data End : Type 0 where
  kept : Watched → End
  answered : (closed_fd : ℕ) → End
  removed : (closed_fd : ℕ) → End
  stalled : End
  fault : End
  unreported : End

abbrev pub Step : Type 0
Step = Bytes × (Pronto × End)

-- After the branch for an error or a hang-up, which removes and closes data.fd. Once a response is
-- attached that is the connection's own descriptor only by chance: the connection stays watched, and
-- the descriptor that is closed may be nobody's or another connection's.
abbrev pub hang_up : Watched → End
hang_up (for_request client_fd) = removed client_fd
hang_up (for_response client_fd address r) =
    if data_fd (for_response client_fd address r) == client_fd
    then removed client_fd
    else kept (for_response client_fd address r)

-- After the EPOLLIN branch.
abbrev pub after_input : Pronto → ℕ → ℕ → Answer → Step
after_input p client_fd address pending = ([], (p, stalled))
after_input p client_fd address ignored = ([], (p, kept (for_request client_fd)))
after_input p client_fd address undefined = ([], (p, fault))
after_input p client_fd address (watching q r) = ([], (q, kept (for_response client_fd address r)))
after_input p client_fd address (dropped q) = ([], (q, removed client_fd))

-- After the EPOLLOUT branch.
abbrev pub after_output : Pronto → ℕ → ℕ → Bytes × Progress → Step
after_output p client_fd address (bytes, streaming r) =
    (bytes, (p, kept (for_response client_fd address r)))
after_output p client_fd address (bytes, closed total) = (bytes, (p, answered client_fd))
after_output p client_fd address (bytes, overread reached) = (bytes, (p, fault))

-- The next event, as long as the socket is watched.
abbrev pub and_then : Step → (Pronto → Watched → Step) → Step
and_then (bytes, (p, kept w)) k = let rest = k p w in (bytes ++ rest.0, rest.1)
and_then (bytes, (p, end)) k = (bytes, (p, end))

module _ {ℓ} {Json : Type ℓ} (phr_parse_request : Bytes → ℕ → ParseResult PhrRequest)
    (cjson_parse : Bytes → ℕ → Option Json) (valueint : Json → Bytes → Option ℕ) where
  abbrev pub on_epollin : Pronto → Watched → Ready Json → Step
  on_epollin p (for_request client_fd) e = after_input p client_fd e.address (
      on_input cjson_parse valueint e.surroundings p
        (read_loop phr_parse_request e.reads none [] 0 0))
  on_epollin p (for_response client_fd address r) e = ([], (p, unreported))

  abbrev pub on_epollout : Pronto → Watched → Ready Json → Step
  on_epollout p (for_request client_fd) e = ([], (p, unreported))
  on_epollout p (for_response client_fd address r) e =
      after_output p client_fd address (send_loop r (e.sent ∷ []))

  -- An event of any other mask, also EPOLLIN with EPOLLHUP, is taken for an error or a hang-up.
  unfoldable pub on_event : Pronto → Watched → Ready Json → Step
  on_event p w e =
      if e.events == epollin
      then on_epollin p w e
      else (if e.events == epollout then on_epollout p w e else ([], (p, hang_up w)))

  -- The events of one connection, one after the other.
  unfoldable pub serve : Pronto → Watched → List (Ready Json) → Step
  unfolding on_event
  serve p w [] = ([], (p, kept w))
  serve p w (e ∷ events) = and_then (on_event (e.meanwhile p) w e) (λ q v. serve q v events)
