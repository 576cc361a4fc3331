-- ===== src/Tests/Connections.antt =====
-- The events of one connection.
use pronto.Prelude.{ℕ, ◌+◌, ◌^◌, ◌≡◌, refl, List, [], ◌∷◌, ◌++◌}
use pronto.Bytes.{Bytes, codes}
use pronto.Response.{HttpResponse}
use pronto.Reading.{received, ParseResult, parsed}
use pronto.Intake.{PhrRequest}
use pronto.Intake.Posts.{job_head}
use pronto.Sending.{written}
use pronto.Serving.{Ready, kept, for_request, for_response, epollin, epollout, on_event, serve}
use pronto.Serving.Reached.{IsReached, serve-IsReached}
use pronto.System.{start, started}
use pronto.Tests.Requests.{headers, parse, valueint, surroundings, state, document}

abbrev found : Bytes → ℕ → ParseResult PhrRequest
found buffer last_len = parsed 2 (job_head headers)

-- Another event of the same connection.
abbrev ready : ℕ → ℕ → Ready Bytes
ready events sent = record {
  events = events;
  reads = received (codes "\r\n" ++ document) ∷ [];
  surroundings = surroundings (0 ∷ []);
  address = 2 ^ 32 + 5;
  sent = written sent;
  meanwhile = λ p. p;
}

abbrev exchange : List (Ready Bytes)
exchange = ready epollin 0 ∷ ready epollout 10 ∷ ready epollout 200 ∷ []

state-IsReached : IsReached 2 1 state
state-IsReached = (start 2 1, started, refl)

serve-IsReached_example :
    IsReached 2 1 (serve found parse valueint state (for_request 9) exchange).1.0
serve-IsReached_example =
    serve-IsReached found parse valueint state (for_request 9) exchange state-IsReached
      (λ s r. (s, r, refl), (λ s r. (s, r, refl), (λ s r. (s, r, refl), tt)))

-- A client that hangs up before its response has gone out: the descriptor that is closed is not its 9
-- but 5, the low half of the response's address, and the connection stays watched.
hung_up :
    (r : HttpResponse)
    → serve found parse valueint state (for_response 9 (2 ^ 32 + 5) r) (ready 16 0 ∷ [])
      ≡ ([], (state, kept (for_response 9 (2 ^ 32 + 5) r)))
unfolding serve on_event
hung_up r = refl
