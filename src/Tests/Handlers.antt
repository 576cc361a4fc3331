-- ===== src/Tests/Handlers.antt =====
-- The handlers on small requests, with a JSON object as a list of named numbers.
use pronto.Prelude.{
  ℕ, ◌≤◌, ◌<◌, ◌≡◌, ◌⊎◌, false, Option, none, some, List, [], ◌∷◌, length, if◌then◌else◌,
}
use pronto.Word.{u32}
use pronto.Bytes.{Bytes, codes}
use pronto.Cluster.{Pronto}
use pronto.System.{System, start, done, post_reschedule, step, crash}
use pronto.Handler
use pronto.Request.{HttpRequest, same}
use pronto.Handler.{
  Reply, Route, item, has_body, served, post, max_routes, handler_route, handler_route_search,
  not_found, not_allowed, found, build_response, method_not_allowed,
}
use pronto.Handler.Routes.{build_response_lem}
use pronto.Handler.Callbacks.{Returns, Leads, Refused, job_done-events}

abbrev Json : Type 0
Json = List (Bytes × ℕ)

abbrev lookup : Json → Bytes → Option ℕ
lookup [] name = none
lookup ((key, v) ∷ items) name = if same key name then some v else lookup items name

abbrev request : Bytes → Bytes → Json → HttpRequest Json
request method path items = record {
  method = method;
  path = path;
  headers = [];
  body = [];
  json_body = some items;
  method_len = length method;
  path_len = length path;
  num_headers = 0;
}

abbrev state : System
state = start 2 1

abbrev four : HttpRequest Json
four = request (codes "POST") (codes "/schedule") ((codes "qty", 4) ∷ [])

abbrev finished : HttpRequest Json
finished =
    request (codes "POST") (codes "/done") ((codes "freed_qty", 4) ∷ (codes "worker", 1) ∷ [])

build_response_lem_example :
    build_response lookup
      (served lookup)
      state.pronto
      (request (codes "GET") (codes "/done") [])
      false
    ≡ some (state.pronto, method_not_allowed)
unfolding same
build_response_lem_example =
    build_response_lem lookup state.pronto (request (codes "GET") (codes "/done") []) false

job_done-events_example :
    ((q w : ℕ) × Returns lookup finished q w
      × (length state.pronto.workers_instances ≤ u32 w)
      × (step state (done (u32 w) q) ≡ crash)
      × (Handler.job_done lookup state.pronto finished ≡ none))
    ⊎ ((p : Pronto) × (reply : Reply) × (Handler.job_done lookup state.pronto finished
          ≡ some (p, reply))
        × (((q w : ℕ) × Returns lookup finished q w
              × (u32 w < length state.pronto.workers_instances)
              × (reply.status ≡ 200)
              × Leads state (done (u32 w) q) post_reschedule p)
            ⊎ (¬ ((q w : ℕ) × Returns lookup finished q w) × Refused lookup state p reply)))
job_done-events_example = job_done-events lookup state finished
