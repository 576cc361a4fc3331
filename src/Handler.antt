-- ===== src/Handler.antt =====
-- The HTTP handlers of srv/lib/handler.c from a parsed request on: the table of routes, the two
-- callbacks and build_response. A JSON document is opaque: `valueint` of cJSON_GetObjectItem is a
-- parameter.
pub mod Routes
pub mod Callbacks
pub mod Replies
use pronto.Prelude.{
  ℕ, ◌+◌, ◌-◌, ◌^◌, Bool, true, false, ◌&&◌, Option, none, some, List, [], ◌∷◌, ◌++◌, ◌==◌, leb,
  length, if◌then◌else◌,
}
use pronto.Word.{u32}
use pronto.Bytes.{Bytes, codes, print_int}
use pronto.Request.{HttpRequest, same}
use pronto.Cluster.{Pronto, is_schedulable, add_job, free_capacity}

-- What http_response_create is called with, besides the content type and the socket.
pub record Reply : Type 0 where
  pub status : ℕ
  pub body : Bytes

pub data HttpMethod : Type 0 where
  get : HttpMethod
  post : HttpMethod

pub record Route {ℓ} (A : Type ℓ) : Type ℓ where
  pub method : Bytes
  pub path : Bytes
  pub callback : A

abbrev pub max_routes : ℕ
max_routes = 30

abbrev pub method_name : HttpMethod → Bytes
method_name get = codes "GET"
method_name post = codes "POST"

-- The table after a registration, and the value returned: -2 if it was full, else 0.
unfoldable pub handler_route {ℓ} :
    {A : Type ℓ} → List (Route A) → HttpMethod → Bytes → A → List (Route A) × ℕ
handler_route routes m p cb =
    if leb max_routes (length routes)
    then (routes, 2 ^ 32 - 2)
    else (routes ++ (record { method = method_name m; path = p; callback = cb }) ∷ [], 0)

-- The `status` that a search reports: -1, 1 and 0 of the source.
pub data SearchStatus : Type 0 where
  not_found : SearchStatus
  not_allowed : SearchStatus
  found : SearchStatus

unfoldable pub search_loop {ℓ} :
    {A : Type ℓ} → Bytes → Bytes → List (Route A) → SearchStatus → SearchStatus × Option A
search_loop m p [] status = (status, none)
search_loop m p (r ∷ routes) status =
    let on = search_loop m p routes status in
    let allowed = search_loop m p routes not_allowed in
    if same r.path p then if same r.method m then (found, some r.callback) else allowed else on

unfoldable pub handler_route_search {ℓ} :
    {A : Type ℓ} → List (Route A) → Bytes → Bytes → SearchStatus × Option A
unfolding search_loop
handler_route_search routes m p = search_loop m p routes not_found

abbrev pub bad_request : Reply
bad_request = record {
  status = 400;
  body = codes "{\"success\": false, \"error\": \"bad_request\"}";
}

abbrev pub method_not_allowed : Reply
method_not_allowed = record {
  status = 405;
  body = codes "{\"success\": false, \"error\": \"method_not_allowed\"}";
}

abbrev pub path_not_found : Reply
path_not_found = record {
  status = 404;
  body = codes "{\"success\": false, \"error\": \"not_found\"}";
}

-- http_response_uninmplemented_method and http_response_internal_server_error, which no code calls.
abbrev pub uninmplemented_method : Reply
uninmplemented_method = record {
  status = 501;
  body = codes "{\"success\": false, \"error\": \"method_not_implemented\"}";
}

abbrev pub internal_server_error : Reply
internal_server_error = record {
  status = 500;
  body = codes "{\"success\": false, \"error\": \"internal_server_error\"}";
}

abbrev pub missing : Bytes → Reply
missing name = record {
  status = 400;
  body = codes "{\"success\": false, \"error\": \"" ++ name ++ codes " is missing\"}";
}

abbrev pub too_big : Reply
too_big = record {
  status = 400;
  body =
      codes
        "{\"success\": false, \"error\": \"cannot schedule job (qty is too big for the cluster)\"}";
}

abbrev pub scheduled : ℕ → Reply
scheduled qty = record {
  status = 200;
  body = codes "{\"success\": true, \"message\": \"" ++ print_int qty ++ codes "\"}";
}

abbrev pub freed_from : ℕ → ℕ → Reply
freed_from qty worker = record {
  status = 200;
  body =
      codes "{\"success\": true, \"message\": \"freed "
      ++ print_int qty
      ++ codes " from worker "
      ++ print_int worker
      ++ codes "\"}";
}

abbrev pub sem_post_notify : Pronto → Pronto
sem_post_notify p = record p { notify = p.notify + 1 }

abbrev pub sem_post_reschedule : Pronto → Pronto
sem_post_reschedule p = record p { reschedule = p.reschedule + 1 }

-- The shared state after a callback, and its reply; `none` is an access to memory that is not there.
abbrev pub HandlerCallback {ℓ} : Type ℓ → Type ℓ
HandlerCallback Json = Pronto → HttpRequest Json → Option (Pronto × Reply)

unfoldable pub has_body {ℓ} : {Json : Type ℓ} → HttpRequest Json → Bool
has_body req = same req.method (codes "POST") && elim req.json_body [ none ↦ false | some j ↦ true ]

-- `valueint j name`: the `valueint` of cJSON_GetObjectItem(j, name), as a pattern of an `int`, or
-- `none` for NULL.
module _ {ℓ} {Json : Type ℓ} (valueint : Json → Bytes → Option ℕ) where
  abbrev pub item : HttpRequest Json → Bytes → Option ℕ
  item req name = elim req.json_body [ none ↦ none | some j ↦ valueint j name ]

  abbrev pub schedule_qty : Pronto → Option ℕ → Pronto × Reply
  schedule_qty p none = (p, missing (codes "qty"))
  schedule_qty p (some v) =
      if is_schedulable p (u32 v)
      then (sem_post_notify (add_job p (u32 v)), scheduled (u32 v))
      else (p, too_big)

  unfoldable pub schedule : HandlerCallback Json
  schedule p req =
      some (if has_body req then schedule_qty p (item req (codes "qty")) else (p, bad_request))

  abbrev pub job_done_freed : ℕ → ℕ → Option Pronto → Option (Pronto × Reply)
  job_done_freed qty worker none = none
  job_done_freed qty worker (some p) = some (sem_post_reschedule p, freed_from qty worker)

  abbrev pub job_done_items : Pronto → Option ℕ → Option ℕ → Option (Pronto × Reply)
  job_done_items p none worker = some (p, missing (codes "qty"))
  job_done_items p (some q) none = some (p, missing (codes "worker"))
  job_done_items p (some q) (some w) =
      job_done_freed (u32 q) (u32 w) (free_capacity p (u32 w) (u32 q))

  unfoldable pub job_done : HandlerCallback Json
  job_done p req =
      if has_body req
      then job_done_items p (item req (codes "freed_qty")) (item req (codes "worker"))
      else some (p, bad_request)

  -- The routes that handler_process_request registers.
  unfoldable pub served : List (Route (HandlerCallback Json))
  unfolding handler_route
  served =
      let routes = (handler_route [] post (codes "/schedule") schedule).0 in
      (handler_route routes post (codes "/done") job_done).0

  abbrev pub answer :
      Pronto
      → HttpRequest Json
      → SearchStatus × Option (HandlerCallback Json)
      → Option (Pronto × Reply)
  answer p req (found, some callback) = callback p req
  answer p req (found, none) = some (p, path_not_found)
  answer p req (not_allowed, callback) = some (p, method_not_allowed)
  answer p req (not_found, callback) = some (p, path_not_found)

  unfoldable pub build_response :
      List (Route (HandlerCallback Json))
      → Pronto
      → HttpRequest Json
      → Bool
      → Option (Pronto × Reply)
  build_response routes p req is_bad_request =
      let answered = answer p req (handler_route_search routes req.method req.path) in
      if is_bad_request then some (p, bad_request) else answered
