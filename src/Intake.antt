-- ===== src/Intake.antt =====
-- The EPOLLIN branch of handler_process_request (srv/lib/handler.c) behind its loop over read: taking
-- the body out of the buffer, answering, and watching the socket for the response to go out. cJSON is
-- a parameter; what the code finds in memory that it has not set is an input.
pub mod Answers
pub mod Posts
pub mod Reports
use pronto.Prelude.{
  ℕ, ◌+◌, Bool, true, false, not, ◌&&◌, ◌||◌, Option, none, some, List, ◌++◌, ◌==◌, ltb, leb,
  length, drop, if◌then◌else◌,
}
use pronto.Word.{lt_int}
use pronto.Bytes.{Bytes, codes}
use pronto.Cluster.{Pronto}
use pronto.Request.{Header, HttpRequest, same, copied, http_request_from, get_header, atoi}
use pronto.Handler.{Reply, build_response, served}
use pronto.Response.{HttpResponse, create}
use pronto.Response.Buffer.{pad, text}
use pronto.Reading.{
  Outcome, reading, overflow, drained, broken_request, request_too_large, finished,
}

-- What phr_parse_request points to in the buffer.
pub record PhrRequest : Type 0 where
  pub method : Bytes
  pub path : Bytes
  pub headers : List Header

-- What one event meets.
pub record Surroundings {ℓ} (Json : Type ℓ) : Type ℓ where
  pub unset : HttpRequest Json  -- incoming_req before http_request_from
  pub beyond : Bytes  -- behind the copy of the name in get_header
  pub stale : Bytes  -- request_buffer behind what was read
  pub stack_left : ℕ  -- bytes that the array `body` may take
  pub malloc : ℕ → Bytes  -- what a fresh block holds
  pub date : Bytes
  pub watched : Bool  -- epoll_ctl succeeds

-- What the event comes to.
pub data Answer : Type 0 where
  pending : Answer  -- read is to be called again
  ignored : Answer  -- `continue`: nothing is sent, the socket stays open
  undefined : Answer  -- memory is used that is not there or that nothing has set
  watching : Pronto → HttpResponse → Answer
  dropped : Pronto → Answer  -- the socket is closed without a response

-- The request with its body, or how the branch is left before.
pub data Body {ℓ} (Json : Type ℓ) : Type ℓ where
  fetched : HttpRequest Json → Body Json
  skipped : Body Json
  overrun : Body Json

abbrev pub content_type : Bytes
content_type = codes "Content-Type: application/json"

-- strncpy reads `n` bytes, or up to a zero byte: they may not all be there.
abbrev pub reads_past : ℕ → Bytes → Bool
reads_past n src = ltb (length src) n && length (text src) == length src

module _ {ℓ} {Json : Type ℓ} (cjson_parse : Bytes → ℕ → Option Json) where
  abbrev pub parsed_body : HttpRequest Json → Bytes → Option Json → Body Json
  parsed_body req body none = skipped
  parsed_body req body (some j) = fetched (record req { body = body; json_body = some j })

  -- char body[content_length + 1], what is copied into it, and its JSON document.
  unfoldable pub take_body : Surroundings Json → HttpRequest Json → Bytes → ℕ → Body Json
  take_body env req src content_length =
      let body = copied content_length src in
      let json = cjson_parse (pad (content_length + 1) body) (content_length + 1) in
      let taken = if reads_past content_length src then overrun else parsed_body req body json in
      if lt_int content_length 0 || leb env.stack_left (content_length + 1) then overrun else taken

  abbrev pub take_length : Surroundings Json → HttpRequest Json → Bytes → Option Bytes → Body Json
  take_length env req src none = skipped
  take_length env req src (some str_content_length) =
      take_body env req src (atoi str_content_length)

  unfoldable pub fetch_body : Surroundings Json → HttpRequest Json → Bytes → ℕ → Body Json
  unfolding take_body
  fetch_body env req buffer request_length =
      take_length env req (drop request_length (buffer ++ env.stale))
        (get_header env.beyond req.headers (codes "Content-Length"))

module _ {ℓ} {Json : Type ℓ} where
  abbrev pub with_body : HttpRequest Json → Bool
  with_body req = same req.method (codes "POST") || same req.method (codes "post")

  abbrev pub watch : Surroundings Json → Pronto → Option HttpResponse → Answer
  watch env p none = undefined
  watch env p (some r) = if env.watched then watching p r else dropped p

  abbrev pub reply_with : Surroundings Json → Option (Pronto × Reply) → Answer
  reply_with env none = undefined
  reply_with env (some (p, reply)) =
      watch env p (create env.malloc env.date reply.status (some content_type) reply.body)

module _ {ℓ} {Json : Type ℓ} (valueint : Json → Bytes → Option ℕ) where
  -- From line 302 on: is_bad_request is 0 wherever the code gets there.
  unfoldable pub respond : Surroundings Json → Pronto → HttpRequest Json → Answer
  respond env p req = reply_with env (build_response valueint (served valueint) p req false)

  abbrev pub respond_to : Surroundings Json → Pronto → Body Json → Answer
  respond_to env p (fetched req) = respond env p req
  respond_to env p skipped = ignored
  respond_to env p overrun = undefined

  -- Without a body json_body is what it was: build_response prints it unless it is NULL.
  abbrev pub respond_bodiless : Surroundings Json → Pronto → HttpRequest Json → Option Json → Answer
  respond_bodiless env p req none = respond env p req
  respond_bodiless env p req (some garbage) = undefined

module _ {ℓ} {Json : Type ℓ} (cjson_parse : Bytes → ℕ → Option Json)
    (valueint : Json → Bytes → Option ℕ) where
  unfoldable pub answer_request : Surroundings Json → Pronto → HttpRequest Json → Bytes → ℕ → Answer
  unfolding respond fetch_body
  answer_request env p req buffer request_length =
      let posted =
        respond_to valueint env p (fetch_body cjson_parse env req buffer request_length) in
      let other = respond_bodiless valueint env p req req.json_body in
      if with_body req then posted else other

  -- The branch, from how the loop over read was left.
  unfoldable pub on_input : Surroundings Json → Pronto → Outcome PhrRequest → Answer
  on_input env p reading = pending
  on_input env p overflow = undefined
  on_input env p drained = undefined
  on_input env p broken_request = ignored
  on_input env p request_too_large = ignored
  on_input env p (finished request_length a buffer) =
      answer_request env p (http_request_from env.unset a.method a.path a.headers) buffer
        request_length
