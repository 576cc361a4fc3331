-- ===== src/Intake/Posts.antt =====
-- A POST from the buffer to the response, and where memory that nothing has set decides about it.
use pronto.Prelude.{
  ℕ, ◌+◌, ◌^◌, ◌≤◌, ◌<◌, ◌≡◌, ◌≢◌, refl, ap, ◌∙◌, true, false, Option, some, List, [], ◌∷◌, ◌++◌,
  length, length-append, take, drop, replicate, All, arith, le→ltb, leb,
}
use pronto.Word.{u32, lt_int}
use pronto.Bytes.{Bytes, codes, decimal}
use pronto.Cluster.{Pronto, is_schedulable, add_job}
use pronto.Request.{Header, HttpRequest, same, copied, http_request_from, get_header}
use pronto.Request.Headers.{IsClean, text_lem, get_header_unterminated}
use pronto.Request.Number.{atoi-decimal}
use pronto.Handler
use pronto.Handler.{Reply, has_body, item, scheduled, sem_post_notify, build_response, served}
use pronto.Handler.Routes.{build_response_lem}
use pronto.Handler.Replies.{scheduled-IsText}
use pronto.Response.{HttpResponse}
use pronto.Response.Buffer.{pad, text, IsText}
use pronto.Response.Create.{IsResponse, nonzero-IsText}
use pronto.Response.Zeroed.{create-zeroed}
use pronto.Reading.{finished}
use pronto.Intake.{
  PhrRequest, Surroundings, ignored, watching, fetched, content_type, take_body, fetch_body,
  respond, answer_request, on_input,
}

take-append : (s r : Bytes) → take (length s) (s ++ r) ≡ s
take-append [] r = refl
take-append (c ∷ s) r = ap (λ l. c ∷ l) (take-append s r)

module _ {ℓ} {Json : Type ℓ} (cjson_parse : Bytes → ℕ → Option Json) where
  -- The body is what stands behind the head of the request, as long as Content-Length says.
  take_body_lem :
      (env : Surroundings Json) (req : HttpRequest Json) (body rest : Bytes) (j : Json)
      → IsText body
      → length body + 1 < env.stack_left
      → length body < 2 ^ 31
      → cjson_parse (pad (length body + 1) body) (length body + 1) ≡ some j
      → take_body cjson_parse env req (body ++ rest) (length body)
        ≡ fetched (record req { body = body; json_body = some j })
  unfolding take_body
  take_body_lem env req body rest j t room int e =
      let copy : copied (length body) (body ++ rest) ≡ body =
        ap text (take-append body rest) ∙ text_lem body t in
      let there =
        le→ltb (length (body ++ rest)) (length body) (omega (arith, length-append body rest)) in
      let int_ok : lt_int (length body) 0 ≡ false = ground arith in
      let room_ok : leb env.stack_left (length body + 1) ≡ false = ground arith in
      rw (int_ok, room_ok, there, copy, e) refl

  pub fetch_body_lem :
      (env : Surroundings Json) (req : HttpRequest Json) (buffer body rest : Bytes) (n : ℕ)
      (j : Json)
      → get_header env.beyond req.headers (codes "Content-Length") ≡ some (decimal (length body))
      → drop n (buffer ++ env.stale) ≡ body ++ rest
      → IsText body
      → length body + 1 < env.stack_left
      → length body < 2 ^ 31
      → cjson_parse (pad (length body + 1) body) (length body + 1) ≡ some j
      → fetch_body cjson_parse env req buffer n
        ≡ fetched (record req { body = body; json_body = some j })
  unfolding fetch_body
  fetch_body_lem env req buffer body rest n j named there t room int e =
      rw (named, there, atoi-decimal (length body) int)
        (take_body_lem env req body rest j t room int e)

-- A request to /schedule as it is answered.
abbrev job_request {ℓ} : {Json : Type ℓ} → List Header → Bytes → Json → HttpRequest Json
job_request headers body j = record {
  method = codes "POST";
  path = codes "/schedule";
  headers = headers;
  body = body;
  json_body = some j;
  method_len = 4;
  path_len = 9;
  num_headers = length headers;
}

module _ {ℓ} {Json : Type ℓ} (valueint : Json → Bytes → Option ℕ) where
  schedule_accepted :
      (p : Pronto) (headers : List Header) (body : Bytes) (j : Json) (q : ℕ)
      → valueint j (codes "qty") ≡ some q
      → is_schedulable p (u32 q) ≡ true
      → Handler.schedule valueint p (job_request headers body j)
        ≡ some (sem_post_notify (add_job p (u32 q)), scheduled (u32 q))
  unfolding Handler.schedule has_body same
  schedule_accepted p headers body j q qty ok = rw (qty, ok) refl

  -- What build_response does for a job that can be scheduled.
  build_accepted :
      (p : Pronto) (headers : List Header) (body : Bytes) (j : Json) (q : ℕ)
      → valueint j (codes "qty") ≡ some q
      → is_schedulable p (u32 q) ≡ true
      → build_response valueint (served valueint) p (job_request headers body j) false
        ≡ some (sem_post_notify (add_job p (u32 q)), scheduled (u32 q))
  unfolding same
  build_accepted p headers body j q qty ok =
      build_response_lem valueint p (job_request headers body j) false
      ∙ schedule_accepted p headers body j q qty ok

  -- What build_response gives for a request is what its socket is watched for.
  pub respond_built :
      (env : Surroundings Json) (p q : Pronto) (req : HttpRequest Json) (reply : Reply)
      → env.watched ≡ true
      → env.malloc ≡ (λ n. replicate n 0)
      → IsText env.date
      → IsText reply.body
      → build_response valueint (served valueint) p req false ≡ some (q, reply)
      → (r : HttpResponse) × (respond valueint env p req ≡ watching q r)
        × IsResponse reply.status content_type reply.body r
  unfolding respond
  respond_built env p q req reply watched zeros td tb built =
      let (r, made, right) =
        create-zeroed env.date reply.status content_type reply.body td
          (nonzero-IsText content_type refl) tb in
      (r, rw (built, zeros, made, watched) refl, right)

abbrev pub job_head : List Header → PhrRequest
job_head headers = record { method = codes "POST"; path = codes "/schedule"; headers = headers }

module _ {ℓ} {Json : Type ℓ} (cjson_parse : Bytes → ℕ → Option Json)
    (valueint : Json → Bytes → Option ℕ) where
  -- From the bytes to the job and the response, for a parsed POST on /schedule: get_header finds
  -- Content-Length, with what stands behind its copy of the name, and its value is the length of a body
  -- that follows the head in the buffer, has no zero byte, is shorter than 2 ^ 31 and has room on the
  -- stack; cJSON_Parse makes a document of it with a `qty` that pronto_is_schedulable accepts; malloc
  -- gives zeroed blocks; the date has no zero byte; and epoll_ctl succeeds. Then the job is added, the
  -- scheduler is woken, and the response, 200 with the `qty`, is ready to be sent.
  pub on_input-schedule :
      (env : Surroundings Json) (p : Pronto) (headers : List Header) (buffer body rest : Bytes)
      (n q : ℕ) (j : Json)
      → get_header env.beyond headers (codes "Content-Length") ≡ some (decimal (length body))
      → drop n (buffer ++ env.stale) ≡ body ++ rest
      → IsText body
      → length body + 1 < env.stack_left
      → length body < 2 ^ 31
      → cjson_parse (pad (length body + 1) body) (length body + 1) ≡ some j
      → valueint j (codes "qty") ≡ some q
      → is_schedulable p (u32 q) ≡ true
      → env.watched ≡ true
      → env.malloc ≡ (λ n. replicate n 0)
      → IsText env.date
      → (r : HttpResponse) × (on_input cjson_parse valueint env p
            (finished n (job_head headers) buffer)
          ≡ watching (sem_post_notify (add_job p (u32 q))) r)
        × IsResponse 200 content_type (scheduled (u32 q)).body r
  unfolding on_input answer_request http_request_from text same
  on_input-schedule env p headers buffer body rest n q j named there t room int e qty ok watched
        zeros td =
      let got = http_request_from env.unset (codes "POST") (codes "/schedule") headers in
      let (r, answered, right) =
        respond_built valueint env p _ (job_request headers body j) (scheduled (u32 q)) watched
          zeros td (scheduled-IsText (u32 q)) (build_accepted valueint p headers body j q qty ok) in
      (
        r,
        rw (fetch_body_lem cjson_parse env got buffer body rest n j named there t room int e)
            answered,
        right,
      )

  -- Whether a POST is answered hangs on a byte that nothing has set: if the copy of "Content-Length" is
  -- not followed by a zero byte, a parsed POST is ignored whose header names have at most 14 bytes each
  -- (as many as "Content-Length"), and none of whose header names and values has a zero byte in it.
  pub on_input-unterminated :
      (env : Surroundings Json) (p : Pronto) (headers : List Header) (path buffer : Bytes) (n c : ℕ)
      (behind : Bytes)
      → env.beyond ≡ c ∷ behind
      → c ≢ 0
      → All IsClean headers
      → All (λ h. length h.name ≤ 14) headers
      → on_input cjson_parse valueint env p
          (finished n (record { method = codes "POST"; path = path; headers = headers }) buffer)
        ≡ ignored
  unfolding on_input answer_request http_request_from text same fetch_body
  on_input-unterminated env p headers path buffer n c behind e ne clean short =
      let wanted = codes "Content-Length" in
      rw
        (
          e,
          get_header_unterminated c behind wanted headers ne (nonzero-IsText wanted refl) clean
              short,
        )
        refl
