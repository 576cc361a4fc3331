-- ===== src/Intake/Reports.antt =====
-- A report of a worker, POST on /done, from the buffer to the books and the response.
use pronto.Prelude.{
  ℕ, ◌+◌, ◌^◌, ◌≤◌, ◌<◌, ◌≡◌, ◌⊎◌, refl, ◌∙◌, true, false, Option, some, List, ◌++◌, length, drop,
  replicate, Option-cases, inl, inr,
}
use pronto.Word.{u32}
use pronto.Bytes.{Bytes, codes, decimal}
use pronto.Cluster.{Pronto, free_capacity}
use pronto.Request.{Header, HttpRequest, same, http_request_from, get_header}
use pronto.Handler
use pronto.Handler.{
  Reply, has_body, freed_from, sem_post_reschedule, job_done_freed, build_response, served,
}
use pronto.Handler.Routes.{build_response_lem}
use pronto.Handler.Replies.{freed_from-IsText}
use pronto.Handler.Callbacks.{none-free}
use pronto.Response.{HttpResponse}
use pronto.Response.Buffer.{pad, text, IsText}
use pronto.Response.Create.{IsResponse}
use pronto.Reading.{finished}
use pronto.Intake.{
  PhrRequest, Surroundings, undefined, watching, content_type, respond, answer_request, on_input,
}
use pronto.Intake.Posts.{fetch_body_lem, respond_built}

-- A request to /done as it is answered.
abbrev report {ℓ} : {Json : Type ℓ} → List Header → Bytes → Json → HttpRequest Json
report headers body j = record {
  method = codes "POST";
  path = codes "/done";
  headers = headers;
  body = body;
  json_body = some j;
  method_len = 4;
  path_len = 5;
  num_headers = length headers;
}

abbrev pub done_head : List Header → PhrRequest
done_head headers = record { method = codes "POST"; path = codes "/done"; headers = headers }

module _ {ℓ} {Json : Type ℓ} (valueint : Json → Bytes → Option ℕ) (p : Pronto)
    (headers : List Header) (body : Bytes) (j : Json) (q k : ℕ)
    (qty : valueint j (codes "freed_qty") ≡ some q)
    (worker : valueint j (codes "worker") ≡ some k) where
  -- What build_response does for a report with both numbers.
  build_report :
      build_response valueint (served valueint) p (report headers body j) false
      ≡ job_done_freed valueint (u32 q) (u32 k) (free_capacity p (u32 k) (u32 q))
  unfolding same Handler.job_done has_body
  build_report = build_response_lem valueint p (report headers body j) false ∙ rw (qty, worker) refl

  -- The report is answered, or its worker does not exist.
  answer_report :
      (env : Surroundings Json)
      → env.watched ≡ true
      → env.malloc ≡ (λ n. replicate n 0)
      → IsText env.date
      → ((length p.workers_instances ≤ u32 k)
          × (respond valueint env p (report headers body j) ≡ undefined))
        ⊎ ((p' : Pronto) × (r : HttpResponse) × (free_capacity p (u32 k) (u32 q) ≡ some p')
            × (respond valueint env p (report headers body j) ≡ watching (sem_post_reschedule p') r)
            × IsResponse 200 content_type (freed_from (u32 q) (u32 k)).body r)
  unfolding respond
  answer_report env watched zeros td = elim (Option-cases (free_capacity p (u32 k) (u32 q))) [
    | inl e ↦ inl (none-free p (u32 k) (u32 q) e, rw (build_report, e) refl)
    | inr (p', e) ↦
        let (r, answered, right) =
          respond_built valueint env p (sem_post_reschedule p') (report headers body j)
            (freed_from (u32 q) (u32 k)) watched zeros td (freed_from-IsText (u32 q) (u32 k))
            (rw (build_report, e) refl) in
        inr (p', r, e, answered, right)
  ]

module _ {ℓ} {Json : Type ℓ} (cjson_parse : Bytes → ℕ → Option Json)
    (valueint : Json → Bytes → Option ℕ) where
  -- From the bytes to the books and the response, for a parsed POST on /done: get_header finds
  -- Content-Length, with what stands behind its copy of the name, and its value is the length of a body
  -- that follows the head in the buffer, has no zero byte, is shorter than 2 ^ 31 and has room on the
  -- stack; cJSON_Parse makes a document of it with `freed_qty` and `worker`; malloc gives zeroed blocks;
  -- the date has no zero byte; and epoll_ctl succeeds. Then either the worker is outside the array and
  -- memory is used that is not there; or the worker is given back the units, the rescheduler is woken,
  -- and the response, 200 with both numbers, is ready to be sent.
  pub on_input-job_done :
      (env : Surroundings Json) (p : Pronto) (headers : List Header) (buffer body rest : Bytes)
      (n q k : ℕ) (j : Json)
      → get_header env.beyond headers (codes "Content-Length") ≡ some (decimal (length body))
      → drop n (buffer ++ env.stale) ≡ body ++ rest
      → IsText body
      → length body + 1 < env.stack_left
      → length body < 2 ^ 31
      → cjson_parse (pad (length body + 1) body) (length body + 1) ≡ some j
      → valueint j (codes "freed_qty") ≡ some q
      → valueint j (codes "worker") ≡ some k
      → env.watched ≡ true
      → env.malloc ≡ (λ n. replicate n 0)
      → IsText env.date
      → ((length p.workers_instances ≤ u32 k)
          × (on_input cjson_parse valueint env p (finished n (done_head headers) buffer)
              ≡ undefined))
        ⊎ ((p' : Pronto) × (r : HttpResponse) × (free_capacity p (u32 k) (u32 q) ≡ some p')
            × (on_input cjson_parse valueint env p (finished n (done_head headers) buffer)
                ≡ watching (sem_post_reschedule p') r)
            × IsResponse 200 content_type (freed_from (u32 q) (u32 k)).body r)
  unfolding on_input answer_request http_request_from text same
  on_input-job_done env p headers buffer body rest n q k j named there t room int e qty worker
        watched zeros td =
      let got = http_request_from env.unset (codes "POST") (codes "/done") headers in
      rw (fetch_body_lem cjson_parse env got buffer body rest n j named there t room int e)
        (answer_report valueint p headers body j q k qty worker env watched zeros td)
