-- ===== src/Serving/Deeds.antt =====
-- What an event of a connection does to the shared state, by the events of System.
use pronto.Prelude.{
  ℕ, ◌≡◌, ◌⊎◌, inl, inr, refl, sym, ap, some-injective, false, Option, none, some, [], ◌∷◌,
  Bool-cases, Option-cases, ◌==◌,
}
use pronto.Word.{u32}
use pronto.Bytes.{Bytes, codes}
use pronto.Handler
use pronto.Cluster.{Pronto}
use pronto.Request.{HttpRequest, same, http_request_from}
use pronto.Handler.{Reply, method_not_allowed, path_not_found, build_response, served}
use pronto.Handler.Routes.{build_response_lem}
use pronto.Handler.Callbacks.{Leads, schedule-events, job_done-events}
use pronto.Response.{HttpResponse, create}
use pronto.Reading.{
  ParseResult, Outcome, reading, overflow, drained, broken_request, request_too_large, finished,
  read_loop,
}
use pronto.Intake.{
  PhrRequest, Surroundings, Answer, pending, ignored, undefined, watching, dropped, Body, fetched,
  skipped, overrun, content_type, fetch_body, watch, respond, respond_to, with_body,
  respond_bodiless, answer_request, on_input,
}
use pronto.Sending.{Progress, streaming, closed, overread, send_loop}
use pronto.Serving.{
  Watched, for_request, for_response, Ready, epollin, epollout, after_input, after_output,
  on_epollin, on_epollout, on_event,
}
use pronto.System.{System, schedule, post_notify, done, post_reschedule}

-- From `s` to the books `p` by no event, or by those of an accepted request.
abbrev pub Deeds : System → Pronto → Type 0
Deeds s p =
    (p ≡ s.pronto)
    ⊎ (((q : ℕ) × Leads s (schedule q) post_notify p)
        ⊎ ((k q : ℕ) × Leads s (done k q) post_reschedule p))

-- The shared state after the EPOLLIN branch.
abbrev pub state_after : Pronto → Answer → Pronto
state_after p pending = p
state_after p ignored = p
state_after p undefined = p
state_after p (watching q r) = q
state_after p (dropped q) = q

same_reply : {x y : Pronto × Reply} → some x ≡ some y → x.0 ≡ y.0
same_reply h = ap (λ (r : Pronto × Reply). r.0) (some-injective _ _ h)

module _ {ℓ} {Json : Type ℓ} (valueint : Json → Bytes → Option ℕ) (s : System) where
  schedule-Deeds :
      (req : HttpRequest Json) (p : Pronto) (reply : Reply)
      → Handler.schedule valueint s.pronto req ≡ some (p, reply)
      → Deeds s p
  schedule-Deeds req p reply h =
      let (p', reply', e, what) = schedule-events valueint s req in
      rw (← same_reply (rw (e) at h)) (elim what [
        | inl (q, asks, st, leads) ↦ inr (inl (q, leads))
        | inr (none_asked, (same_state, st)) ↦ inl same_state
      ])

  job_done-Deeds :
      (req : HttpRequest Json) (p : Pronto) (reply : Reply)
      → Handler.job_done valueint s.pronto req ≡ some (p, reply)
      → Deeds s p
  job_done-Deeds req p reply h = elim (job_done-events valueint s req) [
    | inl (q, w, returns, out, crash, e) ↦ cc (rw (e) at h)
    | inr (p', reply', e, what) ↦ rw (← same_reply (rw (e) at h)) (elim what [
      | inl (q, w, returns, inside, st, leads) ↦ inr (inr (u32 w, q, leads))
      | inr (none_returned, (same_state, st)) ↦ inl same_state
    ])
  ]

  build_response-Deeds :
      (req : HttpRequest Json) (p : Pronto) (reply : Reply)
      → build_response valueint (served valueint) s.pronto req false ≡ some (p, reply)
      → Deeds s p
  build_response-Deeds req p reply built =
      let h = rw (build_response_lem valueint s.pronto req false) at built in
      elim (Bool-cases (same (codes "/schedule") req.path)) [
        | inl a ↦ elim (Bool-cases (same (codes "POST") req.method)) [
          | inl b ↦ schedule-Deeds req p reply (rw (a, b) at h)
          | inr b ↦ inl (sym (same_reply (rw (a, b) at h)))
        ]
        | inr a ↦ elim (Bool-cases (same (codes "/done") req.path)) [
          | inr c ↦ inl (sym (same_reply (rw (a, c) at h)))
          | inl c ↦ elim (Bool-cases (same (codes "POST") req.method)) [
            | inl b ↦ job_done-Deeds req p reply (rw (a, c, b) at h)
            | inr b ↦ inl (sym (same_reply (rw (a, c, b) at h)))
          ]
        ]
      ]

  -- Once the callback is done, the response can only be lost.
  watch-Deeds :
      (env : Surroundings Json) (p : Pronto) (r : Option HttpResponse)
      → Deeds s p
      → Deeds s (state_after s.pronto (watch env p r))
  watch-Deeds env p none d = inl refl
  watch-Deeds env p (some r) d = elim (Bool-cases env.watched) [
    | inl e ↦ rw (e) d
    | inr e ↦ rw (e) d
  ]

  respond-Deeds :
      (env : Surroundings Json) (req : HttpRequest Json)
      → Deeds s (state_after s.pronto (respond valueint env s.pronto req))
  unfolding respond
  respond-Deeds env req =
      elim (Option-cases (build_response valueint (served valueint) s.pronto req false)) [
        | inl e ↦ rw (e) (inl refl)
        | inr ((p, reply), e) ↦ rw (e) (
            watch-Deeds env p
              (create env.malloc env.date reply.status (some content_type) reply.body)
              (build_response-Deeds req p reply e))
      ]

  respond_to-Deeds :
      (env : Surroundings Json) (b : Body Json)
      → Deeds s (state_after s.pronto (respond_to valueint env s.pronto b))
  respond_to-Deeds env (fetched req) = respond-Deeds env req
  respond_to-Deeds env skipped = inl refl
  respond_to-Deeds env overrun = inl refl

  respond_bodiless-Deeds :
      (env : Surroundings Json) (req : HttpRequest Json) (o : Option Json)
      → Deeds s (state_after s.pronto (respond_bodiless valueint env s.pronto req o))
  respond_bodiless-Deeds env req none = respond-Deeds env req
  respond_bodiless-Deeds env req (some j) = inl refl

module _ {ℓ} {Json : Type ℓ} (phr_parse_request : Bytes → ℕ → ParseResult PhrRequest)
    (cjson_parse : Bytes → ℕ → Option Json) (valueint : Json → Bytes → Option ℕ) where
  on_input-Deeds :
      (s : System) (env : Surroundings Json) (o : Outcome PhrRequest)
      → Deeds s (state_after s.pronto (on_input cjson_parse valueint env s.pronto o))
  unfolding on_input answer_request
  on_input-Deeds s env reading = inl refl
  on_input-Deeds s env overflow = inl refl
  on_input-Deeds s env drained = inl refl
  on_input-Deeds s env broken_request = inl refl
  on_input-Deeds s env request_too_large = inl refl
  on_input-Deeds s env (finished n a buffer) =
      let req = http_request_from env.unset a.method a.path a.headers in
      elim (Bool-cases (with_body req)) [
        | inl e ↦ rw (e) (respond_to-Deeds valueint s env (fetch_body cjson_parse env req buffer n))
        | inr e ↦ rw (e) (respond_bodiless-Deeds valueint s env req req.json_body)
      ]

  input-after :
      (p : Pronto) (fd address : ℕ) (a : Answer)
      → (after_input p fd address a).1.0 ≡ state_after p a
  input-after p fd address pending = refl
  input-after p fd address ignored = refl
  input-after p fd address undefined = refl
  input-after p fd address (watching t r) = refl
  input-after p fd address (dropped t) = refl

  output-same :
      (p : Pronto) (fd address : ℕ) (o : Bytes × Progress) → (after_output p fd address o).1.0 ≡ p
  output-same p fd address (bytes, streaming r) = refl
  output-same p fd address (bytes, closed total) = refl
  output-same p fd address (bytes, overread reached) = refl

  on_epollin-Deeds :
      (s : System) (w : Watched) (e : Ready Json)
      → Deeds s (on_epollin phr_parse_request cjson_parse valueint s.pronto w e).1.0
  on_epollin-Deeds s (for_response fd address r) e = inl refl
  on_epollin-Deeds s (for_request fd) e =
      let o = read_loop phr_parse_request e.reads none [] 0 0 in
      rw
        (input-after s.pronto fd e.address
          (on_input cjson_parse valueint e.surroundings s.pronto o))
        (on_input-Deeds s e.surroundings o)

  on_epollout-Deeds :
      (s : System) (w : Watched) (e : Ready Json)
      → Deeds s (on_epollout phr_parse_request cjson_parse valueint s.pronto w e).1.0
  on_epollout-Deeds s (for_request fd) e = inl refl
  on_epollout-Deeds s (for_response fd address r) e =
      inl (output-same s.pronto fd address (send_loop r (e.sent ∷ [])))

  -- Whatever an event of a connection is, and whatever the calls made for it return, it does to the
  -- shared state what the events `schedule` and `post_notify` of the server do, one after the other, or
  -- `done` and `post_reschedule`, or nothing.
  pub on_event-Deeds :
      (s : System) (w : Watched) (e : Ready Json)
      → Deeds s (on_event phr_parse_request cjson_parse valueint s.pronto w e).1.0
  unfolding on_event
  on_event-Deeds s w e = elim (Bool-cases (e.events == epollin)) [
    | inl i ↦ rw (i) (on_epollin-Deeds s w e)
    | inr i ↦ elim (Bool-cases (e.events == epollout)) [
      | inl o ↦ rw (i, o) (on_epollout-Deeds s w e)
      | inr o ↦ rw (i, o) (inl refl)
    ]
  ]
