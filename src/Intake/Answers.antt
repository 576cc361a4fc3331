-- ===== src/Intake/Answers.antt =====
-- Which responses go out.
use pronto.Prelude.{
  ℕ, ◌≡◌, ◌⊎◌, inl, inr, refl, true, false, Option, none, some, length, Bool-cases, Option-cases,
  subst,
}
use pronto.Bytes.{Bytes}
use pronto.Cluster.{Pronto}
use pronto.Request.{HttpRequest, http_request_from}
use pronto.Handler.{Reply, build_response, served}
use pronto.Handler.Replies.{build_response-IsSpoken}
use pronto.Response.{HttpResponse, create}
use pronto.Response.Buffer.{IsText}
use pronto.Response.Create.{IsResponse, create_lem, nonzero-IsText}
use pronto.Reading.{
  Outcome, reading, overflow, drained, broken_request, request_too_large, finished,
}
use pronto.Intake.{
  PhrRequest, Surroundings, undefined, watching, dropped, Body, fetched, skipped, overrun,
  content_type, fetch_body, watch, respond, respond_to, with_body, respond_bodiless, answer_request,
  on_input,
}

watching_injective :
    {p q : Pronto} {r t : HttpResponse} → watching p r ≡ watching q t → (p ≡ q) × (r ≡ t)
watching_injective h = (cc, cc)

undefined-watching : {p : Pronto} {r : HttpResponse} → undefined ≡ watching p r → ⊥
undefined-watching h = cc

dropped-watching : {p q : Pronto} {r : HttpResponse} → dropped q ≡ watching p r → ⊥
dropped-watching h = cc

module _ {ℓ} {Json : Type ℓ} (valueint : Json → Bytes → Option ℕ) where
  -- The response `r` carries what build_response gives for `req`, which is never told of a bad request.
  abbrev pub Answers : Pronto → HttpRequest Json → Pronto → HttpResponse → Type 0
  Answers p req p' r =
      (reply : Reply) × (build_response valueint (served valueint) p req false ≡ some (p', reply))
      × IsResponse reply.status content_type reply.body r

  module _ (env : Surroundings Json) (sized : (n : ℕ) → length (env.malloc n) ≡ n) where
    watch-Answers :
        (p p' q : Pronto) (req : HttpRequest Json) (reply : Reply) (r : HttpResponse)
        → IsText reply.body
        → build_response valueint (served valueint) p req false ≡ some (q, reply)
        → watch env q (create env.malloc env.date reply.status (some content_type) reply.body)
          ≡ watching p' r
        → Answers p req p' r
    watch-Answers p p' q req reply r t built h =
        elim (create_lem env.malloc env.date reply.status content_type reply.body sized
          (nonzero-IsText content_type refl) t) [
            | inl (e, f) ↦ absurd (undefined-watching (rw (f) at h))
            | inr (r', f, ok) ↦ elim (Bool-cases env.watched) [
              | inr e ↦ absurd (dropped-watching (rw (f, e) at h))
              | inl e ↦
                  let (same_state, same_response) = watching_injective (rw (f, e) at h) in
                  (
                    reply,
                    subst
                        (λ s.
                          build_response valueint (served valueint) p req false ≡ some (s, reply))
                        same_state built,
                    subst (IsResponse reply.status content_type reply.body) same_response ok,
                  )
            ]
          ]

    respond-Answers :
        (p p' : Pronto) (req : HttpRequest Json) (r : HttpResponse)
        → respond valueint env p req ≡ watching p' r
        → Answers p req p' r
    unfolding respond
    respond-Answers p p' req r h =
        elim (Option-cases (build_response valueint (served valueint) p req false)) [
          | inl e ↦ absurd (undefined-watching (rw (e) at h))
          | inr ((q, reply), e) ↦
              let spoken = build_response-IsSpoken valueint p req false in
              watch-Answers p p' q req reply r (rw (e) at spoken) e (rw (e) at h)
        ]

    posted-Answers :
        (p p' : Pronto) (b : Body Json) (r : HttpResponse)
        → respond_to valueint env p b ≡ watching p' r
        → (req : HttpRequest Json) × (b ≡ fetched req) × Answers p req p' r
    posted-Answers p p' (fetched req) r h = (req, refl, respond-Answers p p' req r h)
    posted-Answers p p' skipped r h = cc
    posted-Answers p p' overrun r h = cc

    bodiless-Answers :
        (p p' : Pronto) (req : HttpRequest Json) (o : Option Json) (r : HttpResponse)
        → respond_bodiless valueint env p req o ≡ watching p' r
        → (o ≡ none) × Answers p req p' r
    bodiless-Answers p p' req none r h = (refl, respond-Answers p p' req r h)
    bodiless-Answers p p' req (some j) r h = cc

module _ {ℓ} {Json : Type ℓ} (cjson_parse : Bytes → ℕ → Option Json)
    (valueint : Json → Bytes → Option ℕ) where
  -- The request that the branch answers: with its body, or, if it is no POST, without.
  abbrev pub IsRequest : Surroundings Json → PhrRequest → ℕ → Bytes → HttpRequest Json → Type ℓ
  IsRequest env a n buffer req =
      let got = http_request_from env.unset a.method a.path a.headers in
      ((with_body got ≡ true) × (fetch_body cjson_parse env got buffer n ≡ fetched req))
      ⊎ ((with_body got ≡ false) × (got.json_body ≡ none) × (req ≡ got))

  answer_request-Answers :
      (env : Surroundings Json) (p p' : Pronto) (got : HttpRequest Json) (n : ℕ) (buffer : Bytes)
      (r : HttpResponse)
      → ((n : ℕ) → length (env.malloc n) ≡ n)
      → answer_request cjson_parse valueint env p got buffer n ≡ watching p' r
      → (req : HttpRequest Json) × (((with_body got ≡ true)
            × (fetch_body cjson_parse env got buffer n ≡ fetched req))
          ⊎ ((with_body got ≡ false) × (got.json_body ≡ none) × (req ≡ got)))
        × Answers valueint p req p' r
  unfolding answer_request
  answer_request-Answers env p p' got n buffer r sized h = elim (Bool-cases (with_body got)) [
    | inl e ↦
        let (req, f, ok) =
          posted-Answers valueint env sized p p' (fetch_body cjson_parse env got buffer n) r
            (rw (e) at h) in
        (req, inl (e, f), ok)
    | inr e ↦
        let (f, ok) = bodiless-Answers valueint env sized p p' got got.json_body r (rw (e) at h) in
        (got, inr (e, f, refl), ok)
  ]

  -- A response goes out only for a request that was parsed, and, if it is a POST, whose body was
  -- fetched; then it is the response that build_response gives for that request, in full. In
  -- particular the reply to a bad request never goes out.
  pub on_input-Answers :
      (env : Surroundings Json) (p p' : Pronto) (o : Outcome PhrRequest) (r : HttpResponse)
      → ((n : ℕ) → length (env.malloc n) ≡ n)
      → on_input cjson_parse valueint env p o ≡ watching p' r
      → (n : ℕ) × (a : PhrRequest) × (buffer : Bytes) × (req : HttpRequest Json) × (o
          ≡ finished n a buffer)
        × IsRequest env a n buffer req
        × Answers valueint p req p' r
  unfolding on_input
  on_input-Answers env p p' reading r sized h = cc
  on_input-Answers env p p' overflow r sized h = cc
  on_input-Answers env p p' drained r sized h = cc
  on_input-Answers env p p' broken_request r sized h = cc
  on_input-Answers env p p' request_too_large r sized h = cc
  on_input-Answers env p p' (finished n a buffer) r sized h =
      let (req, asked, ok) =
        answer_request-Answers env p p' (http_request_from env.unset a.method a.path a.headers) n
          buffer r sized h in
      (n, a, buffer, req, refl, asked, ok)
