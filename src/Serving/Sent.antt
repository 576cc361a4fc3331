-- ===== src/Serving/Sent.antt =====
-- What the client of one connection gets, over all of its events.
use pronto.Prelude.{ℕ, ◌≡◌, ◌⊎◌, Option, none, List, [], ◌∷◌, ◌++◌, length, take}
use pronto.Bytes.{Bytes}
use pronto.Cluster.{Pronto}
use pronto.Response.{HttpResponse}
use pronto.Reading.{ParseResult, read_loop, finished}
use pronto.Request.{HttpRequest}
use pronto.Intake.{PhrRequest}
use pronto.Intake.Answers.{Answers, IsRequest}
use pronto.Serving.{
  Ready, End, kept, answered, removed, stalled, fault, unreported, Step, for_request, for_response,
  serve,
}
use pronto.Serving.Continues.{IsFull, Continues}

module _ {ℓ} {Json : Type ℓ} (phr_parse_request : Bytes → ℕ → ParseResult PhrRequest)
    (cjson_parse : Bytes → ℕ → Option Json) (valueint : Json → Bytes → Option ℕ) where
  -- The connection waits for a request, or is left without an answer.
  abbrev pub IsUnanswered : End → Type 0
  IsUnanswered (kept (for_request fd)) = Unit
  IsUnanswered (kept (for_response fd address r)) = ⊥
  IsUnanswered (answered fd) = ⊥
  IsUnanswered (removed fd) = Unit
  IsUnanswered stalled = Unit
  IsUnanswered fault = Unit
  IsUnanswered unreported = Unit

  -- What was answered: the event that brought the request, all that its calls of read returned, the
  -- response that build_response gives for it in the shared state of that moment, and what of the response
  -- has gone out. The events before have neither changed that state nor sent anything.
  pub record Exchange (p : Pronto) (fd : ℕ) (events : List (Ready Json)) (bytes : Bytes) (end : End)
      : Type ℓ where
    pub earlier : List (Ready Json)
    pub event : Ready Json
    pub later : List (Ready Json)
    pub split : events ≡ earlier ++ event ∷ later
    pub reached : Pronto
    pub quiet :
        serve phr_parse_request cjson_parse valueint p (for_request fd) earlier
        ≡ ([], (reached, kept (for_request fd)))
    pub n : ℕ
    pub parsed : PhrRequest
    pub buffer : Bytes
    pub request : HttpRequest Json
    pub after : Pronto
    pub response : HttpResponse
    pub read : read_loop phr_parse_request event.reads none [] 0 0 ≡ finished n parsed buffer
    pub fetched : IsRequest cjson_parse valueint event.surroundings parsed n buffer request
    pub answers : Answers valueint (event.meanwhile reached) request after response
    pub gone_out : bytes ≡ take (length bytes) response.stringified
    pub full : IsFull response (length bytes) end

  abbrev pub IsSound : Pronto → ℕ → List (Ready Json) → Step → Type ℓ
  IsSound p fd events (bytes, (q, end)) =
      ((bytes ≡ []) × IsUnanswered end) ⊎ Exchange p fd events bytes end
