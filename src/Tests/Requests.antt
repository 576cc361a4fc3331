-- ===== src/Tests/Requests.antt =====
-- Headers, numbers and whole requests at concrete inputs.
use pronto.Prelude.{
  ℕ, ◌≡◌, refl, true, Option, none, some, List, [], ◌∷◌, ◌++◌, length, replicate, All, arith,
}
use pronto.Bytes.{Bytes, codes, digits, decimal}
use pronto.Cluster.{Pronto, is_schedulable, any_holds, add_job}
use pronto.System.{start}
use pronto.Request.{Header, HttpRequest, same, to_lowercase, get_header}
use pronto.Request.Headers.{FindsHeader, get_header_lem}
use pronto.Handler.{scheduled, sem_post_notify}
use pronto.Response.{HttpResponse}
use pronto.Response.Buffer.{text, IsText}
use pronto.Response.Create.{IsResponse, nonzero-IsText}
use pronto.Response.Zeroed.{length-zeros}
use pronto.Reading.{Outcome, finished}
use pronto.Intake.{PhrRequest, Surroundings, ignored, watching, content_type, on_input}
use pronto.Intake.Answers.{IsRequest, Answers, on_input-Answers}
use pronto.Intake.Posts.{job_head, on_input-schedule, on_input-unterminated}

abbrev host : Header
host = record { name = codes "Host"; value = codes "srv" }

abbrev length_eleven : Header
length_eleven = record { name = codes "content-length"; value = codes "11" }

abbrev pub headers : List Header
headers = host ∷ length_eleven ∷ []

headers_clean : All (λ h. IsText h.name × IsText h.value) headers
headers_clean = (
  (nonzero-IsText host.name refl, nonzero-IsText host.value refl),
  ((nonzero-IsText length_eleven.name refl, nonzero-IsText length_eleven.value refl), tt),
)

get_header_lem_example :
    FindsHeader
      (to_lowercase (codes "Content-Length"))
      headers
      (get_header (0 ∷ []) headers (codes "Content-Length"))
get_header_lem_example =
    get_header_lem [] (codes "Content-Length") headers
      (nonzero-IsText (codes "Content-Length") refl) headers_clean

-- A JSON document is its text, and its only number is 4.
abbrev pub parse : Bytes → ℕ → Option Bytes
parse body n = some body

abbrev pub valueint : Bytes → Bytes → Option ℕ
valueint j name = some 4

abbrev empty : HttpRequest Bytes
empty = record {
  method = [];
  path = [];
  headers = [];
  body = [];
  json_body = none;
  method_len = 0;
  path_len = 0;
  num_headers = 0;
}

abbrev pub surroundings : Bytes → Surroundings Bytes
surroundings beyond = record {
  unset = empty;
  beyond = beyond;
  stale = 0 ∷ [];
  stack_left = 4096;
  malloc = λ n. replicate n 0;
  date = codes "Date: Mon, 01 Jan 2024 00:00:00 GMT\n";
  watched = true;
}

abbrev pub state : Pronto
state = (start 2 1).pronto

abbrev pub document : Bytes
document = codes "{\"qty\": 4} "

four_accepted : is_schedulable state 4 ≡ true
unfolding start is_schedulable any_holds
four_accepted = refl

pub found_eleven :
    get_header (0 ∷ []) headers (codes "Content-Length") ≡ some (decimal (length document))
unfolding get_header text same digits decimal
found_eleven = refl

on_input-schedule_example :
    (r : HttpResponse) × (on_input parse valueint
        (surroundings (0 ∷ []))
        state
        (finished 2 (job_head headers) (codes "\r\n" ++ document))
      ≡ watching (sem_post_notify (add_job state 4)) r)
    × IsResponse 200 content_type (scheduled 4).body r
on_input-schedule_example =
    on_input-schedule parse valueint (surroundings (0 ∷ [])) state headers
      (codes "\r\n" ++ document) document (0 ∷ []) 2 4 _ found_eleven refl
      (nonzero-IsText document refl) (omega arith) (omega arith) refl refl four_accepted refl refl
      (nonzero-IsText (codes "Date: Mon, 01 Jan 2024 00:00:00 GMT\n") refl)

on_input-unterminated_example :
    on_input parse valueint
      (surroundings (7 ∷ []))
      state
      (finished 2 (job_head headers) (codes "\r\n" ++ document))
    ≡ ignored
on_input-unterminated_example =
    on_input-unterminated parse valueint (surroundings (7 ∷ [])) state headers (codes "/schedule")
      (codes "\r\n" ++ document) 2 7 [] refl (λ e. omega (arith, e)) headers_clean (omega arith)

abbrev accepted_request : Outcome PhrRequest
accepted_request = finished 2 (job_head headers) (codes "\r\n" ++ document)

answered :
    (r : HttpResponse) × (on_input parse valueint (surroundings (0 ∷ [])) state accepted_request
      ≡ watching (sem_post_notify (add_job state 4)) r)
answered =
    let (r, watched, right) =
      on_input-schedule parse valueint (surroundings (0 ∷ [])) state headers
        (codes "\r\n" ++ document) document (0 ∷ []) 2 4 _ found_eleven refl
        (nonzero-IsText document refl) (omega arith) (omega arith) refl refl four_accepted refl refl
        (nonzero-IsText (codes "Date: Mon, 01 Jan 2024 00:00:00 GMT\n") refl) in
    (r, watched)

on_input-Answers_example :
    (n : ℕ) × (a : PhrRequest) × (buffer : Bytes) × (req : HttpRequest Bytes) × (accepted_request
      ≡ finished n a buffer)
    × IsRequest parse valueint (surroundings (0 ∷ [])) a n buffer req
    × Answers valueint state req (sem_post_notify (add_job state 4)) answered.0
on_input-Answers_example =
    on_input-Answers parse valueint (surroundings (0 ∷ [])) state
      (sem_post_notify (add_job state 4)) accepted_request answered.0 length-zeros answered.1
