-- ===== src/Tests/Reports.antt =====
-- Worker 1 reports 4 units to /done.
use pronto.Prelude.{
  ℕ, ◌≤◌, ◌≡◌, ◌⊎◌, refl, Option, some, ◌∷◌, [], ◌++◌, length, arith, if◌then◌else◌,
}
use pronto.Bytes.{Bytes, codes}
use pronto.Cluster.{Pronto, free_capacity}
use pronto.Request.{same}
use pronto.Handler.{freed_from, sem_post_reschedule}
use pronto.Response.{HttpResponse}
use pronto.Response.Create.{IsResponse, nonzero-IsText}
use pronto.Reading.{finished}
use pronto.Intake.{undefined, watching, content_type, on_input}
use pronto.Intake.Reports.{done_head, on_input-job_done}
use pronto.Tests.Requests.{headers, parse, surroundings, state, document, found_eleven}

-- The document's numbers.
abbrev numbers : Bytes → Bytes → Option ℕ
numbers j name = if same name (codes "worker") then some 1 else some 4

four_freed : numbers document (codes "freed_qty") ≡ some 4
unfolding same
four_freed = refl

one_freed : numbers document (codes "worker") ≡ some 1
unfolding same
one_freed = refl

on_input-job_done_example :
    ((length state.workers_instances ≤ 1)
      × (on_input parse numbers
            (surroundings (0 ∷ []))
            state
            (finished 2 (done_head headers) (codes "\r\n" ++ document))
          ≡ undefined))
    ⊎ ((p' : Pronto) × (r : HttpResponse) × (free_capacity state 1 4 ≡ some p')
        × (on_input parse numbers
              (surroundings (0 ∷ []))
              state
              (finished 2 (done_head headers) (codes "\r\n" ++ document))
            ≡ watching (sem_post_reschedule p') r)
        × IsResponse 200 content_type (freed_from 4 1).body r)
on_input-job_done_example =
    on_input-job_done parse numbers (surroundings (0 ∷ [])) state headers (codes "\r\n" ++ document)
      document (0 ∷ []) 2 4 1 _ found_eleven refl (nonzero-IsText document refl) (omega arith)
      (omega arith) refl four_freed one_freed refl refl
      (nonzero-IsText (codes "Date: Mon, 01 Jan 2024 00:00:00 GMT\n") refl)
