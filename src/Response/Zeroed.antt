-- ===== src/Response/Zeroed.antt =====
-- http_response_create where malloc hands out zeros.
use pronto.Prelude.{
  ℕ, ◌+◌, ◌≡◌, ◌<◌, sym, ap, ◌∙◌, take, some, [], ◌++◌, length, replicate, arith, inl, inr,
  length-append, drop, refl,
}
use pronto.Bytes.{Bytes, codes, decimal}
use pronto.Response.{HttpResponse, default_headers, header_buffer, create}
use pronto.Response.Buffer.{
  pad, strncpy, IsText, length-pad, pad_nil, write-pad, strncat-cut, pad_self, length-drop,
  drop-IsText,
}
use pronto.Response.Create.{IsResponse, create_lem, All-append, nonzero-IsText, headers_room}

-- A date with default headers behind it leaves room for the Content-Length.
header_buffer-zeroed :
    (m content_length : ℕ) (date : Bytes)
    → IsText date
    → length default_headers + length date + length (decimal content_length) < m
    → (b : Bytes) × (header_buffer (replicate m 0) date content_length ≡ some b)
unfolding header_buffer strncpy
header_buffer-zeroed m content_length date t lt =
    let d = default_headers in
    let a = d ++ drop (length d) [] in
    let ta = All-append d (drop (length d) []) (nonzero-IsText d refl) tt in
    let rest = drop (length date) a in
    let cut = length-drop (length date) a in
    let ll = length-append date rest in
    let header = codes "Content-Length: " ++ decimal content_length ++ codes "\n" in
    let n = length (decimal content_length) in
    (
      pad m ((date ++ rest) ++ take n header),
      rw
          (
            sym (pad_nil m),
            pad_self d,
            write-pad d [] m (omega arith),
            pad_self date,
            write-pad date a m (omega arith),
            strncat-cut m (date ++ rest) header n
                (All-append date rest t (drop-IsText (length date) a ta)) (omega arith),
          )
          refl,
    )

pub length-zeros : (n : ℕ) → length (replicate {A = ℕ} n 0) ≡ n
length-zeros n = ap length (sym (pad_nil n)) ∙ length-pad n []

-- With zeroed memory http_response_create always succeeds, and the response is right.
pub create-zeroed :
    (date : Bytes) (status : ℕ) (headers body : Bytes)
    → IsText date
    → IsText headers
    → IsText body
    → (r : HttpResponse) × (create (λ n. replicate n 0) date status (some headers) body ≡ some r)
      × IsResponse status headers body r
create-zeroed date status headers body td th tb =
    elim (create_lem (λ n. replicate n 0) date status headers body length-zeros th tb) [
      | inr ok ↦ ok
      | inl (e, f) ↦
          let (b, g) =
            header_buffer-zeroed (headers_room date headers body + 1) (length body) date td
              (omega arith) in
          cc
    ]
