-- ===== src/Tests/Responses.antt =====
-- http_response_create on blocks of zeros and on blocks that hold something else.
use pronto.Prelude.{ℕ, zero, suc, ◌+◌, ◌≡◌, ◌⊎◌, refl, ap, none, some, length, replicate}
use pronto.Bytes.{Bytes, codes, digits, decimal}
use pronto.Handler.{bad_request, uninmplemented_method, internal_server_error}
use pronto.Response.{HttpResponse, header_buffer, create, stringify_status}
use pronto.Response.Buffer.{strncpy, strncat}
use pronto.Response.Create.{IsResponse, create_lem, headers_room, nonzero-IsText}

abbrev monday : Bytes
monday = codes "Date: Mon, 01 Jan 2024 00:00:00 GMT\n"

abbrev content_type : Bytes
content_type = codes "Content-Type: application/json"

-- Blocks of sevens, without a terminator.
abbrev sevens : ℕ → Bytes
sevens n = replicate n 7

length-sevens : (n : ℕ) → length (sevens n) ≡ n
length-sevens zero = refl
length-sevens (suc n) = ap suc (length-sevens n)

create_lem_example :
    ((header_buffer
          (sevens (headers_room monday content_type bad_request.body + 1))
          monday
          (length bad_request.body)
        ≡ none)
      × (create sevens monday 400 (some content_type) bad_request.body ≡ none))
    ⊎ ((r : HttpResponse) × (create sevens monday 400 (some content_type) bad_request.body ≡ some r)
        × IsResponse 400 content_type bad_request.body r)
create_lem_example =
    create_lem sevens monday 400 content_type bad_request.body length-sevens
      (nonzero-IsText content_type refl) (nonzero-IsText bad_request.body refl)

-- Where malloc hands out a block of sevens, strncat looks for a terminator past its end.
sevens-fails : header_buffer (sevens 140) monday 42 ≡ none
unfolding header_buffer strncpy strncat digits decimal
sevens-fails = refl

-- The status line of a 501 is that of a 500.
not_implemented-status :
    stringify_status uninmplemented_method.status ≡ stringify_status internal_server_error.status
unfolding stringify_status
not_implemented-status = refl
