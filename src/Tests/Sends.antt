-- ===== src/Tests/Sends.antt =====
-- A response of five bytes, sent in two parts.
use pronto.Prelude.{◌≡◌, refl, [], ◌∷◌, arith}
use pronto.Bytes.{codes}
use pronto.Response.{HttpResponse}
use pronto.Sending.{written, unavailable, closed, send_loop, IsSent, send_loop_lem}

abbrev hello : HttpResponse
hello = record {
  status = 200;
  content_length = 0;
  headers_length = 0;
  date_header_length = 0;
  full_length = 5;
  body = [];
  headers = [];
  stringified = codes "hello";
  stream_ptr = 0;
}

send_loop_lem_example : IsSent hello (send_loop hello (written 2 ∷ unavailable ∷ written 3 ∷ []))
send_loop_lem_example =
    send_loop_lem (written 2 ∷ unavailable ∷ written 3 ∷ []) hello (ground arith)

hello_sent : send_loop hello (written 2 ∷ unavailable ∷ written 3 ∷ []) ≡ (codes "hello", closed 5)
unfolding send_loop
hello_sent = refl
