-- ===== src/Response.antt =====
-- srv/lib/http_response.c: the response as one block of bytes, with the string functions of the C
-- library on the blocks that malloc hands out. Lengths are below 2^31 here.
pub mod Buffer
pub mod Create
pub mod Zeroed
use pronto.Prelude.{
  ℕ, ◌+◌, Option, none, some, List, [], ◌∷◌, ◌++◌, ◌==◌, length, set, replicate, if◌then◌else◌,
}
use pronto.Bytes.{Bytes, codes, decimal}
use Buffer.{◌>>=◌, strncpy, strncat, text}

-- http_response, without the socket and date_header, which points to a local that is gone.
pub record HttpResponse : Type 0 where
  pub status : ℕ
  pub content_length : ℕ
  pub headers_length : ℕ
  pub date_header_length : ℕ
  pub full_length : ℕ
  pub body : Bytes
  pub headers : Bytes
  pub stringified : Bytes
  pub stream_ptr : ℕ

abbrev pub default_headers : Bytes
default_headers = codes "Connection: close\nServer: pronto-srv/0.0.1\n"

unfoldable pub stringify_status : ℕ → Bytes
stringify_status status =
    if status == 200
    then codes "HTTP/1.1 200 OK\n"
    else (if status == 400
        then codes "HTTP/1.1 400 Bad Request\n"
        else (if status == 404
            then codes "HTTP/1.1 404 Not Found\n"
            else (if status == 405
                then codes "HTTP/1.1 405 Method Not Allowed\n"
                else codes "HTTP/1.1 500 Internal Server Error\n")))

-- http_response_stringify, on the fields that it reads.
unfoldable pub stringify : ℕ → ℕ → ℕ → Bytes → Bytes → Option Bytes
stringify status content_length headers_length headers body =
    let status_line = stringify_status status in
    let total_length = content_length + headers_length + length status_line in
    do
      with_status ← strncat (replicate total_length 0) status_line (length status_line)
      with_headers ← strncat with_status (text headers) headers_length
      with_blank ← strncat with_headers (codes "\n\r\n") 4
      strncat with_blank (text body) content_length

abbrev pub length_of : Option Bytes → ℕ
length_of none = 0
length_of (some h) = length h

-- The headers before those of the caller are copied over them.
unfoldable pub header_buffer : Bytes → Bytes → ℕ → Option Bytes
header_buffer memory date content_length =
    let content_length_header = codes "Content-Length: " ++ decimal content_length ++ codes "\n" in
    do
      defaults ← strncpy memory default_headers (length default_headers)
      dated ← strncpy defaults date (length date)
      strncat dated content_length_header (length (decimal content_length))

abbrev pub copy_headers : Bytes → Option Bytes → ℕ → Option Bytes
copy_headers buffer none headers_length = some buffer
copy_headers buffer (some h) headers_length = strncpy buffer h headers_length

-- http_response_create at a time whose Date header is `date`, where `malloc` gives the old contents
-- of a block; `none` is a read or a write past the end of a block.
unfoldable pub create : (ℕ → Bytes) → Bytes → ℕ → Option Bytes → Bytes → Option HttpResponse
unfolding header_buffer stringify
create malloc date status headers body =
    let content_length = length body in
    let headers_length =
      length_of headers
      + length default_headers
      + length (decimal content_length)
      + 18
      + length date in
    do
      joined ← header_buffer (malloc (headers_length + 1)) date content_length
      body_copy ← strncpy (malloc (content_length + 1)) body content_length
      with_headers ← copy_headers joined headers headers_length
      let header_block = set with_headers headers_length 0
      let body_block = set body_copy content_length 0
      stringified ← stringify status content_length headers_length header_block body_block
      some (record {
        status = status;
        content_length = content_length;
        headers_length = headers_length;
        date_header_length = length date;
        full_length = length (text stringified);
        body = body_block;
        headers = header_block;
        stringified = stringified;
        stream_ptr = 0;
      })
