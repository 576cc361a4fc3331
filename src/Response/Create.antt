-- ===== src/Response/Create.antt =====
-- http_response_create, with headers of the caller as everywhere in the source.
use pronto.Prelude.{
  ℕ, suc, ◌+◌, ◌≡◌, ◌<◌, ◌≤◌, refl, sym, ap, ◌∙◌, ◌⊎◌, inl, inr, zero, Bool, true, false, ◌==◌,
  if◌then◌else◌, Option, none, some, [], ◌∷◌, ◌++◌, length, arith, Option-cases, length-append,
}
use pronto.Bytes.{Bytes, codes, decimal}
use pronto.Response.{
  HttpResponse, default_headers, stringify_status, stringify, header_buffer, create,
}
use pronto.Response.Buffer.{
  ◌>>=◌, pad, write, strncpy, text, IsText, text-pad, length-pad, pad_nil, strncat-pad,
  write-terminated, length-write, length-strncat,
}

abbrev pub blank : Bytes
blank = codes "\n\r\n"

-- The whole response as it should go out.
abbrev pub message : ℕ → Bytes → Bytes → Bytes
message status headers body = ((stringify_status status ++ headers) ++ blank) ++ body

pub All-append : (xs ys : Bytes) → IsText xs → IsText ys → IsText (xs ++ ys)
All-append [] ys p q = q
All-append (x ∷ xs) ys (h, p) q = (h, All-append xs ys p q)

abbrev pub nonzero : Bytes → Bool
nonzero [] = true
nonzero (zero ∷ s) = false
nonzero (suc c ∷ s) = nonzero s

pub nonzero-IsText : (s : Bytes) → nonzero s ≡ true → IsText s
nonzero-IsText [] h = tt
nonzero-IsText (zero ∷ s) h = cc
nonzero-IsText (suc c ∷ s) h = (λ e. omega (arith, e), nonzero-IsText s h)

if-IsText : (b : Bool) (x y : Bytes) → IsText x → IsText y → IsText (if b then x else y)
if-IsText true x y p q = p
if-IsText false x y p q = q

stringify_status-IsText : (status : ℕ) → IsText (stringify_status status)
unfolding stringify_status
stringify_status-IsText status =
    if-IsText (status == 200) _ _ (nonzero-IsText (codes "HTTP/1.1 200 OK\n") refl) (
      if-IsText (status == 400) _ _ (nonzero-IsText (codes "HTTP/1.1 400 Bad Request\n") refl) (
        if-IsText (status == 404) _ _ (nonzero-IsText (codes "HTTP/1.1 404 Not Found\n") refl) (
          if-IsText (status == 405) _ _
            (nonzero-IsText (codes "HTTP/1.1 405 Method Not Allowed\n") refl)
            (nonzero-IsText (codes "HTTP/1.1 500 Internal Server Error\n") refl))))

-- The block of http_response_stringify is large enough.
stringify_lem :
    (status content_length headers_length : ℕ) (headers body : Bytes)
    → IsText headers
    → IsText body
    → length body ≡ content_length
    → length headers + 4 ≤ headers_length
    → stringify status content_length headers_length
        (pad (suc headers_length) headers)
        (pad (suc content_length) body)
      ≡ some (
          pad
            (content_length + headers_length + length (stringify_status status))
            (message status headers body))
unfolding stringify
stringify_lem status content_length headers_length headers body th tb lb lh =
    let line = stringify_status status in
    let total = content_length + headers_length + length line in
    let l1 = length-append line headers in
    let l2 = length-append (line ++ headers) blank in
    let t0 = stringify_status-IsText status in
    let t1 = All-append line headers t0 th in
    let t2 = All-append (line ++ headers) blank t1 (nonzero-IsText blank refl) in
    rw
      (
        sym (pad_nil total),
        strncat-pad total [] line (length line) tt (omega arith) (omega arith),
        text-pad (suc headers_length) headers th (omega arith),
        strncat-pad total line headers headers_length t0 (omega arith) (omega arith),
        strncat-pad total (line ++ headers) blank 4 t1 (omega arith) (omega arith),
        text-pad (suc content_length) body tb (omega arith),
        strncat-pad total ((line ++ headers) ++ blank) body content_length t2 (omega arith)
            (omega arith),
      )
      refl

bind-some {ℓ κ} :
    {A : Type ℓ} {B : Type κ} (o : Option A) (k : A → Option B) (b : B)
    → (o >>= k) ≡ some b
    → (a : A) × (o ≡ some a) × (k a ≡ some b)
bind-some none k b h = cc
bind-some (some a) k b h = (a, refl, h)

-- The headers of the block do not survive, so only their length matters.
header_buffer-length :
    (memory date : Bytes) (content_length : ℕ) (b : Bytes)
    → header_buffer memory date content_length ≡ some b
    → length b ≡ length memory
unfolding header_buffer strncpy
header_buffer-length memory date content_length b h =
    let (b1, e1, h1) =
      bind-some (write (pad (length default_headers) default_headers) memory) _ b h in
    let (b2, e2, h2) = bind-some (write (pad (length date) date) b1) _ b h1 in
    length-strncat b2 _ _ b h2
    ∙ length-write (pad (length date) date) b1 b2 e2
    ∙ length-write (pad (length default_headers) default_headers) memory b1 e1

-- What http_response_create should return.
abbrev pub IsResponse : ℕ → Bytes → Bytes → HttpResponse → Type 0
IsResponse status headers body r =
    (text r.stringified ≡ message status headers body)
    × (r.full_length ≡ length (message status headers body))
    × (r.full_length < length r.stringified)
    × (text r.headers ≡ headers)
    × (text r.body ≡ body)
    × (r.status ≡ status)
    × (r.stream_ptr ≡ 0)

abbrev pub headers_room : Bytes → Bytes → Bytes → ℕ
headers_room date headers body =
    length headers + length default_headers + length (decimal (length body)) + 18 + length date

message-IsText :
    (status : ℕ) (headers body : Bytes)
    → IsText headers
    → IsText body
    → IsText (message status headers body)
message-IsText status headers body th tb =
    let t1 = All-append (stringify_status status) headers (stringify_status-IsText status) th in
    let t2 = All-append (stringify_status status ++ headers) blank t1 (nonzero-IsText blank refl) in
    All-append ((stringify_status status ++ headers) ++ blank) body t2 tb

length-message :
    (status : ℕ) (headers body : Bytes)
    → length (message status headers body)
      ≡ length (stringify_status status) + length headers + 3 + length body
length-message status headers body =
    let line = stringify_status status in
    let l1 = length-append line headers in
    let l2 = length-append (line ++ headers) blank in
    let l3 = length-append ((line ++ headers) ++ blank) body in omega arith

-- For every malloc, whatever its blocks hold: http_response_create runs past the end of a block
-- exactly in joining the default headers, the Date and the Content-Length; else the response is the
-- status line, the headers of the caller alone, a blank line and the body, in a block that is large
-- enough.
pub create_lem :
    (malloc : ℕ → Bytes) (date : Bytes) (status : ℕ) (headers body : Bytes)
    → ((n : ℕ) → length (malloc n) ≡ n)
    → IsText headers
    → IsText body
    → ((header_buffer (malloc (headers_room date headers body + 1)) date (length body) ≡ none)
        × (create malloc date status (some headers) body ≡ none))
      ⊎ ((r : HttpResponse) × (create malloc date status (some headers) body ≡ some r)
          × IsResponse status headers body r)
unfolding create strncpy
create_lem malloc date status headers body sized th tb =
    let n = headers_room date headers body in
    let block = malloc (n + 1) in
    elim (Option-cases (header_buffer block date (length body))) [
      | inl e ↦ inl (e, rw (e) refl)
      | inr (joined, e) ↦
          let len = header_buffer-length block date (length body) joined e in
          let (b1, e1, f1) =
            write-terminated (length body) body (malloc (length body + 1)) (omega arith)
              (omega (arith, sized (length body + 1))) in
          let (b2, e2, f2) =
            write-terminated n headers joined (omega arith) (omega (arith, len, sized (n + 1))) in
          let e3 = stringify_lem status (length body) n headers body th tb refl (omega arith) in
          let sent = message status headers body in
          let size = length body + n + length (stringify_status status) in
          let lm = length-message status headers body in
          let short : length sent < size = omega arith in
          let tp = text-pad size sent (message-IsText status headers body th tb) short in
          let lt : length (text (pad size sent)) < length (pad size sent) =
            omega (arith, ap length tp, length-pad size sent) in
          inr (
            record {
              status = status;
              content_length = length body;
              headers_length = n;
              date_header_length = length date;
              full_length = length (text (pad size sent));
              body = pad (suc (length body)) body;
              headers = pad (suc n) headers;
              stringified = pad size sent;
              stream_ptr = 0;
            },
            rw (e, e1, e2, f1, f2, e3) refl,
            (
              tp,
              ap length tp,
              lt,
              text-pad (suc n) headers th (omega arith),
              text-pad (suc (length body)) body tb (omega arith),
              refl,
              refl,
            ),
          )
    ]
