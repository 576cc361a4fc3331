-- ===== src/Reading.antt =====
-- The loop of handler_process_request (srv/lib/handler.c) that reads a request from a non-blocking
-- socket, as a function of what the calls of read return. phr_parse_request is a parameter, and what
-- it finds in a request is of any type.
pub mod Bounds
pub mod Parsed
use pronto.Prelude.{
  ℕ, suc, ◌+◌, Bool, true, false, Option, none, some, List, [], ◌∷◌, ◌++◌, ltb, leb, length,
  if◌then◌else◌,
}
use pronto.Bytes.{Bytes}

abbrev pub max_request_size : ℕ
max_request_size = 122880

-- EAGAIN or EWOULDBLOCK, EINTR, and any other value of errno.
pub data Errno : Type 0 where
  again : Errno
  interrupted : Errno
  other : Errno

-- The bytes that a call of read stored (none at the end of the stream), or its failure.
pub data ReadResult : Type 0 where
  received : (bytes : Bytes) → ReadResult
  failed : (errno : Errno) → ReadResult

-- What phr_parse_request returns: -2, -1, a positive length, or something else.
pub data ParseResult {ℓ} (A : Type ℓ) : Type ℓ where
  incomplete : ParseResult A
  invalid : ParseResult A
  parsed : (request_length : ℕ) (request : A) → ParseResult A
  unknown : ParseResult A

-- How the loop is left, or that it is at a further call of read.
pub data Outcome {ℓ} (A : Type ℓ) : Type ℓ where
  reading : Outcome A
  overflow : Outcome A  -- read stores bytes past the end of request_buffer
  drained : Outcome A  -- the fifth retry; nothing was parsed
  broken_request : Outcome A
  request_too_large : Outcome A
  finished : (request_length : ℕ) (request : A) (buffer : Bytes) → Outcome A

abbrev pub is_again : Option Errno → Bool
is_again (some again) = true
is_again errno = false

module _ {ℓ} {A : Type ℓ} where
  abbrev pub after_parse : Bytes → ParseResult A → Outcome A → Outcome A
  after_parse buffer incomplete on = on
  after_parse buffer invalid on = broken_request
  after_parse buffer (parsed n a) on = finished n a buffer
  after_parse buffer unknown on = broken_request

  abbrev pub retry : ℕ → Outcome A → Outcome A
  retry retries on = if leb 5 retries then drained else on

module _ {ℓ} {A : Type ℓ} (phr_parse_request : Bytes → ℕ → ParseResult A) where
  -- From line 192 on, with `bytes` stored behind `buffer`, whose length is buflen.
  unfoldable pub take_bytes : Bytes → ℕ → Bytes → Outcome A → Outcome A
  take_bytes buffer request_size [] on = broken_request
  take_bytes buffer request_size (c ∷ bytes) on =
      let whole = buffer ++ c ∷ bytes in
      let next = after_parse whole (phr_parse_request whole (length buffer)) on in
      if ltb max_request_size (request_size + length (c ∷ bytes)) then request_too_large else next

  -- `errno` is what the last failed call left there: a call that succeeds does not change it. A call of
  -- read has stored its bytes before line 200 compares the size, so that the end of the buffer comes first.
  unfoldable pub read_loop : List ReadResult → Option Errno → Bytes → ℕ → ℕ → Outcome A
  unfolding take_bytes
  read_loop [] errno buffer request_size retries = reading
  read_loop (failed interrupted ∷ rs) errno buffer request_size retries =
      read_loop rs (some interrupted) buffer request_size retries
  read_loop (failed other ∷ rs) errno buffer request_size retries = broken_request
  read_loop (failed again ∷ rs) errno buffer request_size retries =
      let on = read_loop rs (some again) buffer request_size (suc retries) in retry (suc retries) on
  read_loop (received bytes ∷ rs) errno buffer request_size retries =
      let on = read_loop rs errno (buffer ++ bytes) (request_size + length bytes) retries in
      let skipped = read_loop rs errno buffer request_size (suc retries) in
      let taken = take_bytes buffer request_size bytes on in
      let inside = if is_again errno then retry (suc retries) skipped else taken in
      if ltb max_request_size (length buffer + length bytes) then overflow else inside
