-- ===== src/Reading/Bounds.antt =====
-- The bounds of the request buffer and of the number of retries.
use pronto.Prelude.{
  ℕ, suc, ◌+◌, ◌≤◌, ◌≢◌, Option, some, List, [], ◌∷◌, ◌++◌, ltb, leb, length, arith, length-append,
  total, le→ltb, Bool-cases, inl, inr,
}
use pronto.Bytes.{Bytes}
use pronto.Reading.{
  max_request_size, Errno, again, interrupted, other, received, failed, ReadResult, ParseResult,
  incomplete, invalid, parsed, unknown, Outcome, overflow, is_again, after_parse, retry, take_bytes,
  read_loop,
}

-- How many bytes the calls of read store.
abbrev pub size : ReadResult → ℕ
size (received bytes) = length bytes
size (failed errno) = 0

module _ {ℓ} {A : Type ℓ} (phr_parse_request : Bytes → ℕ → ParseResult A) where
  retry_inside : (n : ℕ) (on : Outcome A) → on ≢ overflow → retry n on ≢ overflow
  retry_inside n on h = elim (Bool-cases (leb 5 n)) [ inl e ↦ rw (e) λ k. cc | inr e ↦ rw (e) h ]

  after_parse_inside :
      (buffer : Bytes) (r : ParseResult A) (on : Outcome A)
      → on ≢ overflow
      → after_parse buffer r on ≢ overflow
  after_parse_inside buffer incomplete on h = h
  after_parse_inside buffer invalid on h = λ k. cc
  after_parse_inside buffer (parsed n a) on h = λ k. cc
  after_parse_inside buffer unknown on h = λ k. cc

  take_bytes_inside :
      (buffer : Bytes) (request_size : ℕ) (bytes : Bytes) (on : Outcome A)
      → on ≢ overflow
      → take_bytes phr_parse_request buffer request_size bytes on ≢ overflow
  unfolding take_bytes
  take_bytes_inside buffer request_size [] on h = λ k. cc
  take_bytes_inside buffer request_size (c ∷ bytes) on h =
      let whole = buffer ++ c ∷ bytes in
      elim (Bool-cases (ltb max_request_size (request_size + length (c ∷ bytes)))) [
        | inl e ↦ rw (e) λ k. cc
        | inr e ↦ rw (e) (after_parse_inside whole _ on h)
      ]

  -- As long as all that read returns fits into the buffer, nothing is stored past its end.
  pub read_loop_inside :
      (rs : List ReadResult) (errno : Option Errno) (buffer : Bytes) (request_size retries : ℕ)
      → length buffer + total size rs ≤ max_request_size
      → read_loop phr_parse_request rs errno buffer request_size retries ≢ overflow
  unfolding read_loop
  read_loop_inside [] errno buffer request_size retries le = λ k. cc
  read_loop_inside (failed interrupted ∷ rs) errno buffer request_size retries le =
      read_loop_inside rs (some interrupted) buffer request_size retries (omega arith)
  read_loop_inside (failed other ∷ rs) errno buffer request_size retries le = λ k. cc
  read_loop_inside (failed again ∷ rs) errno buffer request_size retries le =
      retry_inside (suc retries) _
        (read_loop_inside rs (some again) buffer request_size (suc retries) (omega arith))
  read_loop_inside (received bytes ∷ rs) errno buffer request_size retries le =
      let fits = le→ltb max_request_size (length buffer + length bytes) (omega arith) in
      elim (Bool-cases (is_again errno)) [
        | inl f ↦
            rw (fits, f)
              (retry_inside (suc retries) _
                (read_loop_inside rs errno buffer request_size (suc retries) (omega arith)))
        | inr f ↦
            rw (fits, f)
              (take_bytes_inside buffer request_size bytes _ (
                read_loop_inside rs errno (buffer ++ bytes) (request_size + length bytes) retries
                  (omega (arith, length-append buffer bytes))))
      ]
