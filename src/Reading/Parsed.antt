-- ===== src/Reading/Parsed.antt =====
-- Which reads lead to a parsed request, and which do not.
use pronto.Prelude.{
  ℕ, suc, ◌+◌, ◌≤◌, ◌≡◌, ◌≢◌, refl, false, Option, some, List, [], ◌∷◌, ◌++◌, ltb, leb, length, All,
  arith, length-append, Bool-cases, inl, inr, le→ltb,
}
use pronto.Bytes.{Bytes}
use pronto.Reading.{
  max_request_size, Errno, again, interrupted, other, received, failed, ReadResult, ParseResult,
  incomplete, parsed, Outcome, finished, is_again, after_parse, retry, take_bytes, read_loop,
}

-- The buffer after the chunks `bs`.
abbrev pub join : Bytes → List Bytes → Bytes
join buffer [] = buffer
join buffer (b ∷ bs) = join (buffer ++ b) bs

length-join : (buffer : Bytes) (bs : List Bytes) → length buffer ≤ length (join buffer bs)
length-join buffer [] = omega arith
length-join buffer (b ∷ bs) = omega (arith, length-append buffer b, length-join (buffer ++ b) bs)

abbrev pub reads : List Bytes → List ReadResult → List ReadResult
reads [] rest = rest
reads (b ∷ bs) rest = received b ∷ reads bs rest

abbrev pub IsInterrupt : ReadResult → Type 0
IsInterrupt r = r ≡ failed interrupted

module _ {ℓ} {A : Type ℓ} (phr_parse_request : Bytes → ℕ → ParseResult A) where
  -- Chunks that are not empty and that leave the request incomplete.
  abbrev pub IsPending : Bytes → List Bytes → Type ℓ
  IsPending buffer [] = Unit
  IsPending buffer (b ∷ bs) =
      (b ≢ [])
      × (phr_parse_request (buffer ++ b) (length buffer) ≡ incomplete)
      × IsPending (buffer ++ b) bs

  -- A chunk that fits is taken as line 192 says, if request_size is buflen.
  one_read :
      (rs : List ReadResult) (buffer : Bytes) (c : ℕ) (b : Bytes) (errno : Option Errno)
      (retries : ℕ)
      → is_again errno ≡ false
      → length (buffer ++ c ∷ b) ≤ max_request_size
      → read_loop phr_parse_request (received (c ∷ b) ∷ rs) errno buffer (length buffer) retries
        ≡ after_parse (buffer ++ c ∷ b) (phr_parse_request (buffer ++ c ∷ b) (length buffer)) (
            read_loop phr_parse_request rs errno
              (buffer ++ c ∷ b)
              (length (buffer ++ c ∷ b))
              retries)
  unfolding read_loop take_bytes
  one_read rs buffer c b errno retries f le =
      let len = length-append buffer (c ∷ b) in
      rw (le→ltb max_request_size (length buffer + length (c ∷ b)) (omega arith), f, len) refl

  -- A request that arrives in chunks that are not empty, one after the other while errno is not
  -- EAGAIN, with request_size equal to buflen as at the start, is parsed as soon as its last chunk is
  -- there, if it fits into the buffer; what the socket has after it is not read.
  pub read_loop_complete :
      (before : List Bytes) (buffer : Bytes) (c : ℕ) (b : Bytes) (rest : List ReadResult)
      (errno : Option Errno) (retries n : ℕ) (a : A)
      → is_again errno ≡ false
      → IsPending buffer before
      → length (join buffer before ++ c ∷ b) ≤ max_request_size
      → phr_parse_request (join buffer before ++ c ∷ b) (length (join buffer before)) ≡ parsed n a
      → read_loop phr_parse_request
          (reads before (received (c ∷ b) ∷ rest))
          errno
          buffer
          (length buffer)
          retries
        ≡ finished n a (join buffer before ++ c ∷ b)
  read_loop_complete [] buffer c b rest errno retries n a f pending le e =
      rw (one_read rest buffer c b errno retries f le, e) refl
  read_loop_complete ([] ∷ before) buffer c b rest errno retries n a f (ne, inc, pending) le e =
      absurd (ne refl)
  read_loop_complete ((d ∷ x) ∷ before) buffer c b rest errno retries n a f (ne, inc, pending) le
        e =
      let l1 = length-join (buffer ++ d ∷ x) before in
      let l2 = length-append (join (buffer ++ d ∷ x) before) (c ∷ b) in
      rw
        (
          one_read (reads before (received (c ∷ b) ∷ rest)) buffer d x errno retries f
              (omega arith),
          inc,
        )
        (read_loop_complete before (buffer ++ d ∷ x) c b rest errno retries n a f pending le e)

  retry_lost :
      (k : ℕ) (on : Outcome A) (n : ℕ) (a : A) (whole : Bytes)
      → on ≢ finished n a whole
      → retry k on ≢ finished n a whole
  retry_lost k on n a whole h = elim (Bool-cases (leb 5 k)) [
    | inl e ↦ rw (e) λ j. cc
    | inr e ↦ rw (e) h
  ]

  -- After one EAGAIN nothing more is parsed, whatever arrives later, unless a call of read is
  -- interrupted.
  pub read_loop_lost :
      (rs : List ReadResult) (buffer : Bytes) (request_size retries n : ℕ) (a : A) (whole : Bytes)
      → All (λ r. ¬ IsInterrupt r) rs
      → read_loop phr_parse_request rs (some again) buffer request_size retries ≢ finished n a whole
  unfolding read_loop
  read_loop_lost [] buffer request_size retries n a whole t = λ k. cc
  read_loop_lost (failed interrupted ∷ rs) buffer request_size retries n a whole (ne, t) =
      absurd (ne refl)
  read_loop_lost (failed other ∷ rs) buffer request_size retries n a whole t = λ k. cc
  read_loop_lost (failed again ∷ rs) buffer request_size retries n a whole (ne, t) =
      retry_lost (suc retries) _ n a whole
        (read_loop_lost rs buffer request_size (suc retries) n a whole t)
  read_loop_lost (received bytes ∷ rs) buffer request_size retries n a whole (ne, t) =
      elim (Bool-cases (ltb max_request_size (length buffer + length bytes))) [
        | inl e ↦ rw (e) λ k. cc
        | inr e ↦ rw (e) (
            retry_lost (suc retries) _ n a whole
              (read_loop_lost rs buffer request_size (suc retries) n a whole t))
      ]
