-- ===== src/Serving/Continues.antt =====
-- What goes out of a response.
use mathlib.Core.List.{append-nil}
use pronto.Prelude.{
  ℕ, zero, suc, ◌+◌, ◌≤◌, ◌≡◌, refl, sym, ap, subst, ◌∙◌, [], ◌∷◌, ◌++◌, ltb, ltb→le, leb, length,
  take, drop, length-append, arith, Bool-cases, inl, inr,
}
use pronto.Bytes.{Bytes}
use pronto.Cluster.{Pronto}
use pronto.Response.{HttpResponse}
use pronto.Sending.{SendResult, written, unavailable, send_failed, advance, send_loop, sent_after}
use pronto.Serving.{End, answered, fault, Step, Watched, for_response, after_output, and_then}

-- The connection ends as an answered one only after all of the response.
abbrev pub IsFull : HttpResponse → ℕ → End → Type 0
IsFull r sent (answered fd) = r.full_length ≤ sent
IsFull r sent end = Unit

-- What goes out from `r` on continues the text without a gap.
abbrev pub Continues : HttpResponse → Step → Type 0
Continues r (bytes, (p, end)) =
    (take r.stream_ptr r.stringified ++ bytes ≡ take (r.stream_ptr + length bytes) r.stringified)
    × IsFull r (r.stream_ptr + length bytes) end

-- Nothing goes out.
pub Continues-none :
    (r : HttpResponse) (p : Pronto) (end : End)
    → IsFull r (r.stream_ptr + 0) end
    → Continues r ([], (p, end))
Continues-none r p end full = (
  append-nil (take r.stream_ptr r.stringified) ∙ ap (λ n. take n r.stringified) (omega arith),
  full,
)

take_exact : (n : ℕ) (xs : Bytes) → take n xs ≡ take (length (take n xs)) xs
take_exact zero xs = refl
take_exact (suc n) [] = refl
take_exact (suc n) (x ∷ xs) = ap (λ l. x ∷ l) (take_exact n xs)

abbrev chunk : HttpResponse → ℕ → Bytes
chunk r n = take n (drop r.stream_ptr r.stringified)

take-chunk :
    (s n k : ℕ) (xs : Bytes)
    → k ≡ s + length (take n (drop s xs))
    → take s xs ++ take n (drop s xs) ≡ take k xs
take-chunk zero n k xs h = take_exact n xs ∙ ap (λ m. take m xs) (omega (arith, h))
take-chunk (suc s) n zero xs h = absurd (omega (arith, h))
take-chunk (suc s) zero (suc k) [] h = refl
take-chunk (suc s) (suc n) (suc k) [] h = refl
take-chunk (suc s) n (suc k) (x ∷ xs) h = ap (λ l. x ∷ l) (take-chunk s n k xs (omega (arith, h)))

length-chunk : (s n : ℕ) (xs : Bytes) → s + n ≤ length xs → length (take n (drop s xs)) ≡ n
length-chunk zero zero xs h = refl
length-chunk zero (suc n) [] h = absurd (omega (arith, h))
length-chunk zero (suc n) (x ∷ xs) h = ap suc (length-chunk zero n xs (omega (arith, h)))
length-chunk (suc s) zero [] h = refl
length-chunk (suc s) (suc n) [] h = absurd (omega (arith, h))
length-chunk (suc s) n (x ∷ xs) h = length-chunk s n xs (omega (arith, h))

-- A last chunk, of at most `n` bytes.
Continues-last :
    (r : HttpResponse) (n : ℕ) (p : Pronto) (end : End)
    → IsFull r (r.stream_ptr + length (chunk r n)) end
    → Continues r (chunk r n, (p, end))
Continues-last r n p end full = (take-chunk r.stream_ptr n _ r.stringified refl, full)

-- A chunk, and what goes out after it.
Continues-chunk :
    (r : HttpResponse) (n : ℕ) (rest : Step)
    → r.stream_ptr + n ≤ length r.stringified
    → Continues (advance r n) rest
    → Continues r (chunk r n ++ rest.0, rest.1)
Continues-chunk r n (bytes, (p, end)) h (c, full) =
    let size : length (chunk r n ++ bytes) ≡ n + length bytes =
      omega (arith, length-append (chunk r n) bytes, length-chunk r.stream_ptr n r.stringified h) in
    let count : r.stream_ptr + n + length bytes ≡ r.stream_ptr + length (chunk r n ++ bytes) =
      omega (arith, size) in
    (
      sent_after r n bytes ∙ c ∙ ap (λ k. take k r.stringified) count,
      subst (λ k. IsFull r k end) count full,
    )

-- One EPOLLOUT event, if what follows continues.
module _ (p : Pronto) (fd address : ℕ) (k : Pronto → Watched → Step)
    (on : (r : HttpResponse) → Continues r (k p (for_response fd address r))) where
  written-Continues :
      (r : HttpResponse) (n : ℕ)
      → Continues r (and_then (after_output p fd address (send_loop r (written n ∷ []))) k)
  unfolding send_loop
  written-Continues r n = elim (Bool-cases (ltb (length r.stringified) (r.stream_ptr + n))) [
    | inl o ↦ rw (o) (Continues-last r n p fault tt)
    | inr o ↦
        let inside : r.stream_ptr + n ≤ length r.stringified = ltb→le _ _ o in
        elim (Bool-cases (leb r.full_length (r.stream_ptr + n))) [
          | inl e ↦
              rw (o, e)
                (Continues-last r n p (answered fd)
                  (ground (arith, e, length-chunk r.stream_ptr n r.stringified inside)))
          | inr e ↦
              rw (o, e, append-nil (chunk r n))
                (Continues-chunk r n (k p (for_response fd address (advance r n))) inside
                  (on (advance r n)))
        ]
  ]

  pub output-Continues :
      (r : HttpResponse) (x : SendResult)
      → Continues r (and_then (after_output p fd address (send_loop r (x ∷ []))) k)
  unfolding send_loop
  output-Continues r unavailable = on r
  output-Continues r send_failed = on r
  output-Continues r (written n) = written-Continues r n

pub from_start :
    (r : HttpResponse) (bytes : Bytes) (p : Pronto) (end : End)
    → r.stream_ptr ≡ 0
    → Continues r (bytes, (p, end))
    → (bytes ≡ take (length bytes) r.stringified) × IsFull r (length bytes) end
from_start r bytes p end z (c, full) =
    let count : r.stream_ptr + length bytes ≡ length bytes = omega (arith, z) in
    (
      sym (ap (λ k. take k r.stringified ++ bytes) z) ∙ c ∙ ap (λ k. take k r.stringified) count,
      subst (λ k. IsFull r k end) count full,
    )
