-- ===== src/Sending.antt =====
-- The branch of handler_process_request (srv/lib/handler.c) that sends a response, on what the calls of
-- send return; the failures of epoll_ctl are only logged there.
use mathlib.Core.List.{append_assoc, append-nil}
use pronto.Prelude.{
  ℕ, zero, suc, ◌+◌, ◌≤◌, ◌<◌, ◌≡◌, refl, ap, sym, ◌∙◌, List, [], ◌∷◌, ◌++◌, leb, ltb, take, drop,
  length, arith, Bool-cases, inl, inr, if◌then◌else◌,
}
use pronto.Bytes.{Bytes}
use pronto.Response.{HttpResponse}

-- `written_bytes`, or -1 with EAGAIN or with another errno.
pub data SendResult : Type 0 where
  written : (bytes : ℕ) → SendResult
  unavailable : SendResult
  send_failed : SendResult

-- The response waits for a further EPOLLOUT, or it is done: the socket is closed after `total` bytes;
-- or send has read up to offset `reached`, past the end of the block.
pub data Progress : Type 0 where
  streaming : HttpResponse → Progress
  closed : (total : ℕ) → Progress
  overread : (reached : ℕ) → Progress

abbrev pub advance : HttpResponse → ℕ → HttpResponse
advance r n = record r { stream_ptr = r.stream_ptr + n }

-- What went out, in the order of the events, and where the response is then.
unfoldable pub send_loop : HttpResponse → List SendResult → Bytes × Progress
send_loop r [] = ([], streaming r)
send_loop r (unavailable ∷ results) = send_loop r results
send_loop r (send_failed ∷ results) = send_loop r results
send_loop r (written n ∷ results) =
    let chunk = take n (drop r.stream_ptr r.stringified) in
    let rest = send_loop (advance r n) results in
    let inside =
      if leb r.full_length (r.stream_ptr + n)
      then (chunk, closed (r.stream_ptr + n))
      else (chunk ++ rest.0, rest.1) in
    if ltb (length r.stringified) (r.stream_ptr + n)
    then (chunk, overread (r.stream_ptr + n))
    else inside

take_nil : (n : ℕ) → take {A = ℕ} n [] ≡ []
take_nil zero = refl
take_nil (suc n) = refl

-- The bytes between two offsets.
pub take-plus : (m n : ℕ) (xs : Bytes) → take (m + n) xs ≡ take m xs ++ take n (drop m xs)
take-plus zero n xs = ap (λ k. take k xs) (omega arith)
take-plus (suc m) n [] = take_nil (suc m + n) ∙ sym (take_nil n)
take-plus (suc m) n (x ∷ xs) =
    let e : suc m + n ≡ suc (m + n) = omega arith in
    ap (λ k. take k (x ∷ xs)) e ∙ ap (λ l. x ∷ l) (take-plus m n xs)

-- `sent` is what the offset has gone over.
abbrev pub IsSent : HttpResponse → Bytes × Progress → Type 0
IsSent r (sent, streaming t) =
    (take r.stream_ptr r.stringified ++ sent ≡ take t.stream_ptr r.stringified)
    × (t.stream_ptr < r.full_length)
    × (t.stringified ≡ r.stringified)
IsSent r (sent, closed total) =
    (take r.stream_ptr r.stringified ++ sent ≡ take total r.stringified) × (r.full_length ≤ total)
IsSent r (sent, overread reached) =
    (take r.stream_ptr r.stringified ++ sent ≡ take reached r.stringified)
    × (length r.stringified < reached)

pub sent_after :
    (r : HttpResponse) (n : ℕ) (sent : Bytes)
    → take r.stream_ptr r.stringified ++ (take n (drop r.stream_ptr r.stringified) ++ sent)
      ≡ take (r.stream_ptr + n) r.stringified ++ sent
sent_after r n sent =
    sym (append_assoc (take r.stream_ptr r.stringified) _ sent)
    ∙ ap (λ l. l ++ sent) (sym (take-plus r.stream_ptr n r.stringified))

IsSent-advance :
    (r : HttpResponse) (n : ℕ) (rest : Bytes × Progress)
    → IsSent (advance r n) rest
    → IsSent r (take n (drop r.stream_ptr r.stringified) ++ rest.0, rest.1)
IsSent-advance r n (sent, streaming t) (e, lt, same) = (sent_after r n sent ∙ e, lt, same)
IsSent-advance r n (sent, closed total) (e, le) = (sent_after r n sent ∙ e, le)
IsSent-advance r n (sent, overread reached) (e, lt) = (sent_after r n sent ∙ e, lt)

-- From a response that is not sent completely, whatever the calls of send return: what went out of the
-- block continues, without a gap and in order, what had gone out before; the socket is closed only after
-- all of full_length has; as long as it is open something is left to be sent; and an overread is one
-- past the end of the block.
pub send_loop_lem :
    (results : List SendResult) (r : HttpResponse)
    → r.stream_ptr < r.full_length
    → IsSent r (send_loop r results)
unfolding send_loop
send_loop_lem [] r lt = (append-nil (take r.stream_ptr r.stringified), lt, refl)
send_loop_lem (unavailable ∷ results) r lt = send_loop_lem results r lt
send_loop_lem (send_failed ∷ results) r lt = send_loop_lem results r lt
send_loop_lem (written n ∷ results) r lt =
    elim (Bool-cases (ltb (length r.stringified) (r.stream_ptr + n))) [
      | inl o ↦ rw (o) (sym (take-plus r.stream_ptr n r.stringified), ground arith)
      | inr o ↦ elim (Bool-cases (leb r.full_length (r.stream_ptr + n))) [
        | inl e ↦ rw (o, e) (sym (take-plus r.stream_ptr n r.stringified), ground arith)
        | inr e ↦
            rw (o, e)
              (IsSent-advance r n (send_loop (advance r n) results)
                (send_loop_lem results (advance r n) (ground arith)))
      ]
    ]
