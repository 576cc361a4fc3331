-- ===== src/WholeFile/Joined.antt =====
-- A file that is read without an error is returned as a whole, if the counters start at 0.
use mathlib.Core.List.{append_assoc, append-nil}
use pronto.Prelude.{
  ℕ, ◌+◌, ◌^◌, ◌≤◌, ◌<◌, ◌≡◌, refl, ap, ◌∙◌, some, List, [], ◌∷◌, ◌++◌, length, drop, replicate,
  All, length-append, Bool-cases, inl, inr, arith,
}
use pronto.Word.{u32, le_int}
use pronto.Bytes.{Bytes}
use pronto.Response.Buffer.{◌>>=◌, text, IsText, length-write}
use pronto.Request.Headers.{text-append}
use pronto.Response.Zeroed.{length-zeros}
use pronto.WholeFile.{
  FileRead, stored, FileState, counted, appended, read_round, read_rounds, read_whole_file,
}
use pronto.WholeFile.Rounds.{Holds, write_front, counted-Holds, appended-Holds}

abbrev pub IsChunk : Bytes → Type 0
IsChunk c = IsText c × (1 ≤ length c) × (length c ≤ 4096)

abbrev pub concat : List Bytes → Bytes
concat [] = []
concat (c ∷ cs) = c ++ concat cs

-- A call of read for each chunk, and one that finds the end.
abbrev pub reads : List Bytes → List FileRead
reads [] = stored [] ∷ []
reads (c ∷ cs) = stored c ∷ reads cs

module _ (fresh : ℕ → ℕ) where
  counted-buffer : (n : ℕ) (st : FileState) → (counted fresh n st).buffer ≡ st.buffer
  counted-buffer n st = elim (Bool-cases (le_int 8092 (u32 (st.current_bufferized_bytes + n)))) [
    | inl e ↦ rw (e) refl
    | inr e ↦ rw (e) refl
  ]

  -- Before the loop.
  empty : Holds [] 0 (record {
    string = replicate 8092 0;
    buffer = replicate 4096 0;
    total_bytes_read = 0;
    current_bufferized_bytes = 0;
  })
  empty = record {
    junk = replicate 8091 0;
    string = refl;
    is_text = tt;
    total = refl;
    few = omega arith;
    room = omega (arith, length-zeros 8092);
    buffer = length-zeros 4096;
  }

  round-Holds :
      (a c : Bytes) (st : FileState)
      → Holds a 0 st
      → IsChunk c
      → length a + length c + 8092 < 2 ^ 31
      → (t : FileState) × (read_round fresh st c ≡ some t) × Holds (a ++ c) 0 t
  round-Holds a c st h (text_c, some_bytes, little) small =
      let wrote = write_front c st.buffer (omega (arith, little, h.buffer)) in
      let same_size = length-write c st.buffer _ wrote in
      let now : Holds a 0 (record st { buffer = c ++ drop (length c) st.buffer }) = record {
        junk = h.junk;
        string = h.string;
        is_text = h.is_text;
        total = h.total;
        few = h.few;
        room = h.room;
        buffer = same_size ∙ h.buffer;
      } in
      let counts = counted-Holds fresh a (length c) _ now small little in
      let (t, e, holds) =
        appended-Holds a c (drop (length c) st.buffer) _ counts text_c
          (counted-buffer (length c) (record st { buffer = c ++ drop (length c) st.buffer })) in
      (
        t,
        ap
              (λ o. o >>= λ b.
                appended (counted fresh (length c) (record st { buffer = b })) (length c))
              wrote
            ∙ e,
        holds,
      )

  rounds-Holds :
      (cs : List Bytes) (a : Bytes) (st : FileState)
      → Holds a 0 st
      → All IsChunk cs
      → length a + length (concat cs) + 8092 < 2 ^ 31
      → (t : FileState) × (read_rounds fresh st (reads cs) ≡ some t) × Holds (a ++ concat cs) 0 t
  unfolding read_rounds
  rounds-Holds [] a st h chunks small = (st, refl, rw (append-nil a) h)
  rounds-Holds ([] ∷ cs) a st h ((text_c, some_bytes, little), chunks) small =
      absurd (omega (arith, some_bytes))
  rounds-Holds ((x ∷ c) ∷ cs) a st h (chunk, chunks) small =
      let total = length-append (x ∷ c) (concat cs) in
      let (t, e, holds) = round-Holds a (x ∷ c) st h chunk (omega (arith, small, total)) in
      let (u, f, last) =
        rounds-Holds cs (a ++ x ∷ c) t holds chunks
          (omega (arith, small, total, length-append a (x ∷ c))) in
      (
        u,
        ap (λ o. o >>= λ t. read_rounds fresh t (reads cs)) e ∙ f,
        rw (← append_assoc a (x ∷ c) (concat cs)) last,
      )

  -- If the two counters happen to start at 0 and no call of read fails: a text that comes in parts of at
  -- most 4096 bytes, and whose size with another 8092 bytes fits an `int`, is returned as a whole.
  pub read_whole_file-concat :
      (cs : List Bytes)
      → All IsChunk cs
      → length (concat cs) + 8092 < 2 ^ 31
      → read_whole_file fresh 0 0 (reads cs) ≡ some (concat cs)
  unfolding read_whole_file text
  read_whole_file-concat cs chunks small =
      let (t, e, h) = rounds-Holds cs [] _ empty chunks (omega (arith, small)) in
      ap (λ o. o >>= λ st. some (text st.string)) e
      ∙ ap some (
          ap text h.string
          ∙ text-append (concat cs) (0 ∷ h.junk) h.is_text
          ∙ append-nil (concat cs))
