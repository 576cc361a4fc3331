-- ===== src/WholeFile/Rounds.antt =====
-- What one round of the loop of read_whole_file does to the block.
use mathlib.Core.List.{append_assoc}
use pronto.Prelude.{
  ℕ, zero, suc, ◌+◌, ◌^◌, ◌≤◌, ◌<◌, ◌≡◌, refl, sym, ap, ◌∙◌, some, [], ◌∷◌, ◌++◌, leb, length, take,
  drop, length-append, inl, inr, ==_false, arith,
}
use pronto.Word.{u32, le_int, ulong_of_int}
use pronto.Word.Small.{u32_small, ulong_small, le_int_small, leb-cases}
use pronto.Bytes.{Bytes}
use pronto.Response.Buffer.{◌>>=◌, prepend, strncat, text, write, IsText, length-strncat}
use pronto.Response.Create.{All-append}
use pronto.Request.Headers.{text-append}
use pronto.Context.{resize}
use pronto.Context.Blocks.{length-resize}
use pronto.WholeFile.{FileState, counted, appended}

write_end :
    (t junk : Bytes) (x : ℕ)
    → length t ≤ length junk
    → write (t ++ 0 ∷ []) (x ∷ junk) ≡ some (t ++ 0 ∷ drop (length t) junk)
write_end [] junk x h = refl
write_end (c ∷ t) [] x h = absurd (omega (arith, h))
write_end (c ∷ t) (y ∷ junk) x h = ap (prepend c) (write_end t junk y (omega (arith, h)))

-- strncat on a block with a text, its terminator, and anything behind.
strncat_end :
    (a s junk : Bytes) (n : ℕ)
    → IsText a
    → length (take n s) ≤ length junk
    → strncat (a ++ 0 ∷ junk) s n ≡ some (a ++ (take n s ++ 0 ∷ drop (length (take n s)) junk))
unfolding strncat
strncat_end [] s junk n t h = write_end (take n s) junk 0 h
strncat_end (c ∷ a) s junk n (ne, t) h =
    rw (==_false ne) (ap (prepend c) (strncat_end a s junk n t h))

pub write_front :
    (bytes block : Bytes)
    → length bytes ≤ length block
    → write bytes block ≡ some (bytes ++ drop (length bytes) block)
write_front [] block h = refl
write_front (x ∷ bytes) [] h = absurd (omega (arith, h))
write_front (x ∷ bytes) (c ∷ block) h = ap (prepend x) (write_front bytes block (omega (arith, h)))

take_front : (a r : Bytes) → take (length a) (a ++ r) ≡ a
take_front [] r = refl
take_front (x ∷ a) r = ap (λ l. x ∷ l) (take_front a r)

resize_front :
    (a r : Bytes) (n m : ℕ) (fresh : ℕ → ℕ)
    → n ≡ length a + m
    → resize n fresh (a ++ r) ≡ a ++ resize m fresh r
unfolding resize
resize_front [] r n m fresh h = ap (λ k. resize k fresh r) (omega (arith, h))
resize_front (x ∷ a) r zero m fresh h = absurd (omega (arith, h))
resize_front (x ∷ a) r (suc n) m fresh h =
    ap (λ l. x ∷ l) (resize_front a r n m fresh (omega (arith, h)))

-- The state after the text `a` has been read, with `n` more bytes counted.
pub record Holds (a : Bytes) (n : ℕ) (st : FileState) : Type 0 where
  pub junk : Bytes
  pub string : st.string ≡ a ++ 0 ∷ junk
  pub is_text : IsText a
  pub total : st.total_bytes_read ≡ length a + n
  pub few : st.current_bufferized_bytes < 8092
  pub room : length a + n + 8092 ≤ length st.string + st.current_bufferized_bytes
  pub buffer : length st.buffer ≡ 4096

module _ (fresh : ℕ → ℕ) (a : Bytes) (n : ℕ) (st : FileState) (holds : Holds a 0 st)
    (small : length a + n + 8092 < 2 ^ 31) (little : n ≤ 4096) where
  total_sum : u32 (st.total_bytes_read + n) ≡ length a + n
  total_sum = ap (λ k. u32 (k + n)) holds.total ∙ u32_small _ (omega (arith, small)) ∙ omega arith

  current_sum : u32 (st.current_bufferized_bytes + n) ≡ st.current_bufferized_bytes + n
  current_sum = u32_small _ (omega (arith, holds.few, little))

  test :
      le_int 8092 (u32 (st.current_bufferized_bytes + n))
      ≡ leb 8092 (st.current_bufferized_bytes + n)
  test =
      ap (le_int 8092) current_sum
      ∙ le_int_small 8092 _ (omega arith) (omega (arith, holds.few, little))

  new_size : ulong_of_int (u32 (u32 (st.total_bytes_read + n) + 8092)) ≡ length a + n + 8092
  new_size =
      ap (λ k. ulong_of_int (u32 (k + 8092))) total_sum
      ∙ ap ulong_of_int (u32_small _ small)
      ∙ ulong_small _ small

  string_length : length st.string ≡ length a + 1 + length holds.junk
  string_length = ap length holds.string ∙ omega (arith, length-append a (0 ∷ holds.junk))

  larger :
      resize (length a + n + 8092) fresh st.string ≡ a ++ 0 ∷ resize (n + 8091) fresh holds.junk
  unfolding resize
  larger =
      ap (resize (length a + n + 8092) fresh) holds.string
      ∙ resize_front a (0 ∷ holds.junk) (length a + n + 8092) (suc (n + 8091)) fresh (omega arith)

  grown : Holds a n (record st {
    string = resize (length a + n + 8092) fresh st.string;
    total_bytes_read = length a + n;
    current_bufferized_bytes = 0;
  })
  grown = record {
    junk = resize (n + 8091) fresh holds.junk;
    string = larger;
    is_text = holds.is_text;
    total = refl;
    few = omega arith;
    room = omega (arith, length-resize (length a + n + 8092) fresh st.string);
    buffer = holds.buffer;
  }

  kept :
      st.current_bufferized_bytes + n < 8092
      → Holds a n (record st {
        total_bytes_read = length a + n;
        current_bufferized_bytes = st.current_bufferized_bytes + n;
      })
  kept h = record {
    junk = holds.junk;
    string = holds.string;
    is_text = holds.is_text;
    total = refl;
    few = h;
    room = omega (arith, holds.room);
    buffer = holds.buffer;
  }

  pub counted-Holds : Holds a n (counted fresh n st)
  counted-Holds = elim (leb-cases 8092 (st.current_bufferized_bytes + n)) [
    | inl (e, h) ↦ rw (test, e, new_size, total_sum) grown
    | inr (e, h) ↦ rw (test, e, total_sum, current_sum) (kept h)
  ]

-- The bytes that are counted are added.
pub appended-Holds :
    (a c r : Bytes) (st : FileState)
    → Holds a (length c) st
    → IsText c
    → st.buffer ≡ c ++ r
    → (t : FileState) × (appended st (length c) ≡ some t) × Holds (a ++ c) 0 t
appended-Holds a c r st h text_c front =
    let added : take (length c) (text st.buffer) ≡ c =
      ap (λ b. take (length c) (text b)) front
      ∙ ap (take (length c)) (text-append c r text_c)
      ∙ take_front c (text r) in
    let size : length st.string ≡ length a + suc (length h.junk) =
      ap length h.string ∙ length-append a (0 ∷ h.junk) in
    let fits : length (take (length c) (text st.buffer)) ≤ length h.junk =
      omega (arith, ap length added, size, h.room, h.few) in
    let cat : strncat st.string (text st.buffer) (length c)
        ≡ some (a ++ (c ++ 0 ∷ drop (length c) h.junk)) =
      ap (λ s. strncat s (text st.buffer) (length c)) h.string
      ∙ strncat_end a (text st.buffer) h.junk (length c) h.is_text fits
      ∙ ap (λ l. some (a ++ (l ++ 0 ∷ drop (length l) h.junk))) added in
    let same_size = length-strncat st.string (text st.buffer) (length c) _ cat in
    (
      record st { string = a ++ (c ++ 0 ∷ drop (length c) h.junk) },
      ap (λ o. o >>= λ s. some (record st { string = s })) cat,
      record {
        junk = drop (length c) h.junk;
        string = sym (append_assoc a c _);
        is_text = All-append a c h.is_text text_c;
        total = omega (arith, h.total, length-append a c);
        few = h.few;
        room = omega (arith, h.room, same_size, length-append a c);
        buffer = h.buffer;
      },
    )
