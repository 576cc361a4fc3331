-- ===== src/WholeFile.antt =====
-- read_whole_file of srv/lib/utils.c, on what the calls of read return; no code calls it. `none` is an
-- access past the end of a block.
pub mod Rounds
pub mod Joined
use pronto.Prelude.{
  ℕ, ◌+◌, Option, none, some, List, [], ◌∷◌, length, replicate, ◌==◌, if◌then◌else◌,
}
use pronto.Word.{u32, minus_one, le_int, ulong_of_int}
use pronto.Bytes.{Bytes}
use pronto.Response.Buffer.{◌>>=◌, strncat, text, write}
use pronto.Context.{resize}

-- The bytes that a call of read stored (none at the end of the file), or -1.
pub data FileRead : Type 0 where
  stored : (bytes : Bytes) → FileRead
  failed : FileRead

-- The blocks, and the two counters, which nothing sets before the loop.
pub record FileState : Type 0 where
  pub string : Bytes
  pub buffer : Bytes
  pub total_bytes_read : ℕ
  pub current_bufferized_bytes : ℕ

-- Both counters go on by `result`, and realloc is called if the second is large.
abbrev pub counted : (ℕ → ℕ) → ℕ → FileState → FileState
counted fresh result st =
    let total = u32 (st.total_bytes_read + result) in
    let current = u32 (st.current_bufferized_bytes + result) in
    if le_int 8092 current
    then record st {
      string = resize (ulong_of_int (u32 (total + 8092))) fresh st.string;
      total_bytes_read = total;
      current_bufferized_bytes = 0;
    }
    else record st { total_bytes_read = total; current_bufferized_bytes = current }

-- strncat of at most `n` bytes of the text in the buffer.
abbrev pub appended : FileState → ℕ → Option FileState
appended st n = strncat st.string (text st.buffer) n >>= λ s. some (record st { string = s })

-- One round of the loop.
abbrev pub read_round : (ℕ → ℕ) → FileState → Bytes → Option FileState
read_round fresh st bytes = write bytes st.buffer >>= λ b.
    appended (counted fresh (length bytes) (record st { buffer = b })) (length bytes)

-- A round after -1: the bound of strncat is SIZE_MAX, so all of the old text is added, and strncat reads
-- on behind a buffer without a terminator.
abbrev pub add_old : (ℕ → ℕ) → FileState → Option FileState
add_old fresh st =
    if length (text st.buffer) == length st.buffer
    then none
    else appended (counted fresh minus_one st) (length st.buffer)

unfoldable pub read_rounds : (ℕ → ℕ) → FileState → List FileRead → Option FileState
read_rounds fresh st [] = some st
read_rounds fresh st (stored [] ∷ reads) = some st
read_rounds fresh st (stored (c ∷ bytes) ∷ reads) =
    read_round fresh st (c ∷ bytes) >>= λ t. read_rounds fresh t reads
read_rounds fresh st (failed ∷ reads) = add_old fresh st >>= λ t. read_rounds fresh t reads

-- What is returned: the string in the block.
unfoldable pub read_whole_file : (ℕ → ℕ) → ℕ → ℕ → List FileRead → Option Bytes
unfolding read_rounds
read_whole_file fresh total current reads =
    read_rounds fresh
      (record {
        string = replicate 8092 0;
        buffer = replicate 4096 0;
        total_bytes_read = total;
        current_bufferized_bytes = current;
      })
      reads
    >>= λ st. some (text st.string)
