-- ===== src/Context.antt =====
-- The buffer of a connection (srv/lib/connection_context.c); its only calls are commented out.
pub mod Blocks
pub mod Writes
use pronto.Prelude.{
  ℕ, zero, suc, ◌+◌, ◌*◌, Option, none, some, List, [], ◌∷◌, ltb, length, replicate, if◌then◌else◌,
}
use pronto.Word.{u32, le_int, ulong_of_int}
use pronto.Bytes.{Bytes}
use pronto.Response.Buffer.{prepend, write}

-- connection_context; `block` is what `data` points to.
pub record ConnectionContext : Type 0 where
  pub length : ℕ
  pub block : Bytes
  pub allocations : ℕ
  pub buf_size : ℕ
  pub fd : ℕ

-- context_init: `fd` is left as it was.
unfoldable pub context_init : ConnectionContext → ℕ → ConnectionContext
context_init context request_size = record context {
  length = 0;
  block = replicate request_size 0;
  allocations = 1;
  buf_size = u32 request_size;
}

-- A memcpy to an offset of a block.
unfoldable pub write_at : ℕ → Bytes → Bytes → Option Bytes
write_at zero bytes block = write bytes block
write_at (suc n) bytes [] = none
write_at (suc n) bytes (c ∷ block) = prepend c (write_at n bytes block)

-- realloc to `n` bytes; `fresh` is what memory holds in new bytes.
unfoldable pub resize : ℕ → (ℕ → ℕ) → Bytes → Bytes
resize zero fresh block = []
resize (suc n) fresh [] = fresh n ∷ resize n fresh []
resize (suc n) fresh (c ∷ block) = c ∷ resize n fresh block

-- `overrun` is a write past the end of the block, `exited` is exit(-1).
pub data Written : Type 0 where
  wrote : ConnectionContext → Written
  exited : Written
  overrun : Written

-- From the sum on.
unfoldable pub grow : (ℕ → ℕ) → ConnectionContext → Written
unfolding resize
grow fresh context =
    if le_int (u32 (context.allocations * context.buf_size)) context.length
    then wrote (record context {
      block = resize (ulong_of_int (u32 (context.length + context.buf_size))) fresh context.block;
      allocations = u32 (context.allocations + 1);
    })
    else wrote context

abbrev pub copied_in : (ℕ → ℕ) → ConnectionContext → ℕ → Option Bytes → Written
copied_in fresh context received none = overrun
copied_in fresh context received (some after) =
    grow fresh (record context { block = after; length = u32 (context.length + received) })

-- context_write of `data`, received_bytes long.
unfoldable pub context_write : (ℕ → ℕ) → ConnectionContext → Bytes → Written
unfolding write_at grow
context_write fresh context bytes =
    if ltb (ulong_of_int context.buf_size) (length bytes)
    then exited
    else copied_in fresh context (length bytes)
        (write_at (ulong_of_int context.length) bytes context.block)
