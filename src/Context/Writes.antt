-- ===== src/Context/Writes.antt =====
-- What a write does to a buffer that is as large as its fields say.
use native.Mathlib.Decide.{dec_lt}
use pronto.Prelude.{
  ℕ, zero, suc, ◌+◌, ◌*◌, ◌^◌, ◌≤◌, ◌<◌, ◌≡◌, ◌⊎◌, refl, sym, ap, ◌∙◌, true, some, ◌++◌, leb,
  lt→ltb, le→ltb, inl, inr, length, take, replicate, arith,
}
use pronto.Word.{u32, le_int, ulong_of_int}
use pronto.Word.Small.{u32_small, ulong_small, le_int_small, leb-cases}
use pronto.Bytes.{Bytes}
use pronto.Context.Blocks.{write_at_fits, write_at_overrun, length-resize, take-resize}
use pronto.Context.{
  ConnectionContext, context_init, write_at, resize, wrote, exited, overrun, grow, context_write,
}

-- All of the block is `allocations` times `buf_size` bytes, and it is not full.
pub record IsWhole (c : ConnectionContext) : Type 0 where
  pub size : length c.block ≡ c.allocations * c.buf_size
  pub not_full : c.length < length c.block

-- What the buffer holds.
abbrev pub received : ConnectionContext → Bytes
received c = take c.length c.block

-- What a write does that stays in the block.
abbrev pub Stored : (ℕ → ℕ) → ConnectionContext → Bytes → Type 0
Stored fresh c bytes =
    (d : ConnectionContext) × (context_write fresh c bytes ≡ wrote d)
    × IsWhole d
    × (received d ≡ received c ++ bytes)
    × (d.buf_size ≡ c.buf_size)

le_times : (a b : ℕ) → 1 ≤ b → a ≤ a * b
le_times a zero h = absurd (omega (arith, h))
le_times a (suc b) h = omega arith

module _ (fresh : ℕ → ℕ) (c : ConnectionContext)
    (size : length c.block ≡ c.allocations * c.buf_size) (pos : 1 ≤ c.buf_size)
    (fits : c.allocations * c.buf_size + c.buf_size < 2 ^ 31) where
  -- The test of `grow`, on small numbers.
  grow-test :
      c.length ≤ length c.block
      → le_int (u32 (c.allocations * c.buf_size)) c.length ≡ leb (length c.block) c.length
  grow-test le =
      ap (λ n. le_int n c.length) (u32_small _ (omega (arith, fits)) ∙ sym size)
      ∙ le_int_small (length c.block) c.length (omega (arith, fits, size))
          (omega (arith, fits, size, le))

  -- A full block gets another buf_size bytes.
  grown :
      c.length ≡ length c.block
      → (d : ConnectionContext) × (grow fresh c ≡ wrote d)
        × IsWhole d
        × (received d ≡ received c)
        × (d.buf_size ≡ c.buf_size)
  unfolding grow
  grown full =
      let new_size : ulong_of_int (u32 (c.length + c.buf_size)) ≡ c.length + c.buf_size =
        ap ulong_of_int (u32_small _ (omega (arith, full, size, fits)))
        ∙ ulong_small _ (omega (arith, full, size, fits)) in
      let count : u32 (c.allocations + 1) ≡ c.allocations + 1 =
        u32_small _ (omega (arith, fits, le_times c.allocations c.buf_size pos)) in
      let test : leb (length c.block) c.length ≡ true = ground (arith, full) in
      (
        record c {
          block = resize (c.length + c.buf_size) fresh c.block;
          allocations = c.allocations + 1;
        },
        rw (grow-test (omega (arith, full)), test, new_size, count) refl,
        record {
          size = length-resize (c.length + c.buf_size) fresh c.block ∙ omega (arith, full, size);
          not_full = omega (arith, length-resize (c.length + c.buf_size) fresh c.block, pos);
        },
        take-resize c.length (c.length + c.buf_size) fresh c.block (omega (arith, full))
            (omega arith),
        refl,
      )

  grow-keeps :
      c.length ≤ length c.block
      → (d : ConnectionContext) × (grow fresh c ≡ wrote d)
        × IsWhole d
        × (received d ≡ received c)
        × (d.buf_size ≡ c.buf_size)
  unfolding grow
  grow-keeps le = elim (leb-cases (length c.block) c.length) [
    | inl (e, h) ↦ grown (omega (arith, h, le))
    | inr (e, h) ↦ (c, rw (grow-test le, e) refl, record { size = size; not_full = h }, refl, refl)
  ]

module _ (fresh : ℕ → ℕ) (c : ConnectionContext) (bytes : Bytes) (whole : IsWhole c)
    (pos : 1 ≤ c.buf_size) (fits : c.allocations * c.buf_size + c.buf_size < 2 ^ 31) where
  small_size : ulong_of_int c.buf_size ≡ c.buf_size
  small_size = ulong_small c.buf_size (omega (arith, fits))

  small_length : ulong_of_int c.length ≡ c.length
  small_length = ulong_small c.length (omega (arith, fits, whole.size, whole.not_full))

  too_many : c.buf_size < length bytes → context_write fresh c bytes ≡ exited
  unfolding context_write
  too_many h = rw (small_size, lt→ltb _ _ h) refl

  no_room :
      length bytes ≤ c.buf_size
      → length c.block < c.length + length bytes
      → context_write fresh c bytes ≡ overrun
  unfolding context_write
  no_room h out =
      rw
        (
          small_size,
          small_length,
          le→ltb _ _ h,
          write_at_overrun c.length bytes c.block out (omega (arith, whole.not_full)),
        )
        refl

  copies :
      (after : Bytes)
      → length bytes ≤ c.buf_size
      → c.length + length bytes ≤ length c.block
      → write_at c.length bytes c.block ≡ some after
      → context_write fresh c bytes
        ≡ grow fresh (record c { block = after; length = c.length + length bytes })
  unfolding context_write
  copies after h room at =
      let sum : u32 (c.length + length bytes) ≡ c.length + length bytes =
        u32_small _ (omega (arith, room, whole.size, fits)) in
      rw (small_size, small_length, le→ltb _ _ h, at, sum) refl

  stores :
      length bytes ≤ c.buf_size → c.length + length bytes ≤ length c.block → Stored fresh c bytes
  stores h room =
      let (after, at, kept, front) = write_at_fits c.length bytes c.block room in
      let (d, e, w, holds, same) =
        grow-keeps fresh (record c { block = after; length = c.length + length bytes })
          (kept ∙ whole.size) pos fits (omega (arith, room, kept)) in
      (d, copies after h room at ∙ e, w, holds ∙ front _ refl, same)

-- context_write on a buffer that is as large as its fields say and small enough for an `int`: more
-- than buf_size bytes at once end the program; bytes that do not fit behind what is there are written
-- past the end of the block before it grows; all others are stored, and the buffer stays as large as
-- its fields say.
pub context_write_lem :
    (fresh : ℕ → ℕ) (c : ConnectionContext) (bytes : Bytes)
    → IsWhole c
    → 1 ≤ c.buf_size
    → c.allocations * c.buf_size + c.buf_size < 2 ^ 31
    → ((c.buf_size < length bytes) × (context_write fresh c bytes ≡ exited))
      ⊎ (((length bytes ≤ c.buf_size)
            × (length c.block < c.length + length bytes)
            × (context_write fresh c bytes ≡ overrun))
          ⊎ ((length bytes ≤ c.buf_size)
              × (c.length + length bytes ≤ length c.block)
              × Stored fresh c bytes))
context_write_lem fresh c bytes whole pos fits = elim (dec_lt c.buf_size (length bytes)) [
  | yes h ↦ inl (h, too_many fresh c bytes whole pos fits h)
  | no h ↦ elim (dec_lt (length c.block) (c.length + length bytes)) [
    | yes out ↦
        inr
          (inl (omega (arith, h), out, no_room fresh c bytes whole pos fits (omega (arith, h)) out))
    | no room ↦ inr (
        inr (
          omega (arith, h),
          omega (arith, room),
          stores fresh c bytes whole pos fits (omega (arith, h)) (omega (arith, room)),
        ))
  ]
]

length-zeros : (n : ℕ) → length (replicate {A = ℕ} n 0) ≡ n
length-zeros zero = refl
length-zeros (suc n) = ap suc (length-zeros n)

pub context_init-IsWhole :
    (c : ConnectionContext) (n : ℕ) → 1 ≤ n → n < 2 ^ 31 → IsWhole (context_init c n)
unfolding context_init
context_init-IsWhole c n pos small = record {
  size = length-zeros n ∙ omega (arith, u32_small n (omega (arith, small)));
  not_full = omega (arith, length-zeros n, pos);
}
