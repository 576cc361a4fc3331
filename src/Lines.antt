-- ===== src/Lines.antt =====
-- Lines of a block of bytes (count_lines and bytes_to_lines of srv/lib/utils.c); no code calls them.
-- `none` is a read past the end of the copy, a write past the end of `lines`, or strlen on NULL.
pub mod Joined
use pronto.Prelude.{
  ℕ, zero, suc, ◌+◌, Option, none, some, List, [], ◌∷◌, ◌==◌, ltb, length, drop, if◌then◌else◌,
}
use pronto.Bytes.{Bytes}
use pronto.Response.Buffer.{◌>>=◌, prepend, pad, text}

-- strchr: the pointer is what stands in the block from it on, `some none` is NULL.
unfoldable pub strchr : Bytes → ℕ → Option (Option Bytes)
strchr [] c = none
strchr (x ∷ s) c =
    let rest = strchr s c in
    if x == c then some (some (x ∷ s)) else (if x == 0 then some none else rest)

-- The loop, with fuel for its rounds.
unfoldable pub count_loop : ℕ → ℕ → Option Bytes → Option ℕ
unfolding strchr
count_loop zero count next = none
count_loop (suc fuel) count none = some count
count_loop (suc fuel) count (some next) = strchr (drop 1 next) b'\n' >>= count_loop fuel (count + 1)

unfoldable pub count_lines : Bytes → Option ℕ
unfolding count_loop
count_lines bytes = strchr bytes b'\n' >>= count_loop (length bytes + 1) 0

-- strtok_r with the delimiter "\n": a token and what is kept in `temp`.
unfoldable pub skip_breaks : Bytes → Option Bytes
skip_breaks [] = none
skip_breaks (c ∷ s) = let rest = skip_breaks s in if c == b'\n' then rest else some (c ∷ s)

abbrev pub longer : ℕ → Option (Bytes × Bytes) → Option (Bytes × Bytes)
longer c none = none
longer c (some (token, rest)) = some (c ∷ token, rest)

unfoldable pub until_break : Bytes → Option (Bytes × Bytes)
until_break [] = none
until_break (c ∷ s) =
    let on = longer c (until_break s) in
    if c == b'\n' then some ([], s) else (if c == 0 then some ([], c ∷ s) else on)

abbrev pub token_at : Bytes → Option (Option (Bytes × Bytes))
token_at [] = none
token_at (c ∷ s) = if c == 0 then some none else (until_break (c ∷ s) >>= λ part. some (some part))

unfoldable pub strtok_r : Bytes → Option (Option (Bytes × Bytes))
unfolding skip_breaks until_break
strtok_r s = skip_breaks s >>= token_at

-- A line is stored without a terminator.
abbrev pub with_line : Bytes → Option (List Bytes) → Option (List Bytes)
with_line line none = none
with_line line (some lines) = some (line ∷ lines)

-- The do loop from lines[i] on, with the part that its test has found: what it writes, in order.
unfoldable pub lines_loop : ℕ → ℕ → ℕ → Option (Bytes × Bytes) → Option (List Bytes)
unfolding strtok_r
lines_loop zero lines_num i part = none
lines_loop (suc fuel) lines_num i none = some []
lines_loop (suc fuel) lines_num i (some (part, temp)) =
    let rest = strtok_r temp >>= lines_loop fuel lines_num (i + 1) in
    if ltb i lines_num then with_line part rest else none

-- The first round does not test `part`.
abbrev pub first_part : ℕ → ℕ → Option (Bytes × Bytes) → Option (List Bytes)
first_part fuel lines_num none = none
first_part fuel lines_num (some part) = lines_loop fuel lines_num 0 (some part)

-- The copy is what strncpy makes of the C string at `bytes`, cut at byte_len.
unfoldable pub bytes_to_lines : Bytes → ℕ → Option (List Bytes)
unfolding lines_loop
bytes_to_lines bytes lines_num =
    strtok_r (pad (length bytes) (text bytes)) >>= first_part (length bytes + 1) lines_num
