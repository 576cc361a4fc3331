-- ===== src/Lines/Joined.antt =====
-- A text of ended lines is counted and taken apart.
use pronto.Prelude.{
  ℕ, zero, suc, ◌+◌, ◌≤◌, ◌<◌, ◌≡◌, ◌≢◌, refl, ap, ◌∙◌, some, List, [], ◌∷◌, ◌++◌, lt→ltb, ==_false,
  length, All, arith, length-append,
}
use pronto.Bytes.{Bytes}
use pronto.Response.Buffer.{◌>>=◌, pad, text}
use pronto.Lines.{
  strchr, count_loop, count_lines, skip_breaks, until_break, strtok_r, lines_loop, bytes_to_lines,
}

abbrev pub IsInner : ℕ → Type 0
IsInner c = (c ≢ b'\n') × (c ≢ 0)

-- Bytes of a line: no line break, no terminator.
abbrev pub IsClean : Bytes → Type 0
IsClean l = All IsInner l

-- Lines that are not empty.
abbrev pub IsLine : Bytes → Type 0
IsLine l = (1 ≤ length l) × IsClean l

-- Each line with its break, and the terminator.
abbrev pub joined : List Bytes → Bytes
joined [] = 0 ∷ []
joined (l ∷ ls) = l ++ b'\n' ∷ joined ls

strchr-line : (l r : Bytes) → IsClean l → strchr (l ++ b'\n' ∷ r) b'\n' ≡ some (some (b'\n' ∷ r))
unfolding strchr
strchr-line [] r h = refl
strchr-line (c ∷ l) r ((ne, nz), h) = rw (==_false ne, ==_false nz) (strchr-line l r h)

count-joined :
    (ls : List Bytes) (f n : ℕ)
    → All IsLine ls
    → length ls < f
    → (strchr (joined ls) b'\n' >>= count_loop f n) ≡ some (n + length ls)
unfolding strchr count_loop
count-joined ls zero n h lt = absurd (omega (arith, lt))
count-joined [] (suc f) n h lt = ap some (omega arith)
count-joined (l ∷ ls) (suc f) n ((ne, clean), h) lt =
    rw (strchr-line l (joined ls) clean)
      (count-joined ls f (n + 1) h (omega (arith, lt)) ∙ ap some (omega arith))

length-joined : (ls : List Bytes) → length ls < length (joined ls)
length-joined [] = omega arith
length-joined (l ∷ ls) = omega (arith, length-append l (b'\n' ∷ joined ls), length-joined ls)

-- The copy is the text.
copy-line :
    (l r : Bytes)
    → IsClean l
    → pad (length r) (text r) ≡ r
    → pad (length (l ++ r)) (text (l ++ r)) ≡ l ++ r
unfolding text
copy-line [] r h e = e
copy-line (c ∷ l) r ((ne, nz), h) e = rw (==_false nz) (ap (λ s. c ∷ s) (copy-line l r h e))

copy-joined :
    (ls : List Bytes) → All IsLine ls → pad (length (joined ls)) (text (joined ls)) ≡ joined ls
unfolding text
copy-joined [] h = refl
copy-joined (l ∷ ls) ((ne, clean), h) =
    copy-line l (b'\n' ∷ joined ls) clean (ap (λ s. b'\n' ∷ s) (copy-joined ls h))

until_break-line : (l r : Bytes) → IsClean l → until_break (l ++ b'\n' ∷ r) ≡ some (l, r)
unfolding until_break
until_break-line [] r h = refl
until_break-line (c ∷ l) r ((ne, nz), h) =
    rw (==_false ne, ==_false nz, until_break-line l r h) refl

strtok_r-line : (l r : Bytes) → IsLine l → strtok_r (l ++ b'\n' ∷ r) ≡ some (some (l, r))
unfolding strtok_r skip_breaks
strtok_r-line [] r (ne, h) = absurd (omega (arith, ne))
strtok_r-line (c ∷ l) r (ne, h) =
    let (inner, rest) = h in
    rw (==_false (inner.0), ==_false (inner.1), ==_false (inner.0), until_break-line l r rest) refl

loop-joined :
    (ls : List Bytes) (f n i : ℕ)
    → All IsLine ls
    → length ls < f
    → i + length ls ≤ n
    → (strtok_r (joined ls) >>= lines_loop f n i) ≡ some ls
unfolding lines_loop strtok_r skip_breaks
loop-joined ls zero n i h lt le = absurd (omega (arith, lt))
loop-joined [] (suc f) n i h lt le = refl
loop-joined (l ∷ ls) (suc f) n i (line, h) lt le =
    rw
      (
        strtok_r-line l (joined ls) line,
        lt→ltb i n (omega (arith, le)),
        loop-joined ls f n (i + 1) h (omega (arith, lt)) (omega (arith, le)),
      )
      refl

-- A text of lines that are not empty, each with its line break: count_lines counts them, and with that
-- many slots bytes_to_lines gives them back.
pub bytes_to_lines-count_lines :
    (l : Bytes) (ls : List Bytes)
    → All IsLine (l ∷ ls)
    → (count_lines (joined (l ∷ ls)) ≡ some (length (l ∷ ls)))
      × (bytes_to_lines (joined (l ∷ ls)) (length (l ∷ ls)) ≡ some (l ∷ ls))
unfolding count_lines bytes_to_lines
bytes_to_lines-count_lines l ls h =
    let all =
      loop-joined (l ∷ ls) (length (joined (l ∷ ls)) + 1) (length (l ∷ ls)) 0 h
        (omega (arith, length-joined (l ∷ ls))) (omega arith) in
    (
      count-joined (l ∷ ls) _ 0 h (omega (arith, length-joined (l ∷ ls))) ∙ ap some (omega arith),
      rw (copy-joined (l ∷ ls) h, strtok_r-line l (joined ls) (h.0))
          (rw (strtok_r-line l (joined ls) (h.0)) at all),
    )
