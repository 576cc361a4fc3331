-- ===== src/Response/Buffer.antt =====
-- Blocks of bytes, and strncpy, strncat and C strings on them; `none` is an access past the end.
use pronto.Prelude.{
  ℕ, zero, suc, ◌+◌, ◌≤◌, ◌<◌, ◌≡◌, ◌≢◌, refl, ap, Option, none, some, [], ◌∷◌, ◌++◌, ◌==◌, length,
  take, drop, set, replicate, All, arith, if◌then◌else◌, some-injective, sym, ◌∙◌, Bool-cases, inl,
  inr,
}
use pronto.Bytes.{Bytes}

infixl 5 ◌>>=◌
abbrev pub ◌>>=◌ {ℓ κ} : {A : Type ℓ} {B : Type κ} → Option A → (A → Option B) → Option B
none >>= k = none
some a >>= k = k a

abbrev pub prepend : ℕ → Option Bytes → Option Bytes
prepend c none = none
prepend c (some b) = some (c ∷ b)

-- A block whose first bytes are written over.
abbrev pub write : Bytes → Bytes → Option Bytes
write [] block = some block
write (x ∷ xs) [] = none
write (x ∷ xs) (c ∷ block) = prepend x (write xs block)

-- `n` bytes that hold a string, cut at `n` or filled up with zeros.
abbrev pub pad : ℕ → Bytes → Bytes
pad zero s = []
pad (suc n) [] = 0 ∷ pad n []
pad (suc n) (x ∷ xs) = x ∷ pad n xs

unfoldable pub strncpy : Bytes → Bytes → ℕ → Option Bytes
strncpy block s n = write (pad n s) block

-- The string in the block is looked for, and at most `n` bytes and a terminator are added to it.
unfoldable pub strncat : Bytes → Bytes → ℕ → Option Bytes
strncat [] s n = none
strncat (c ∷ block) s n =
    let on = prepend c (strncat block s n) in
    if c == 0 then write (take n s ++ 0 ∷ []) (c ∷ block) else on

-- The C string at the start of a block.
unfoldable pub text : Bytes → Bytes
text [] = []
text (c ∷ block) = let on = c ∷ text block in if c == 0 then [] else on

-- A string as the C library sees it.
abbrev pub IsText : Bytes → Type 0
IsText s = All (λ c. c ≢ 0) s

pub text-pad : (m : ℕ) (s : Bytes) → IsText s → length s < m → text (pad m s) ≡ s
unfolding text
text-pad zero s t h = absurd (omega arith)
text-pad (suc m) [] t h = refl
text-pad (suc m) (x ∷ s) (ne, t) h = ground (arith, text-pad m s t (omega arith))

pub length-pad : (m : ℕ) (s : Bytes) → length (pad m s) ≡ m
length-pad zero s = refl
length-pad (suc m) [] = ap suc (length-pad m [])
length-pad (suc m) (x ∷ s) = ap suc (length-pad m s)

pub pad_nil : (m : ℕ) → pad m [] ≡ replicate m 0
pad_nil zero = refl
pad_nil (suc m) = ap (λ l. 0 ∷ l) (pad_nil m)

drop_nil : (n : ℕ) → drop {A = ℕ} n [] ≡ []
drop_nil zero = refl
drop_nil (suc n) = refl

pub take_all : (n : ℕ) (s : Bytes) → length s ≤ n → take n s ≡ s
take_all zero [] h = refl
take_all zero (x ∷ s) h = absurd (omega arith)
take_all (suc n) [] h = refl
take_all (suc n) (x ∷ s) h = ap (λ l. x ∷ l) (take_all n s (omega arith))

write-terminator :
    (m : ℕ) (s : Bytes) → length s < m → write (s ++ 0 ∷ []) (pad m []) ≡ some (pad m s)
write-terminator zero s h = absurd (omega arith)
write-terminator (suc m) [] h = refl
write-terminator (suc m) (x ∷ s) h = ap (prepend x) (write-terminator m s (omega arith))

prepend-some :
    (c : ℕ) (o : Option Bytes) (b : Bytes)
    → prepend c o ≡ some b
    → (rest : Bytes) × (o ≡ some rest) × (b ≡ c ∷ rest)
prepend-some c none b h = cc
prepend-some c (some rest) b h = (rest, refl, sym (some-injective _ _ h))

-- A write into a string that is followed by zeros.
pub write-pad :
    (s a : Bytes) (m : ℕ) → length s ≤ m → write s (pad m a) ≡ some (pad m (s ++ drop (length s) a))
write-pad [] a m h = refl
write-pad (x ∷ s) a zero h = absurd (omega arith)
write-pad (x ∷ s) [] (suc m) h =
    let rest = write-pad s [] m (omega arith) in ap (prepend x) (rw (drop_nil (length s)) at rest)
write-pad (x ∷ s) (c ∷ a) (suc m) h = ap (prepend x) (write-pad s a m (omega arith))

pub strncat-pad :
    (m : ℕ) (a s : Bytes) (n : ℕ)
    → IsText a
    → length s ≤ n
    → length a + length s < m
    → strncat (pad m a) s n ≡ some (pad m (a ++ s))
unfolding strncat
strncat-pad zero a s n t le lt = absurd (omega arith)
strncat-pad (suc m) [] s n t le lt = rw (take_all n s le) (write-terminator (suc m) s (omega arith))
strncat-pad (suc m) (c ∷ a) s n (ne, t) le lt =
    ground (arith, strncat-pad m a s n t le (omega arith))

take-take : (n : ℕ) (s : Bytes) → take n (take n s) ≡ take n s
take-take zero s = refl
take-take (suc n) [] = refl
take-take (suc n) (x ∷ s) = ap (λ l. x ∷ l) (take-take n s)

pub length-take : (n : ℕ) (s : Bytes) → length (take n s) ≤ n
length-take zero s = omega arith
length-take (suc n) [] = omega arith
length-take (suc n) (x ∷ s) = omega (arith, length-take n s)

-- strncat looks at no more than `n` bytes of what it adds.
strncat-take : (block s : Bytes) (n : ℕ) → strncat block s n ≡ strncat block (take n s) n
unfolding strncat
strncat-take [] s n = refl
strncat-take (c ∷ block) s n = rw (take-take n s, sym (strncat-take block s n)) refl

-- So it works for a longer string, too.
pub strncat-cut :
    (m : ℕ) (a s : Bytes) (n : ℕ)
    → IsText a
    → length a + n < m
    → strncat (pad m a) s n ≡ some (pad m (a ++ take n s))
strncat-cut m a s n t lt =
    let cut = length-take n s in
    strncat-take (pad m a) s n ∙ strncat-pad m a (take n s) n t cut (omega arith)

pub pad_self : (s : Bytes) → pad (length s) s ≡ s
pad_self [] = refl
pad_self (x ∷ s) = ap (λ l. x ∷ l) (pad_self s)

pub length-drop : (n : ℕ) (s : Bytes) → length (drop n s) ≤ length s
length-drop zero s = omega arith
length-drop (suc n) [] = omega arith
length-drop (suc n) (x ∷ s) = omega (arith, length-drop n s)

pub drop-IsText : (n : ℕ) (s : Bytes) → IsText s → IsText (drop n s)
drop-IsText zero s t = t
drop-IsText (suc n) [] t = tt
drop-IsText (suc n) (x ∷ s) (h, t) = drop-IsText n s t

-- strncpy into a block of one byte more, which is then terminated.
pub write-terminated :
    (m : ℕ) (s block : Bytes)
    → length s ≤ m
    → length block ≡ suc m
    → (b : Bytes) × (write (pad m s) block ≡ some b) × (set b m 0 ≡ pad (suc m) s)
write-terminated m s [] le len = absurd (omega arith)
write-terminated zero [] (y ∷ []) le len = (y ∷ [], refl, refl)
write-terminated zero [] (y ∷ z ∷ block) le len = absurd (omega arith)
write-terminated zero (x ∷ s) (y ∷ block) le len = absurd (omega arith)
write-terminated (suc m) [] (y ∷ block) le len =
    let (b, e, f) = write-terminated m [] block (omega arith) (omega arith) in
    (0 ∷ b, ap (prepend 0) e, ap (λ l. 0 ∷ l) f)
write-terminated (suc m) (x ∷ s) (y ∷ block) le len =
    let (b, e, f) = write-terminated m s block (omega arith) (omega arith) in
    (x ∷ b, ap (prepend x) e, ap (λ l. x ∷ l) f)

pub length-write : (s block b : Bytes) → write s block ≡ some b → length b ≡ length block
length-write [] block b h = ap length (sym (some-injective _ _ h))
length-write (x ∷ s) [] b h = cc
length-write (x ∷ s) (c ∷ block) b h =
    let (rest, e, f) = prepend-some x (write s block) b h in
    rw (f) (ap suc (length-write s block rest e))

pub length-strncat :
    (block s : Bytes) (n : ℕ) (b : Bytes) → strncat block s n ≡ some b → length b ≡ length block
unfolding strncat
length-strncat [] s n b h = cc
length-strncat (c ∷ block) s n b h = elim (Bool-cases (c == 0)) [
  | inl z ↦ length-write (take n s ++ 0 ∷ []) (c ∷ block) b (rw (z) at h)
  | inr z ↦
      let (rest, e, f) = prepend-some c (strncat block s n) b (rw (z) at h) in
      rw (f) (ap suc (length-strncat block s n rest e))
]
