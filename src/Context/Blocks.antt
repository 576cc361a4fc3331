-- ===== src/Context/Blocks.antt =====
-- memcpy to an offset, and realloc.
use pronto.Prelude.{
  ℕ, zero, suc, ◌+◌, ◌≤◌, ◌<◌, ◌≡◌, refl, ap, ◌∙◌, none, some, [], ◌∷◌, ◌++◌, length, take, arith,
}
use pronto.Bytes.{Bytes}
use pronto.Response.Buffer.{prepend, write}
use pronto.Context.{write_at, resize}

write_fits :
    (bytes block : Bytes)
    → length bytes ≤ length block
    → (after : Bytes) × (write bytes block ≡ some after)
      × (length after ≡ length block)
      × (take (length bytes) after ≡ bytes)
write_fits [] block h = (block, refl, refl, refl)
write_fits (x ∷ bytes) [] h = absurd (omega (arith, h))
write_fits (x ∷ bytes) (c ∷ block) h =
    let (after, e, l, t) = write_fits bytes block (omega (arith, h)) in
    (x ∷ after, ap (prepend x) e, ap suc l, ap (λ s. x ∷ s) t)

write_overrun : (bytes block : Bytes) → length block < length bytes → write bytes block ≡ none
write_overrun [] block h = absurd (omega (arith, h))
write_overrun (x ∷ bytes) [] h = refl
write_overrun (x ∷ bytes) (c ∷ block) h =
    ap (prepend x) (write_overrun bytes block (omega (arith, h)))

-- A copy that fits leaves what was in front of it.
pub write_at_fits :
    (n : ℕ) (bytes block : Bytes)
    → n + length bytes ≤ length block
    → (after : Bytes) × (write_at n bytes block ≡ some after)
      × (length after ≡ length block)
      × ((m : ℕ) → m ≡ n + length bytes → take m after ≡ take n block ++ bytes)
unfolding write_at
write_at_fits zero bytes block h =
    let (after, e, l, t) = write_fits bytes block (omega (arith, h)) in
    (after, e, l, λ m same. ap (λ k. take k after) (omega (arith, same)) ∙ t)
write_at_fits (suc n) bytes [] h = absurd (omega (arith, h))
write_at_fits (suc n) bytes (c ∷ block) h =
    let (after, e, l, t) = write_at_fits n bytes block (omega (arith, h)) in
    (c ∷ after, ap (prepend c) e, ap suc l, front c after t)
  where
    front :
        (c : ℕ) (after : Bytes)
        → ((m : ℕ) → m ≡ n + length bytes → take m after ≡ take n block ++ bytes)
        → (m : ℕ) → m ≡ suc n + length bytes
        → take m (c ∷ after) ≡ c ∷ (take n block ++ bytes)
    front c after t zero same = absurd (omega (arith, same))
    front c after t (suc m) same = ap (λ s. c ∷ s) (t m (omega (arith, same)))

pub write_at_overrun :
    (n : ℕ) (bytes block : Bytes)
    → length block < n + length bytes
    → n ≤ length block
    → write_at n bytes block ≡ none
unfolding write_at
write_at_overrun zero bytes block h le = write_overrun bytes block (omega (arith, h))
write_at_overrun (suc n) bytes [] h le = refl
write_at_overrun (suc n) bytes (c ∷ block) h le =
    ap (prepend c) (write_at_overrun n bytes block (omega (arith, h)) (omega (arith, le)))

pub length-resize : (n : ℕ) (fresh : ℕ → ℕ) (block : Bytes) → length (resize n fresh block) ≡ n
unfolding resize
length-resize zero fresh block = refl
length-resize (suc n) fresh [] = ap suc (length-resize n fresh [])
length-resize (suc n) fresh (c ∷ block) = ap suc (length-resize n fresh block)

pub take-resize :
    (k n : ℕ) (fresh : ℕ → ℕ) (block : Bytes)
    → k ≤ length block
    → k ≤ n
    → take k (resize n fresh block) ≡ take k block
unfolding resize
take-resize zero n fresh block h le = refl
take-resize (suc k) zero fresh block h le = absurd (omega (arith, le))
take-resize (suc k) (suc n) fresh [] h le = absurd (omega (arith, h))
take-resize (suc k) (suc n) fresh (c ∷ block) h le =
    ap (λ s. c ∷ s) (take-resize k n fresh block (omega (arith, h)) (omega (arith, le)))
