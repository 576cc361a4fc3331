-- ===== src/Word/Small.antt =====
-- The machine operations on small numbers.
use pronto.Prelude.{ℕ, ◌^◌, ◌≤◌, ◌<◌, ◌≡◌, ◌⊎◌, refl, true, false, leb, lt→ltb, arith}
use pronto.Word.{u32, le_int, ulong_of_int}

pub u32_small : (a : ℕ) → a < 2 ^ 31 → u32 a ≡ a
u32_small a h = omega (arith, h)

pub leb-cases : (a b : ℕ) → ((leb a b ≡ true) × (a ≤ b)) ⊎ ((leb a b ≡ false) × (b < a))
leb-cases a b = ground arith

pub le_int_small : (a b : ℕ) → a < 2 ^ 31 → b < 2 ^ 31 → le_int a b ≡ leb a b
le_int_small a b h g = ground arith

pub ulong_small : (a : ℕ) → a < 2 ^ 31 → ulong_of_int a ≡ a
ulong_small a h = rw (lt→ltb a (2 ^ 31) h) refl
