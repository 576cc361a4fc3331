-- ===== src/Word.antt =====
-- The integer types of the C code as bit patterns: `unsigned int` and `int` of 32 bits, and
-- `unsigned long` of 64 bits (LP64). An `int` is the pattern of its two's complement.
pub mod Small
use pronto.Prelude.{ℕ, ◌+◌, ◌-◌, ◌%◌, ◌^◌, ◌≡◌, refl, Bool, true, ltb, leb, if◌then◌else◌}

abbrev pub u32 : ℕ → ℕ
u32 n = n % 2 ^ 32

abbrev pub u64 : ℕ → ℕ
u64 n = n % 2 ^ 64

-- `a -= b` on a 32-bit and on a 64-bit object; a right operand narrower than the left is widened.
abbrev pub sub32 : ℕ → ℕ → ℕ
sub32 a b = (a + 2 ^ 32 - b) % 2 ^ 32

abbrev pub sub64 : ℕ → ℕ → ℕ
sub64 a b = (a + 2 ^ 64 - b) % 2 ^ 64

-- The pattern of the `int` -1.
abbrev pub minus_one : ℕ
minus_one = 2 ^ 32 - 1

-- The order of two `int` patterns: the sign bit is flipped before the unsigned test.
abbrev pub lt_int : ℕ → ℕ → Bool
lt_int a b = ltb ((a + 2 ^ 31) % 2 ^ 32) ((b + 2 ^ 31) % 2 ^ 32)

abbrev pub le_int : ℕ → ℕ → Bool
le_int a b = leb ((a + 2 ^ 31) % 2 ^ 32) ((b + 2 ^ 31) % 2 ^ 32)

-- An `int` converted to `unsigned long`: its sign is extended.
abbrev pub ulong_of_int : ℕ → ℕ
ulong_of_int a = if ltb a (2 ^ 31) then a else a + (2 ^ 64 - 2 ^ 32)

minus_one_lt : lt_int minus_one 0 ≡ true
minus_one_lt = refl
