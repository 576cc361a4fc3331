-- ===== src/Request/Number.antt =====
-- atoi reads back what `%d` prints.
use pronto.Prelude.{
  ℕ, zero, suc, ◌+◌, ◌-◌, ◌*◌, ◌/◌, ◌%◌, ◌^◌, ◌≤◌, ◌<◌, ◌≡◌, sym, ap, ◌∙◌, [], ◌∷◌, ◌++◌, ltb,
  arith, Bool-cases, inl, inr,
}
use mathlib.Core.List.{append_assoc, append-nil}
use pronto.Word.{u32}
use pronto.Bytes.{Bytes, digits, decimal}
use pronto.Request.{number, min, atoi}

number_digit :
    (n d : ℕ) (rest : Bytes) → d < 10 → number n ((b'0' + d) ∷ rest) ≡ number (n * 10 + d) rest
unfolding number
number_digit n d rest h =
    let e : n * 10 + (b'0' + d - b'0') ≡ n * 10 + d = omega arith in rw e (ground arith)

-- Reading the digits of `n`, with any text behind them, is reading on from `n`.
number-digits : (f n : ℕ) (rest : Bytes) → n < f → number 0 (digits f n ++ rest) ≡ number n rest
unfolding number digits
number-digits zero n rest h = absurd (omega arith)
number-digits (suc f) n rest h = elim (Bool-cases (ltb n 10)) [
  | inl e ↦ rw (e) (ground arith)
  | inr e ↦
      rw (e, append_assoc (digits f (n / 10)) ((b'0' + n % 10) ∷ []) rest)
        (number-digits f (n / 10) ((b'0' + n % 10) ∷ rest) (ground arith)
          ∙ number_digit (n / 10) (n % 10) rest (omega arith)
          ∙ ap (λ k. number k rest) (omega arith))
]

-- A print starts with a digit.
abbrev StartsWithDigit : Bytes → Type 0
StartsWithDigit [] = ⊥
StartsWithDigit (c ∷ s) = (b'0' ≤ c) × (c ≤ b'9')

StartsWithDigit-append : (s r : Bytes) → StartsWithDigit s → StartsWithDigit (s ++ r)
StartsWithDigit-append [] r h = absurd h
StartsWithDigit-append (c ∷ s) r h = h

digits-StartsWithDigit : (f n : ℕ) → n < f → StartsWithDigit (digits f n)
unfolding digits
digits-StartsWithDigit zero n h = absurd (omega arith)
digits-StartsWithDigit (suc f) n h = elim (Bool-cases (ltb n 10)) [
  | inl e ↦ rw (e) (omega arith, ground arith)
  | inr e ↦ rw (e) (StartsWithDigit-append _ _ (digits-StartsWithDigit f (n / 10) (ground arith)))
]

atoi-number : (s : Bytes) → StartsWithDigit s → atoi s ≡ u32 (min (number 0 s) (2 ^ 63 - 1))
unfolding atoi
atoi-number [] h = absurd h
atoi-number (c ∷ s) (lo, hi) = ground arith

number-digits_self : (n : ℕ) → number 0 (digits (suc n) n) ≡ n
unfolding number
number-digits_self n =
    ap (number 0) (sym (append-nil (digits (suc n) n))) ∙ number-digits (suc n) n [] (omega arith)

atoi-digits : (n : ℕ) → n < 2 ^ 31 → atoi (digits (suc n) n) ≡ n
atoi-digits n h =
    atoi-number (digits (suc n) n) (digits-StartsWithDigit (suc n) n (omega arith))
    ∙ ap (λ k. u32 (min k (2 ^ 63 - 1))) (number-digits_self n)
    ∙ ground arith

-- For every `int` that is not negative, atoi reads back what `%d` prints.
pub atoi-decimal : (n : ℕ) → n < 2 ^ 31 → atoi (decimal n) ≡ n
unfolding decimal
atoi-decimal n h = atoi-digits n h
