-- ===== src/Request/Strings.antt =====
-- strcmp on C strings.
use pronto.Prelude.{
  ◌≡◌, ◌≢◌, refl, true, false, [], ◌∷◌, ◌==◌, ==_iff, ==_refl, Bool-cases, inl, inr,
}
use pronto.Bytes.{Bytes}
use pronto.Request.{same}

pub same_eq : (a b : Bytes) → same a b ≡ true → a ≡ b
unfolding same
same_eq [] [] h = refl
same_eq [] (y ∷ b) h = cc
same_eq (x ∷ a) [] h = cc
same_eq (x ∷ a) (y ∷ b) h = elim (Bool-cases (x == y)) [
  | inl e ↦ cc ((==_iff x y).0 e, same_eq a b (rw (e) at h))
  | inr e ↦ cc
]

pub same_refl : (a : Bytes) → same a a ≡ true
unfolding same
same_refl [] = refl
same_refl (x ∷ a) = rw (==_refl x, same_refl a) refl

pub same_ne : {a b : Bytes} → same a b ≡ false → a ≢ b
same_ne {a} {b} h e = cc (same_refl a)
