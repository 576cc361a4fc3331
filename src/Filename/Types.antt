-- ===== src/Filename/Types.antt =====
-- The content type is that of what stands behind the last dot.
use pronto.Prelude.{
  ℕ, zero, suc, ◌+◌, ◌-◌, ◌≤◌, ◌≡◌, ◌≢◌, refl, sym, ap, ◌∙◌, false, Option, none, some, List, [],
  ◌∷◌, ◌++◌, ◌==◌, ==_iff, ==_refl, length, drop, All, if◌then◌else◌, Bool-cases, inl, inr, arith,
  length-append, ==_false,
}
use pronto.Bytes.{Bytes, codes}
use pronto.Response.Buffer.{text, IsText}
use pronto.Response.Buffer.{take_all}
use pronto.Request.Headers.{text_lem}
use pronto.Request.{same, copied}
use pronto.Filename.{
  byte_at, seek, typed, filename_to_extension, octet_stream, mimetype, filename_to_mimetype_header,
}

abbrev pub IsDotless : Bytes → Type 0
IsDotless s = All (λ c. c ≢ b'.') s

abbrev pub type_of : List (Bytes × Bytes) → Bytes → Bytes
type_of [] e = octet_stream
type_of ((k, v) ∷ types) e = if same k e then v else type_of types e

-- The extensions that are known, without the dot.
abbrev pub types : List (Bytes × Bytes)
types =
    (codes "html", codes "Content-Type: text/html; charset=utf-8\n")
    ∷ (codes "txt", codes "Content-Type: text/plain; charset=utf-8\n")
    ∷ (codes "jpg", codes "Content-Type: image/jpeg\n")
    ∷ (codes "jpeg", codes "Content-Type: image/jpeg\n")
    ∷ (codes "css", codes "Content-Type: text/css\n")
    ∷ []

mimetype-dot : (e : Bytes) → mimetype (b'.' ∷ e) ≡ type_of types e
unfolding mimetype same
mimetype-dot e = refl

not_dot : (c : ℕ) → c ≢ b'.' → (c == b'.') ≡ false
not_dot c ne = elim (Bool-cases (c == b'.')) [
  | inl h ↦ absurd (ne ((==_iff c b'.').0 h))
  | inr h ↦ h
]

mimetype-no_dot : (c : ℕ) (e : Bytes) → c ≢ b'.' → mimetype (c ∷ e) ≡ octet_stream
unfolding mimetype same
mimetype-no_dot c e ne = elim (Bool-cases (b'.' == c)) [
  | inl h ↦ absurd (ne (sym ((==_iff b'.' c).0 h)))
  | inr h ↦ rw (h) refl
]

mimetype_nil : mimetype [] ≡ octet_stream
unfolding mimetype same
mimetype_nil = refl

byte_at-append :
    (base s : Bytes) (i k : ℕ) → i ≡ length base + k → byte_at (base ++ s) i ≡ byte_at s k
unfolding byte_at
byte_at-append [] s i k h = let same_place : i ≡ k = omega (arith, h) in ap (byte_at s) same_place
byte_at-append (c ∷ base) s zero k h = absurd (omega (arith, h))
byte_at-append (c ∷ base) s (suc i) k h = byte_at-append base s i k (omega (arith, h))

byte_at-IsDotless : (e : Bytes) (k : ℕ) → IsDotless e → (byte_at e k == b'.') ≡ false
unfolding byte_at
byte_at-IsDotless [] k d = refl
byte_at-IsDotless (c ∷ e) zero (ne, d) = not_dot c ne
byte_at-IsDotless (c ∷ e) (suc k) (ne, d) = byte_at-IsDotless e k d

module _ (base e : Bytes) (d : IsDotless e) where
  -- The loop stops at the last dot.
  seek-dot : (n k : ℕ) → n ≡ length base + suc k → seek (base ++ b'.' ∷ e) n ≡ length base + 1
  unfolding seek
  seek-dot zero k h = absurd (omega (arith, h))
  seek-dot (suc i) zero h =
      rw (byte_at-append base (b'.' ∷ e) i 0 (omega (arith, h)), byte_at) (omega (arith, h))
  seek-dot (suc i) (suc k) h =
      rw
        (
          byte_at-append base (b'.' ∷ e) i (suc k) (omega (arith, h)),
          byte_at,
          byte_at-IsDotless e k d,
        )
        (seek-dot i k (omega (arith, h)))

  seek-whole : seek (base ++ b'.' ∷ e) (length (base ++ b'.' ∷ e)) ≡ length base + 1
  seek-whole = seek-dot _ (length e) (omega (arith, length-append base (b'.' ∷ e)))

seek-IsDotless : (e : Bytes) (n : ℕ) → IsDotless e → seek e n ≡ 0
unfolding seek
seek-IsDotless e zero d = refl
seek-IsDotless e (suc n) d = rw (byte_at-IsDotless e n d) (seek-IsDotless e n d)

drop-append : (base s : Bytes) (n : ℕ) → n ≡ length base → drop n (base ++ s) ≡ s
drop-append [] s zero h = refl
drop-append [] s (suc n) h = absurd (omega (arith, h))
drop-append (c ∷ base) s zero h = absurd (omega (arith, h))
drop-append (c ∷ base) s (suc n) h = drop-append base s n (omega (arith, h))

copied_all : (n : ℕ) (s : Bytes) → length s ≤ n → IsText s → copied n s ≡ s
copied_all n s h t = rw (take_all n s h) (text_lem s t)

-- What the function does with a position.
abbrev taken : ℕ → Bytes → ℕ → Option Bytes
taken before name n =
    if n == 1 then none else some (copied (length name + 1 - n) (drop n (before ∷ name)))

extension_taken :
    (before : ℕ) (name : Bytes) (n : ℕ)
    → seek name (length name) ≡ n
    → filename_to_extension before name ≡ taken before name n
unfolding filename_to_extension
extension_taken before name n h = rw (h) refl

dot_nonzero : ◌≢◌ {A = ℕ} b'.' 0
dot_nonzero h = cc

taken-dot :
    (before : ℕ) (base e : Bytes) (n : ℕ)
    → IsText e
    → n ≡ length base + 1
    → (n == 1) ≡ false
    → taken before (base ++ b'.' ∷ e) n ≡ some (b'.' ∷ e)
taken-dot before base e n t h ne =
    let rest = drop-append (before ∷ base) (b'.' ∷ e) n (omega (arith, h)) in
    let room : length (b'.' ∷ e) ≤ length (base ++ b'.' ∷ e) + 1 - n =
      omega (arith, h, length-append base (b'.' ∷ e)) in
    rw (ne, rest, copied_all _ (b'.' ∷ e) room (dot_nonzero, t)) refl

taken_whole : (before : ℕ) (e : Bytes) → IsText e → taken before e 0 ≡ some (text (before ∷ e))
taken_whole before e t = ap some (ap text (take_all _ (before ∷ e) (omega arith)))

mimetype_before :
    (before : ℕ) (e : Bytes)
    → IsText e
    → mimetype (text (before ∷ e)) ≡ (if before == b'.' then type_of types e else octet_stream)
unfolding text
mimetype_before before e t = elim (Bool-cases (before == 0)) [
  | inl z ↦ rw (z, (==_iff before 0).0 z) mimetype_nil
  | inr z ↦ elim (Bool-cases (before == b'.')) [
    | inl h ↦
        rw (z, h, text_lem e t)
          (ap (λ c. mimetype (c ∷ e)) ((==_iff before b'.').0 h) ∙ mimetype-dot e)
    | inr h ↦ rw (z, h, text_lem e t) (mimetype-no_dot before e (λ f. cc (==_refl before)))
  ]
]

-- The content type is looked up by what stands behind the last dot. A name whose only dot is the first
-- byte leads to strcmp on NULL. A name without a dot has the default type, unless the byte of memory in
-- front of it is a dot: then the whole name is looked up.
pub filename_to_mimetype_header_lem :
    (before c : ℕ) (base e : Bytes)
    → IsText e
    → IsDotless e
    → (filename_to_mimetype_header before ((c ∷ base) ++ b'.' ∷ e) ≡ some (type_of types e))
      × (filename_to_mimetype_header before (b'.' ∷ e) ≡ none)
      × (filename_to_mimetype_header before e
          ≡ some (if before == b'.' then type_of types e else octet_stream))
unfolding filename_to_mimetype_header
filename_to_mimetype_header_lem before c base e t d = (
  ap typed (
        extension_taken before ((c ∷ base) ++ b'.' ∷ e) _ (seek-whole (c ∷ base) e d)
        ∙ taken-dot before (c ∷ base) e _ t refl (==_false (λ h. absurd (omega (arith, h)))))
      ∙ ap some (mimetype-dot e),
  ap typed (extension_taken before (b'.' ∷ e) _ (seek-whole [] e d)),
  ap typed (extension_taken before e 0 (seek-IsDotless e (length e) d) ∙ taken_whole before e t)
      ∙ ap some (mimetype_before before e t),
)
