-- ===== src/Request/Headers.antt =====
-- get_header, to_lowercase and http_request_from on slices without a zero byte.
use mathlib.Core.List.{append-nil}
use pronto.Prelude.{
  ℕ, suc, ◌+◌, ◌≤◌, ◌≡◌, ◌≢◌, refl, ap, ◌∙◌, subst, Option, none, some, List, [], ◌∷◌, ◌++◌, length,
  length-append, All, arith, Bool-cases, inl, inr,
}
use pronto.Bytes.{Bytes}
use pronto.Response.Buffer.{text, IsText, take_all}
use pronto.Request.{
  Header, HttpRequest, same, copied, http_request_from, tolower, to_lowercase, get_header,
}
use pronto.Request.Strings.{same_eq, same_ne}

pub text_lem : (s : Bytes) → IsText s → text s ≡ s
unfolding text
text_lem [] t = refl
text_lem (c ∷ s) (ne, t) = ground (arith, text_lem s t)

pub text-append : (s r : Bytes) → IsText s → text (s ++ r) ≡ s ++ text r
unfolding text
text-append [] r t = refl
text-append (c ∷ s) r (ne, t) = ground (arith, text-append s r t)

pub copied_self : (s : Bytes) → IsText s → copied (length s) s ≡ s
copied_self s t = ap text (take_all (length s) s (omega arith)) ∙ text_lem s t

length-to_lowercase : (s : Bytes) → length (to_lowercase s) ≡ length s
unfolding to_lowercase
length-to_lowercase [] = refl
length-to_lowercase (c ∷ s) = ap suc (length-to_lowercase s)

to_lowercase-IsText : (s : Bytes) → IsText s → IsText (to_lowercase s)
unfolding to_lowercase tolower
to_lowercase-IsText [] t = tt
to_lowercase-IsText (c ∷ s) (ne, t) = (λ e. ground arith, to_lowercase-IsText s t)

-- A header whose slices hold no zero byte.
abbrev pub IsClean : Header → Type 0
IsClean h = IsText h.name × IsText h.value

-- The value of the first header whose name is `key` in lower case, if there is one.
abbrev pub FindsHeader : Bytes → List Header → Option Bytes → Type 0
FindsHeader key headers (some value) =
    (before : List Header) × (h : Header) × (after : List Header) × (headers ≡ before ++ h ∷ after)
    × All (λ x. to_lowercase x.name ≢ key) before
    × (to_lowercase h.name ≡ key)
    × (value ≡ h.value)
FindsHeader key headers none = All (λ x. to_lowercase x.name ≢ key) headers

FindsHeader-cons :
    (key : Bytes) (h : Header) (headers : List Header) (o : Option Bytes)
    → to_lowercase h.name ≢ key
    → FindsHeader key headers o
    → FindsHeader key (h ∷ headers) o
FindsHeader-cons key h headers none ne others = (ne, others)
FindsHeader-cons key h headers (some v) ne (before, x, after, e, others, named, value) =
    (h ∷ before, x, after, ap (λ l. h ∷ l) e, (ne, others), named, value)

-- The key that get_header looks for: the name in lower case, up to the first zero byte behind it.
get_header-key :
    (beyond wanted : Bytes) (headers : List Header)
    → IsText wanted
    → All IsClean headers
    → FindsHeader (to_lowercase wanted ++ text beyond) headers (get_header beyond headers wanted)
unfolding get_header
get_header-key beyond wanted [] tw clean = tt
get_header-key beyond wanted (h ∷ headers) tw ((tn, tv), clean) =
    let key = text-append (to_lowercase wanted) beyond (to_lowercase-IsText wanted tw) in
    let rest = get_header-key beyond wanted headers tw clean in
    elim (Bool-cases (same (to_lowercase h.name) (to_lowercase wanted ++ text beyond))) [
      | inl e ↦
          rw (copied_self h.name tn, key, e)
            ([], h, headers, refl, tt, same_eq _ _ e, copied_self h.value tv)
      | inr e ↦ rw (copied_self h.name tn, key, e) (FindsHeader-cons _ h headers _ (same_ne e) rest)
    ]

-- If a zero byte happens to stand behind the copy of the wanted name, get_header finds the first header
-- of that name, whatever the case of its letters, or tells that there is none.
pub get_header_lem :
    (rest wanted : Bytes) (headers : List Header)
    → IsText wanted
    → All IsClean headers
    → FindsHeader (to_lowercase wanted) headers (get_header (0 ∷ rest) headers wanted)
unfolding text
get_header_lem rest wanted headers tw clean =
    subst (λ key. FindsHeader key headers (get_header (0 ∷ rest) headers wanted))
      (append-nil (to_lowercase wanted)) (get_header-key (0 ∷ rest) wanted headers tw clean)

longer_ne :
    (name wanted : Bytes) (c : ℕ) (rest : Bytes)
    → length name ≤ length wanted
    → to_lowercase name ≢ to_lowercase wanted ++ c ∷ rest
longer_ne name wanted c rest short e = omega (
  arith,
  short,
  ap length e,
  length-to_lowercase name,
  length-to_lowercase wanted,
  length-append (to_lowercase wanted) (c ∷ rest),
)

FindsHeader-none :
    (key : Bytes) (headers : List Header) (o : Option Bytes)
    → All (λ x. to_lowercase x.name ≢ key) headers
    → FindsHeader key headers o
    → o ≡ none
FindsHeader-none key headers none all found = refl
FindsHeader-none key headers (some v) all (before, h, after, e, others, named, value) =
    absurd
      (not_here before h after (subst (λ l. All (λ x. to_lowercase x.name ≢ key) l) e all) named)
  where
    not_here :
        (before : List Header) (h : Header) (after : List Header)
        → All (λ x. to_lowercase x.name ≢ key) (before ++ h ∷ after)
        → to_lowercase h.name ≢ key
    not_here [] h after (ne, all) = ne
    not_here (x ∷ before) h after (ne, all) = not_here before h after all

All-longer :
    (headers : List Header) (wanted : Bytes) (c : ℕ) (rest : Bytes)
    → All (λ h. length h.name ≤ length wanted) headers
    → All (λ h. to_lowercase h.name ≢ to_lowercase wanted ++ c ∷ rest) headers
All-longer [] wanted c rest all = tt
All-longer (h ∷ headers) wanted c rest (short, all) =
    (longer_ne h.name wanted c rest short, All-longer headers wanted c rest all)

-- If another byte stands behind the copy, get_header finds no header whose name is not longer than the
-- wanted one, the wanted header included.
pub get_header_unterminated :
    (c : ℕ) (rest wanted : Bytes) (headers : List Header)
    → c ≢ 0
    → IsText wanted
    → All IsClean headers
    → All (λ h. length h.name ≤ length wanted) headers
    → get_header (c ∷ rest) headers wanted ≡ none
get_header_unterminated c rest wanted headers ne tw clean short =
    let found = get_header-key (c ∷ rest) wanted headers tw clean in
    let key = text-append (c ∷ []) rest (ne, tt) in
    FindsHeader-none _ headers _ (All-longer headers wanted c (text rest) short) (
      subst
        (λ k. FindsHeader (to_lowercase wanted ++ k) headers (get_header (c ∷ rest) headers wanted))
        key found)

-- On slices without a zero byte http_request_from copies the method, the path and the headers, and
-- leaves the body and the JSON document what they were.
pub http_request_from_lem {ℓ} :
    {Json : Type ℓ} (empty : HttpRequest Json) (method path : Bytes) (headers : List Header)
    → IsText method
    → IsText path
    → http_request_from empty method path headers ≡ record empty {
      method = method;
      path = path;
      headers = headers;
      method_len = length method;
      path_len = length path;
      num_headers = length headers;
    }
unfolding http_request_from
http_request_from_lem empty method path headers tm tp =
    rw
      (
        copied_self method tm,
        copied_self path tp,
        take_all (length method + 1) method (omega arith),
        take_all (length path + 1) path (omega arith),
        text_lem method tm,
        text_lem path tp,
      )
      refl
