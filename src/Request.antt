-- ===== src/Request.antt =====
-- A request as the handlers see it (srv/lib/http_request.c), and the helpers of srv/lib/utils.c that
-- read its headers. C strings are lists of bytes up to the terminator.
pub mod Strings
pub mod Headers
pub mod Number
use pronto.Prelude.{
  ℕ, suc, ◌+◌, ◌*◌, ◌-◌, ◌^◌, Bool, true, false, ◌&&◌, ◌||◌, Option, none, some, List, [], ◌∷◌,
  ◌++◌, ◌==◌, ltb, leb, length, take, if◌then◌else◌,
}
use pronto.Word.{u32}
use pronto.Bytes.{Bytes, codes}
use pronto.Response.Buffer.{text}

-- phr_header: a slice of the buffer for the name, and one for the value.
pub record Header : Type 0 where
  pub name : Bytes
  pub value : Bytes

-- http_request: `none` stands for a NULL json_body.
pub record HttpRequest {ℓ} (Json : Type ℓ) : Type ℓ where
  pub method : Bytes
  pub path : Bytes
  pub headers : List Header
  pub body : Bytes
  pub json_body : Option Json
  pub method_len : ℕ
  pub path_len : ℕ
  pub num_headers : ℕ

-- strcmp(a, b) == 0
unfoldable pub same : Bytes → Bytes → Bool
same [] [] = true
same [] (b ∷ y) = false
same (a ∷ x) [] = false
same (a ∷ x) (b ∷ y) = (a == b) && same x y

-- The C string that strncpy(dst, src, n); dst[n] = 0 leaves, from the bytes at `src` on.
abbrev pub copied : ℕ → Bytes → Bytes
copied n src = text (take n src)

-- http_request_from: the fields that it does not set stay what they were.
unfoldable pub http_request_from {ℓ} :
    {Json : Type ℓ} → HttpRequest Json → Bytes → Bytes → List Header → HttpRequest Json
http_request_from empty method path headers =
    let actual_method = copied (length method) method in
    let actual_path = copied (length path) path in
    record empty {
      method = copied (length method + 1) actual_method;
      path = copied (length path + 1) actual_path;
      headers = headers;
      method_len = length method;
      path_len = length path;
      num_headers = length headers;
    }

-- tolower of the C locale.
unfoldable pub tolower : ℕ → ℕ
tolower c = if leb b'A' c && leb c b'Z' then c + 32 else c

unfoldable pub to_lowercase : Bytes → Bytes
unfolding tolower
to_lowercase [] = []
to_lowercase (c ∷ s) = tolower c ∷ to_lowercase s

-- `wanted_header_clone` is as long as the name, without a terminator: `beyond` is what memory holds
-- behind it.
unfoldable pub get_header : Bytes → List Header → Bytes → Option Bytes
unfolding to_lowercase
get_header beyond [] wanted = none
get_header beyond (h ∷ headers) wanted =
    let wanted_header_clone = text (to_lowercase wanted ++ beyond) in
    let header_name = to_lowercase (copied (length h.name) h.name) in
    let rest = get_header beyond headers wanted in
    if same header_name wanted_header_clone then some (copied (length h.value) h.value) else rest

-- atoi: white space, a sign, digits up to the first byte that is none.
abbrev pub is_digit : ℕ → Bool
is_digit c = leb b'0' c && leb c b'9'

unfoldable pub number : ℕ → Bytes → ℕ
number n [] = n
number n (c ∷ s) = let on = number (n * 10 + (c - b'0')) s in if is_digit c then on else n

abbrev pub is_space : ℕ → Bool
is_space c = c == b' ' || (leb 9 c && leb c 13)

unfoldable pub skip_space : Bytes → Bytes
skip_space [] = []
skip_space (c ∷ s) = if is_space c then skip_space s else c ∷ s

abbrev pub min : ℕ → ℕ → ℕ
min a b = if ltb a b then a else b

-- The result is that of strtol, a `long` that stops at its bounds, converted to `int`.
unfoldable pub signed_number : Bytes → ℕ
unfolding number
signed_number [] = 0
signed_number (c ∷ s) =
    if c == b'-'
    then u32 (2 ^ 64 - min (number 0 s) (2 ^ 63))
    else (if c == b'+'
        then u32 (min (number 0 s) (2 ^ 63 - 1))
        else u32 (min (number 0 (c ∷ s)) (2 ^ 63 - 1)))

unfoldable pub atoi : Bytes → ℕ
unfolding skip_space signed_number
atoi s = signed_number (skip_space s)
