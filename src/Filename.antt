-- ===== src/Filename.antt =====
-- Content types by file name (filename_to_extension and filename_to_mimetype_header of
-- srv/lib/utils.c); no code calls them.
pub mod Types
use pronto.Prelude.{
  ℕ, zero, suc, ◌+◌, ◌-◌, Option, none, some, List, [], ◌∷◌, ◌==◌, length, drop, if◌then◌else◌,
}
use pronto.Bytes.{Bytes, codes}
use pronto.Request.{same, copied}

-- filename[i], the terminator included.
unfoldable pub byte_at : Bytes → ℕ → ℕ
byte_at [] i = 0
byte_at (c ∷ s) zero = c
byte_at (c ∷ s) (suc i) = byte_at s i

-- The loop, at i = n - 1. At i = -1 it reads filename[-1] and ends, whatever it reads.
unfoldable pub seek : Bytes → ℕ → ℕ
unfolding byte_at
seek filename zero = zero
seek filename (suc i) =
    let rest = seek filename i in if byte_at filename i == b'.' then suc i else rest

-- `before` is the byte in front of the name; `none` stands for NULL. Without a dot the copy starts at
-- filename[-1].
unfoldable pub filename_to_extension : ℕ → Bytes → Option Bytes
unfolding seek
filename_to_extension before filename =
    let n = seek filename (length filename) in
    if n == 1 then none else some (copied (length filename + 1 - n) (drop n (before ∷ filename)))

abbrev pub octet_stream : Bytes
octet_stream = codes "Content-Type: application/octet-stream\n"

unfoldable pub mimetype : Bytes → Bytes
mimetype file_extension =
    if same (codes ".html") file_extension
    then codes "Content-Type: text/html; charset=utf-8\n"
    else (if same (codes ".txt") file_extension
        then codes "Content-Type: text/plain; charset=utf-8\n"
        else (if same (codes ".jpg") file_extension
            then codes "Content-Type: image/jpeg\n"
            else (if same (codes ".jpeg") file_extension
                then codes "Content-Type: image/jpeg\n"
                else (if same (codes ".css") file_extension
                    then codes "Content-Type: text/css\n"
                    else octet_stream))))

-- strcmp on NULL is a failure.
abbrev pub typed : Option Bytes → Option Bytes
typed none = none
typed (some file_extension) = some (mimetype file_extension)

unfoldable pub filename_to_mimetype_header : ℕ → Bytes → Option Bytes
unfolding filename_to_extension mimetype
filename_to_mimetype_header before filename = typed (filename_to_extension before filename)
