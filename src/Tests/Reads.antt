-- ===== src/Tests/Reads.antt =====
-- The reading loop on short inputs; a request is complete when four bytes are there.
use pronto.Prelude.{ℕ, ◌≡◌, ◌≢◌, refl, none, some, List, [], ◌∷◌, ltb, length, arith, if◌then◌else◌}
use pronto.Bytes.{Bytes, codes}
use pronto.Reading.{
  again, received, ReadResult, ParseResult, incomplete, parsed, overflow, finished, read_loop,
}
use pronto.Reading.Bounds.{read_loop_inside}
use pronto.Reading.Parsed.{read_loop_complete, read_loop_lost}

abbrev parse : Bytes → ℕ → ParseResult Bytes
parse buffer prevbuflen = if ltb (length buffer) 4 then incomplete else parsed 4 buffer

abbrev halves : List ReadResult
halves = received (codes "GE") ∷ received (codes "T /") ∷ []

abbrev late : List ReadResult
late = received (codes "GET /") ∷ []

read_loop_inside_example : read_loop parse halves none [] 0 0 ≢ overflow
read_loop_inside_example = read_loop_inside parse halves none [] 0 0 (ground arith)

read_loop_complete_example :
    read_loop parse halves none [] 0 0 ≡ finished 4 (codes "GET /") (codes "GET /")
read_loop_complete_example =
    read_loop_complete parse (codes "GE" ∷ []) [] b'T' (codes " /") [] none 0 4 (codes "GET /") refl
      ((λ e. cc), refl, tt) (ground arith) refl

read_loop_lost_example :
    read_loop parse late (some again) [] 0 0 ≢ finished 4 (codes "GET /") (codes "GET /")
read_loop_lost_example =
    read_loop_lost parse late [] 0 0 4 (codes "GET /") (codes "GET /") ((λ e. cc), tt)
