-- ===== src/Tests/Texts.antt =====
-- The helpers on names, lines and buffers.
use pronto.Prelude.{
  ◌+◌, ◌≡◌, ◌⊎◌, ◌≤◌, ◌<◌, refl, none, some, [], ◌++◌, ◌==◌, length, if◌then◌else◌, arith,
}
use pronto.Bytes.{Bytes, codes}
use pronto.Response.Create.{nonzero-IsText}
use pronto.Filename.{octet_stream, filename_to_mimetype_header}
use pronto.Filename.Types.{type_of, types, filename_to_mimetype_header_lem}
use pronto.Context.{
  ConnectionContext, context_init, Written, wrote, exited, overrun, write_at, grow, context_write,
}
use pronto.Context.Writes.{Stored, context_write_lem, context_init-IsWhole}

filename_to_mimetype_header_lem_example :
    (filename_to_mimetype_header 7 (codes "index.v2" ++ codes ".html")
      ≡ some (type_of types (codes "html")))
    × (filename_to_mimetype_header 7 (codes ".html") ≡ none)
    × (filename_to_mimetype_header 7 (codes "html")
        ≡ some (if 7 == b'.' then type_of types (codes "html") else octet_stream))
filename_to_mimetype_header_lem_example =
    filename_to_mimetype_header_lem 7 b'i' (codes "ndex.v2") (codes "html")
      (nonzero-IsText (codes "html") refl) ((λ h. cc), ((λ h. cc), ((λ h. cc), ((λ h. cc), tt))))

abbrev unset : ConnectionContext
unset = record { length = 3; block = []; allocations = 3; buf_size = 3; fd = 8 }

abbrev fresh : ConnectionContext
fresh = context_init unset 10

context_write_lem_example :
    ((10 < length (codes "twelve bytes"))
      × (context_write (λ i. 7) fresh (codes "twelve bytes") ≡ exited))
    ⊎ (((length (codes "twelve bytes") ≤ 10)
          × (length fresh.block < fresh.length + length (codes "twelve bytes"))
          × (context_write (λ i. 7) fresh (codes "twelve bytes") ≡ overrun))
        ⊎ ((length (codes "twelve bytes") ≤ 10)
            × (fresh.length + length (codes "twelve bytes") ≤ length fresh.block)
            × Stored (λ i. 7) fresh (codes "twelve bytes")))
unfolding context_init
context_write_lem_example =
    context_write_lem (λ i. 7) fresh (codes "twelve bytes")
      (context_init-IsWhole unset 10 (omega arith) (omega arith)) (omega arith) (omega arith)

abbrev and_then : Written → Bytes → Written
and_then (wrote c) bytes = context_write (λ i. 7) c bytes
and_then exited bytes = exited
and_then overrun bytes = overrun

-- Two writes of six bytes do not fit a buffer of ten, and nothing checks that.
six-overrun : and_then (context_write (λ i. 7) fresh (codes "abcdef")) (codes "ghijkl") ≡ overrun
unfolding context_init context_write write_at grow
six-overrun = refl
