-- ===== src/File/CsvFileReader/EndLine.antt =====
-- `toEndLine` on a line, and on the last one.
use premir_cpp.Common.{
  ℕ, ◌+◌, ◌≡◌, refl, true, false, List, [], ◌∷◌, ◌++◌, arith, ◌==◌, if◌then◌else◌,
}
use premir_cpp.Common.Run.{ok, throws, io_error}
use premir_cpp.File.CsvFileReader.{CsvFileReader, newline, leave, skip_line, to_end_line}
use premir_cpp.File.CsvFileReader.Enquoted.{has_byte}

module _ (r : CsvFileReader) where
  skip_line-line :
      (cs rest : List ℕ)
      → has_byte newline cs ≡ false
      → skip_line r (cs ++ newline ∷ rest)
        ≡ ok (record (leave r rest) { line_number = r.line_number + 1 })
  unfolding skip_line has_byte
  skip_line-line [] rest free = refl
  skip_line-line (c ∷ cs) rest free =
      let (here, there) : ((c == newline) ≡ false) × (has_byte newline cs ≡ false) =
        ground (arith, free) in
      rw here (skip_line-line cs rest there)

  skip_line-last :
      (cs : List ℕ)
      → has_byte newline cs ≡ false
      → skip_line r cs
        ≡ (if r.fp.broken then throws io_error else ok (record (leave r []) { is_end = true }))
  unfolding skip_line has_byte
  skip_line-last [] free = refl
  skip_line-last (c ∷ cs) free =
      let (here, there) : ((c == newline) ≡ false) × (has_byte newline cs ≡ false) =
        ground (arith, free) in
      rw here (skip_line-last cs there)

-- If the unread bytes are `cs`, without a line's end, then a line's end and `rest`, `toEndLine`
-- leaves `rest` unread and counts one line; it changes nothing else.
pub to_end_line-line :
    (r : CsvFileReader) (cs rest : List ℕ)
    → r.fp.unread ≡ cs ++ newline ∷ rest
    → has_byte newline cs ≡ false
    → to_end_line r ≡ ok (record (leave r rest) { line_number = r.line_number + 1 })
unfolding to_end_line
to_end_line-line r cs rest here free = rw here (skip_line-line r cs rest free)

-- If no unread byte ends a line, `toEndLine` throws where the device is broken; else it reads all
-- bytes and marks the end of the file, without counting a line.
pub to_end_line-last :
    (r : CsvFileReader)
    → has_byte newline r.fp.unread ≡ false
    → to_end_line r
      ≡ (if r.fp.broken then throws io_error else ok (record (leave r []) { is_end = true }))
unfolding to_end_line
to_end_line-last r free = skip_line-last r r.fp.unread free
