-- ===== src/File/CsvFileReader/Enquoted.antt =====
-- A text between quotes, read back.
use mathlib.Core.List.{append-nil}
use premir_cpp.Common.{
  subst, ℕ, ◌≤◌, ◌<◌, ◌≡◌, refl, Bool, true, false, ◌||◌, List, [], ◌∷◌, ◌++◌, arith, ◌==◌, length,
  ==-refl,
}
use premir_cpp.Common.Run.{Returns}
use premir_cpp.Utils.Memory.{Block}
use premir_cpp.File.CsvFileReader.{CsvFileReader, newline, next_value}
use premir_cpp.File.CsvFileReader.Scan.{at_separator, prepend, scan}
use premir_cpp.File.CsvFileReader.NextValue.{Reads, next_value-Reads}

unfoldable pub has_byte : ℕ → List ℕ → Bool
has_byte c [] = false
has_byte c (d ∷ cs) = (d == c) || has_byte c cs

-- `"text"`, and what follows it.
abbrev pub enquote : ℕ → List ℕ → List ℕ → List ℕ
enquote quote cs rest = quote ∷ (cs ++ quote ∷ rest)

module _ (separator quote : ℕ) where
  scan-separator :
      (rest : List ℕ)
      → (separator == newline) ≡ false
      → (separator == quote) ≡ false
      → scan true separator quote false (separator ∷ rest)
        ≡ record { text = []; ending = at_separator; rest = rest }
  unfolding scan
  scan-separator rest line apart = rw (line, apart, ==-refl separator) refl

  scan_inside :
      (cs rest : List ℕ)
      → has_byte quote cs ≡ false
      → scan true separator quote true (cs ++ quote ∷ rest)
        ≡ prepend cs (scan true separator quote false rest)
  unfolding scan has_byte
  scan_inside [] rest free = rw (==-refl quote) refl
  scan_inside (c ∷ cs) rest free =
      let (here, there) : ((c == quote) ≡ false) × (has_byte quote cs ≡ false) =
        ground (arith, free) in
      rw (here, scan_inside cs rest there) refl

  scan-enquote :
      (cs rest : List ℕ)
      → has_byte quote cs ≡ false
      → (quote == newline) ≡ false
      → scan true separator quote false (enquote quote cs rest)
        ≡ prepend cs (scan true separator quote false rest)
  unfolding scan
  scan-enquote cs rest free ordinary = rw (ordinary, ==-refl quote) (scan_inside cs rest free)

-- For a sound file, a quote that is no line's end, and a separator that is neither, `nextValue` with
-- quotes reads the text `cs` that stands enquoted before a separator: any bytes but the quote, among
-- them separators and lines' ends. The text is shorter than `bufferSize`, and that at most the size
-- of the buffer.
pub next_value-enquote :
    (r : CsvFileReader) (buffer : Block ℕ) (size : ℕ) (cs rest : List ℕ)
    → r.fp.broken ≡ false
    → size ≤ length buffer
    → length cs < size
    → (r.str_quote == newline) ≡ false
    → (r.separator == newline) ≡ false
    → (r.separator == r.str_quote) ≡ false
    → has_byte r.str_quote cs ≡ false
    → r.fp.unread ≡ enquote r.str_quote cs (r.separator ∷ rest)
    → Returns
        (Reads (length buffer) r (record { text = cs; ending = at_separator; rest = rest }))
        (next_value r buffer size true)
next_value-enquote r buffer size cs rest sound fits room ordinary line apart free here =
    let read = scan-enquote r.separator r.str_quote cs (r.separator ∷ rest) free ordinary in
    let stop = scan-separator r.separator r.str_quote rest line apart in
    let field : scan true r.separator r.str_quote false r.fp.unread
        ≡ record { text = cs; ending = at_separator; rest = rest } =
      rw (here, read, stop, append-nil cs) refl in
    subst (λ f. Returns (Reads (length buffer) r f) (next_value r buffer size true)) field
      (next_value-Reads r buffer size true sound fits (rw field room))
