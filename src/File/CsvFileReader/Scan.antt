-- ===== src/File/CsvFileReader/Scan.antt =====
-- What a field of a file of separated values is.
use premir_cpp.Common.{ℕ, ◌+◌, Bool, true, false, ◌&&◌, List, [], ◌∷◌, ◌++◌, ◌==◌, if◌then◌else◌}
use premir_cpp.File.CsvFileReader.{CsvFileReader, newline, carriage_return, nul, leave}

pub data Ending : Type 0 where
  at_separator at_newline at_end : Ending

-- The bytes of a field, what ended it, and the bytes behind that.
pub record Field : Type 0 where
  pub text : List ℕ
  pub ending : Ending
  pub rest : List ℕ

abbrev pub prepend : List ℕ → Field → Field
prepend cs field = record field { text = cs ++ field.text }

-- The field that starts the bytes; the first argument says whether they start inside quotes.
unfoldable pub scan : (use_str_quote : Bool) (separator quote : ℕ) → Bool → List ℕ → Field
scan quoting separator quote inside [] = record { text = []; ending = at_end; rest = [] }
scan quoting separator quote true (ch ∷ input) =
    if ch == quote
    then scan quoting separator quote false input
    else prepend (ch ∷ []) (scan quoting separator quote true input)
scan quoting separator quote false (ch ∷ input) =
    if ch == newline
    then record { text = []; ending = at_newline; rest = input }
    else if quoting && (ch == quote)
    then scan quoting separator quote true input
    else if ch == separator
    then record { text = []; ending = at_separator; rest = input }
    else prepend (ch ∷ []) (scan quoting separator quote false input)

-- A '\r' at the end of a line counts as a byte, but becomes a '\0'.
abbrev pub chomp : List ℕ → List ℕ
chomp [] = []
chomp (c ∷ []) = (if c == carriage_return then nul else c) ∷ []
chomp (c ∷ d ∷ cs) = c ∷ chomp (d ∷ cs)

-- What the buffer begins with afterwards. At the end of the file nothing terminates the text.
abbrev pub written : List ℕ → Ending → List ℕ
written cs at_separator = cs ++ nul ∷ []
written cs at_newline = chomp cs ++ nul ∷ []
written cs at_end = cs

-- The reader afterwards, for a field that ended like this with `n` bytes.
abbrev pub after : CsvFileReader → ℕ → Ending → List ℕ → CsvFileReader
after r n at_separator rest = leave r rest
after r n at_newline rest = record (leave r rest) { line_number = r.line_number + 1 }
after r n at_end rest = record (leave r rest) {
  is_end = true;
  empty_read = if n == 0 then true else r.empty_read;
}
