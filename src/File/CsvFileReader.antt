-- ===== src/File/CsvFileReader.antt =====
-- src/file/CsvFileReader.h, class `CsvFileReader`, as built for other systems than Windows. A byte is
-- its code. `separator` and `strQuote` are ASCII, so their comparison with what `fgetc` returns is
-- that of the codes. Of the logging only the reads of the buffer are kept, and the size that is
-- printed by `%d` is taken to be printed. The conversions by atof, atoi and atol, which follow
-- `nextValue` in `read`, are the C library's.
pub mod Scan
pub mod Buffer
pub mod NextValue
pub mod Limits
pub mod Enquoted
pub mod EndLine
mod Tests
use premir_cpp.Common.{
  ℕ, zero, suc, ◌+◌, Bool, true, false, ◌&&◌, List, [], ◌∷◌, none, some, ltb, leb, ◌==◌,
  if◌then◌else◌, length, get_elem?, set,
}
use premir_cpp.Common.Run.{
  Run, ok, throws, buffer_overfull, io_error, undefined, out_of_fuel, ◌>>=◌, defined,
}
use premir_cpp.Utils.Memory.{Block}

-- `FILE *fp`, open for reading: `fgetc` takes the next unread byte. Behind the last one it returns
-- `EOF`, for the end of the file or, when the device is broken, for a read error; `feof` tells.
pub record File : Type 0 where
  pub contents : List ℕ
  pub unread : List ℕ
  pub broken : Bool

pub record CsvFileReader : Type 0 where
  pub fp : File
  pub line_number : ℕ
  pub is_end : Bool
  pub empty_read : Bool
  pub separator : ℕ
  pub str_quote : ℕ

-- '\n', '\r' and '\0'.
abbrev pub newline : ℕ
newline = 10

abbrev pub carriage_return : ℕ
carriage_return = 13

abbrev pub nul : ℕ
nul = 0

-- The constructor, on a file that fopen has opened.
abbrev pub new : File → ℕ → CsvFileReader
new fp sep = record {
  fp = fp;
  line_number = 0;
  is_end = false;
  empty_read = false;
  separator = sep;
  str_quote = 34;
}

abbrev pub set_str_quote : CsvFileReader → ℕ → CsvFileReader
set_str_quote r quote = record r { str_quote = quote }

-- What `fgetc` leaves in the file.
abbrev pub leave : CsvFileReader → List ℕ → CsvFileReader
leave r input = record r { fp = record r.fp { unread = input } }

unfoldable pub rewind_reader : CsvFileReader → CsvFileReader
rewind_reader r = record r {
  fp = record r.fp { unread = r.fp.contents };
  line_number = 0;
  is_end = false;
  empty_read = false;
}

-- The loop of `toEndLine`, over the bytes that are unread.
unfoldable pub skip_line : CsvFileReader → List ℕ → Run CsvFileReader
skip_line r [] = if r.fp.broken then throws io_error else ok (record (leave r []) { is_end = true })
skip_line r (ch ∷ input) =
    if ch == newline
    then ok (record (leave r input) { line_number = r.line_number + 1 })
    else skip_line r input

unfoldable pub to_end_line : CsvFileReader → Run CsvFileReader
unfolding skip_line
to_end_line r = skip_line r r.fp.unread

-- `buffer[i] = ch`.
unfoldable pub put_char : Block ℕ → ℕ → ℕ → Run (Block ℕ)
put_char buffer i ch = if ltb i (length buffer) then ok (set buffer i (some ch)) else undefined

-- `if (i > 0 && buffer[i - 1] == '\r') buffer[i - 1] = '\0'`.
unfoldable pub remove_cr : Block ℕ → ℕ → Run (Block ℕ)
unfolding put_char
remove_cr buffer zero = ok buffer
remove_cr buffer (suc i) = do
  content ← defined (get_elem? buffer i)
  ch ← defined content
  if ch == carriage_return then put_char buffer i nul else ok buffer

-- Where the buffer is full: `LOG` prints it with `%s`, which reads up to a NUL, before the throw.
unfoldable pub report_overfull {ℓ} : {A : Type ℓ} → Block ℕ → Run A
report_overfull [] = undefined
report_overfull (none ∷ buffer) = undefined
report_overfull (some ch ∷ buffer) =
    if ch == nul then throws buffer_overfull else report_overfull buffer

-- The inner loop of `nextValue`, behind an opening quote.
unfoldable pub read_quoted : ℕ → ℕ → List ℕ → Block ℕ → ℕ → Run (Block ℕ × ℕ × List ℕ)
unfolding put_char report_overfull
read_quoted quote buffer_size [] buffer i = ok (buffer, i, [])
read_quoted quote buffer_size (ch ∷ input) buffer i =
    if ch == quote
    then ok (buffer, i, input)
    else if leb buffer_size i
    then report_overfull buffer
    else (put_char buffer i ch >>= λ b. read_quoted quote buffer_size input b (suc i))

-- `nextValue` at `EOF` and at '\n'.
unfoldable pub end_of_file : CsvFileReader → Block ℕ → ℕ → Run (ℕ × Block ℕ × CsvFileReader)
end_of_file r buffer i =
    if r.fp.broken
    then throws io_error
    else ok (
      i,
      buffer,
      record (leave r []) { is_end = true; empty_read = if i == 0 then true else r.empty_read },
    )

unfoldable pub end_of_line :
    CsvFileReader → List ℕ → Block ℕ → ℕ → Run (ℕ × Block ℕ × CsvFileReader)
unfolding remove_cr put_char
end_of_line r input buffer i = do
  cleaned ← remove_cr buffer i
  ended ← put_char cleaned i nul
  ok (i, ended, record (leave r input) { line_number = r.line_number + 1 })

-- The outer loop of `nextValue`, on fuel, over the bytes that are unread.
unfoldable pub next_value_loop :
    ℕ
    → CsvFileReader
    → (buffer_size : ℕ) (use_str_quote : Bool) → List ℕ
    → Block ℕ
    → ℕ
    → Run (ℕ × Block ℕ × CsvFileReader)
unfolding end_of_file end_of_line read_quoted put_char report_overfull
next_value_loop zero r buffer_size use_str_quote input buffer i = out_of_fuel
next_value_loop (suc k) r buffer_size use_str_quote [] buffer i = end_of_file r buffer i
next_value_loop (suc k) r buffer_size use_str_quote (ch ∷ input) buffer i =
    let quoted : Run (ℕ × Block ℕ × CsvFileReader) = do
      (b, j, rest) ← read_quoted r.str_quote buffer_size input buffer i
      next_value_loop k r buffer_size use_str_quote rest b j
    in let plain : Run (ℕ × Block ℕ × CsvFileReader) = do
      b ← put_char buffer i ch
      next_value_loop k r buffer_size use_str_quote input b (suc i)
      in if leb buffer_size i
        then report_overfull buffer
        else if ch == newline
        then end_of_line r input buffer i
        else if use_str_quote && (ch == r.str_quote)
        then quoted
        else if ch == r.separator
        then (do b ← put_char buffer i nul; ok (i, b, leave r input))
        else plain

unfoldable pub next_value : CsvFileReader → Block ℕ → ℕ → Bool → Run (ℕ × Block ℕ × CsvFileReader)
unfolding next_value_loop
next_value r buffer buffer_size use_str_quote =
    next_value_loop (length r.fp.unread + 1) r buffer_size use_str_quote r.fp.unread buffer 0
