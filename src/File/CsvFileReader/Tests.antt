-- ===== src/File/CsvFileReader/Tests.antt =====
-- Fields of a small file.
use premir_cpp.Common.{
  ◌+◌, ℕ, ◌≡◌, refl, Bool, true, false, List, [], ◌∷◌, none, some, replicate, arith,
}
use premir_cpp.Common.Run.{ok, throws, undefined, io_error, buffer_overfull, Returns}
use premir_cpp.Utils.Memory.{Block}
use premir_cpp.File.CsvFileReader.{to_end_line, CsvFileReader, new, next_value}
use premir_cpp.File.CsvFileReader.Scan.{at_separator, scan}
use premir_cpp.File.CsvFileReader.NextValue.{Reads, next_value-Reads}
use premir_cpp.File.CsvFileReader.Limits.{is_string, next_value-overfull, next_value-broken}
use premir_cpp.File.CsvFileReader.Enquoted.{has_byte, enquote, next_value-enquote}
use premir_cpp.File.CsvFileReader.EndLine.{to_end_line-line}

-- A reader of a file with these bytes, separated by commas.
abbrev reader : Bool → List ℕ → CsvFileReader
reader broken bytes = new (record { contents = bytes; unread = bytes; broken = broken }) 44

abbrev buffer : Block ℕ
buffer = replicate 8 none

abbrev two_fields : List ℕ
two_fields = 97 ∷ 98 ∷ 44 ∷ 99 ∷ 13 ∷ 10 ∷ 100 ∷ []

first_field :
    next_value (reader false two_fields) buffer 8 false
    ≡ ok (
      2,
      some 97 ∷ some 98 ∷ some 0 ∷ replicate 5 none,
      record (reader false two_fields) {
        fp = record { contents = two_fields; unread = 99 ∷ 13 ∷ 10 ∷ 100 ∷ []; broken = false };
      },
    )
unfolding next_value
first_field = refl

-- The '\r' is counted, and becomes a '\0'.
second_field :
    next_value (reader false (99 ∷ 13 ∷ 10 ∷ [])) buffer 8 false
    ≡ ok (
      2,
      some 99 ∷ some 0 ∷ some 0 ∷ replicate 5 none,
      record (reader false (99 ∷ 13 ∷ 10 ∷ [])) {
        fp = record { contents = 99 ∷ 13 ∷ 10 ∷ []; unread = []; broken = false };
        line_number = 1;
      },
    )
unfolding next_value
second_field = refl

next_value-Reads_example :
    Returns
      (Reads 8 (reader false two_fields) (scan true 44 34 false two_fields))
      (next_value (reader false two_fields) buffer 8 true)
unfolding scan
next_value-Reads_example =
    next_value-Reads (reader false two_fields) buffer 8 true refl (omega arith) (omega arith)

-- As `read(char &)` calls it: the message about the full buffer reads past its end.
next_value-overfull_example :
    next_value (reader false two_fields) (some 0 ∷ none ∷ []) 2 false ≡ undefined
unfolding scan has_byte is_string
next_value-overfull_example =
    next_value-overfull (reader false two_fields) (some 0 ∷ none ∷ []) 2 (omega arith) (omega arith)

-- With a NUL behind the bytes that the size allows, the call throws.
overfull_string :
    next_value (reader false two_fields) (replicate 3 (some 0)) 2 false ≡ throws buffer_overfull
unfolding next_value
overfull_string = refl

next_value-broken_example : next_value (reader true (97 ∷ [])) buffer 8 false ≡ throws io_error
unfolding scan
next_value-broken_example =
    next_value-broken (reader true (97 ∷ [])) buffer 8 (omega arith) refl refl (omega arith)

-- The text between the quotes is a comma.
abbrev comma : List ℕ
comma = enquote 34 (44 ∷ []) (44 ∷ [])

next_value-enquote_example :
    Returns
      (Reads 8 (reader false comma) (record { text = 44 ∷ []; ending = at_separator; rest = [] }))
      (next_value (reader false comma) buffer 8 true)
unfolding has_byte
next_value-enquote_example =
    next_value-enquote (reader false comma) buffer 8 (44 ∷ []) [] refl (omega arith) (omega arith)
      refl refl refl refl refl

to_end_line-line_example :
    to_end_line (reader false two_fields)
    ≡ ok (record (reader false two_fields) {
      fp = record { contents = two_fields; unread = 100 ∷ []; broken = false };
      line_number = 0 + 1;
    })
unfolding has_byte
to_end_line-line_example =
    to_end_line-line (reader false two_fields) (97 ∷ 98 ∷ 44 ∷ 99 ∷ 13 ∷ []) (100 ∷ []) refl refl
