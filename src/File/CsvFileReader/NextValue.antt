-- ===== src/File/CsvFileReader/NextValue.antt =====
-- `nextValue` against what a field is.
use mathlib.Core.List.{append_assoc, append-nil}
use premir_cpp.Common.{
  ℕ, zero, suc, ◌+◌, ◌≤◌, ◌<◌, ◌≡◌, refl, sym, subst, Bool, true, false, ◌&&◌, List, [], ◌∷◌, ◌++◌,
  arith, leb, ◌==◌, length, length-append, Bool-cases, inl, inr,
}
use premir_cpp.Common.Run.{Returns, returns, Returns-bind, Returns-weaken}
use premir_cpp.Utils.Memory.{Block}
use premir_cpp.File.CsvFileReader.{
  CsvFileReader, newline, nul, read_quoted, end_of_file, end_of_line, next_value_loop, next_value,
}
use premir_cpp.File.CsvFileReader.Scan.{Field, at_newline, prepend, scan, written, after}
use premir_cpp.Utils.Memory.Writes.{Holds}
use premir_cpp.File.CsvFileReader.Buffer.{put_char-Holds, remove_cr-Holds, length-chomp}

length-snoc : (cs : List ℕ) (c : ℕ) → length (cs ++ c ∷ []) ≡ suc (length cs)
length-snoc cs c = omega (arith, length-append cs (c ∷ []))

-- The call returned what `field` says: the count of its bytes, in the buffer what is `written`
-- for them, and the reader behind it.
pub record Reads (n : ℕ) (r : CsvFileReader) (field : Field) (result : ℕ × Block ℕ × CsvFileReader)
    : Type 0 where
  pub count : result.0 ≡ length field.text
  pub holds : Holds n (written field.text field.ending) result.1
  pub reader : result.2 ≡ after r (length field.text) field.ending field.rest

module _ (r : CsvFileReader) (size n : ℕ) (quoting : Bool) (fits : size ≤ n) where
  field_at : Bool → List ℕ → List ℕ → Field
  field_at inside pre input = prepend pre (scan quoting r.separator r.str_quote inside input)

  -- The quoted part is read, and the rest of the field is not.
  record Quoted (field : Field) (input : List ℕ) (result : Block ℕ × ℕ × List ℕ) : Type 0 where
    total : List ℕ
    count : result.1 ≡ length total
    holds : Holds n total result.0
    same : field ≡ field_at false total result.2
    shorter : length result.2 ≤ length input

  read_quoted-Quoted :
      (input pre : List ℕ) (buffer : Block ℕ)
      → Holds n pre buffer
      → length (field_at true pre input).text < size
      → Returns
          (Quoted (field_at true pre input) input)
          (read_quoted r.str_quote size input buffer (length pre))
  unfolding read_quoted scan field_at
  read_quoted-Quoted [] pre buffer h room =
      returns (record { total = pre; count = refl; holds = h; same = refl; shorter = omega arith })
  read_quoted-Quoted (ch ∷ input) pre buffer h room = elim (Bool-cases (ch == r.str_quote)) [
    | inl closing ↦ rw closing (
        returns
          (record { total = pre; count = refl; holds = h; same = refl; shorter = omega arith }))
    | inr inside ↦
        let field = scan quoting r.separator r.str_quote true input in
        let further = sym (append_assoc pre (ch ∷ []) field.text) in
        let room' : length (prepend (pre ++ ch ∷ []) field).text < size =
          rw (inside, further) at room in
        let short : length pre < size =
          omega (arith, room', length-append (pre ++ ch ∷ []) field.text, length-snoc pre ch) in
        let free : leb size (length pre) ≡ false = ground (arith, short) in
        rw (inside, free, further)
          (Returns-bind (put_char-Holds ch h (omega (arith, short, fits))) λ b held.
            rw (sym (length-snoc pre ch)) (
              Returns-weaken (read_quoted-Quoted input (pre ++ ch ∷ []) b held room') λ result q.
                record {
                  total = q.total;
                  count = q.count;
                  holds = q.holds;
                  same = q.same;
                  shorter = omega (arith, q.shorter);
                }))
  ]

  Read : List ℕ → List ℕ → ℕ × Block ℕ × CsvFileReader → Type 0
  Read pre input = Reads n r (field_at false pre input)

  end_of_line-Reads :
      (pre input : List ℕ) (buffer : Block ℕ)
      → Holds n pre buffer
      → length pre < size
      → Returns
          (Reads n r (record { text = pre; ending = at_newline; rest = input }))
          (end_of_line r input buffer (length pre))
  unfolding end_of_line
  end_of_line-Reads pre input buffer h short = Returns-bind (remove_cr-Holds h) λ cleaned c.
      rw (sym (length-chomp pre)) (
        Returns-bind (put_char-Holds nul c (omega (arith, short, fits, length-chomp pre)))
          λ b ended. returns (record { count = length-chomp pre; holds = ended; reader = refl }))

  next_value_loop-Reads :
      (k : ℕ) (input pre : List ℕ) (buffer : Block ℕ)
      → length input < k
      → r.fp.broken ≡ false
      → Holds n pre buffer
      → length (field_at false pre input).text < size
      → Returns (Read pre input) (next_value_loop k r size quoting input buffer (length pre))
  unfolding next_value_loop scan field_at Read end_of_file
  next_value_loop-Reads zero input pre buffer fuel sound h room = absurd (omega arith)
  next_value_loop-Reads (suc k) [] pre buffer fuel sound h room =
      rw (sound, append-nil pre) (returns (record { count = refl; holds = h; reader = refl }))
  next_value_loop-Reads (suc k) (ch ∷ input) pre buffer fuel sound h room =
      let short : length pre < size = omega (
        arith,
        room,
        length-append pre (scan quoting r.separator r.str_quote false (ch ∷ input)).text,
      ) in
      let free : leb size (length pre) ≡ false = ground (arith, short) in
      rw free (elim (Bool-cases (ch == newline)) [
        | inl line ↦ rw (line, append-nil pre) (end_of_line-Reads pre input buffer h short)
        | inr within ↦ elim (Bool-cases (quoting && (ch == r.str_quote))) [
          | inl opening ↦
              rw (within, opening)
                (Returns-bind (read_quoted-Quoted input pre buffer h (rw (within, opening) at room))
                  λ (b, j, rest) q.
                    rw (q.count, q.same)
                      (next_value_loop-Reads k rest q.total b (omega (arith, fuel, q.shorter)) sound
                        q.holds
                        (subst (λ field. length field.text < size) q.same
                          (rw (within, opening) at room))))
          | inr bare ↦ elim (Bool-cases (ch == r.separator)) [
            | inl stop ↦
                rw (within, bare, stop, append-nil pre)
                  (Returns-bind (put_char-Holds nul h (omega (arith, short, fits)))
                    λ b ended. returns (record { count = refl; holds = ended; reader = refl }))
            | inr other ↦
                let further = sym (
                  append_assoc pre (ch ∷ [])
                    (scan quoting r.separator r.str_quote false input).text) in
                rw (within, bare, other, further)
                  (Returns-bind (put_char-Holds ch h (omega (arith, short, fits))) λ b held.
                    rw (sym (length-snoc pre ch)) (
                      next_value_loop-Reads k input (pre ++ ch ∷ []) b (omega (arith, fuel)) sound
                        held (rw (within, bare, other, further) at room)))
          ]
        ]
      ])

-- If the file is sound and the text of the next field is shorter than `bufferSize`, which is at most
-- the size of the buffer, `nextValue` returns the number of its bytes, with the bytes in the buffer
-- and, unless the file ended, a NUL behind them, and the reader stands behind the field. If the field
-- ends a line and its last byte is a CR, that byte is counted, but the buffer has a NUL in its place.
pub next_value-Reads :
    (r : CsvFileReader) (buffer : Block ℕ) (size : ℕ) (quoting : Bool)
    → r.fp.broken ≡ false
    → size ≤ length buffer
    → length (scan quoting r.separator r.str_quote false r.fp.unread).text < size
    → Returns
        (Reads (length buffer) r (scan quoting r.separator r.str_quote false r.fp.unread))
        (next_value r buffer size quoting)
unfolding next_value field_at Read
next_value-Reads r buffer size quoting sound fits room =
    next_value_loop-Reads r size (length buffer) quoting fits (length r.fp.unread + 1) r.fp.unread
      [] buffer (omega arith) sound
      (record { begins = record { spare = buffer; split = refl }; cells = refl }) room
