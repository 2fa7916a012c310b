-- ===== src/File/CsvFileReader/Limits.antt =====
-- How `nextValue` fails.
use premir_cpp.Common.{
  ℕ, zero, suc, ◌+◌, ◌-◌, ◌≤◌, ◌<◌, ◌≡◌, refl, ap, ◌∙◌, Bool, true, false, ◌||◌, List, [], ◌∷◌,
  ◌++◌, map, Option, none, some, arith, leb, ◌==◌, if◌then◌else◌, length, take, drop, set,
  Bool-cases, inl, inr, lt→ltb, length-set,
}
use premir_cpp.Common.Run.{ok, throws, io_error, buffer_overfull, undefined}
use premir_cpp.Utils.Memory.{Block}
use premir_cpp.File.CsvFileReader.{
  CsvFileReader, newline, nul, put_char, report_overfull, end_of_file, next_value_loop, next_value,
}
use premir_cpp.File.CsvFileReader.Enquoted.{has_byte}
use premir_cpp.File.CsvFileReader.Scan.{Field, at_separator, at_newline, at_end, prepend, scan}

-- The bytes that `nextValue` takes up for a field, with the one that ends it.
abbrev pub taken : Field → ℕ
taken field = length field.text + (elim field.ending [ at_end ↦ 0 | _ ↦ 1 ])

-- Does a NUL come before the end of the block and before a byte that nothing wrote?
unfoldable pub is_string : Block ℕ → Bool
is_string [] = false
is_string (none ∷ buffer) = false
is_string (some ch ∷ buffer) = (ch == nul) || is_string buffer

report_overfull-is_string :
    {A : Type 0} (buffer : Block ℕ)
    → report_overfull {A = A} buffer
      ≡ (if is_string buffer then throws buffer_overfull else undefined)
unfolding report_overfull is_string
report_overfull-is_string [] = refl
report_overfull-is_string (none ∷ buffer) = refl
report_overfull-is_string (some ch ∷ buffer) = elim (Bool-cases (ch == nul)) [
  | inl last ↦ rw last
  | inr other ↦ rw other (report_overfull-is_string buffer)
]

is_string-append :
    (cs : List ℕ) (rest : Block ℕ)
    → is_string (map some cs ++ rest) ≡ has_byte nul cs || is_string rest
unfolding is_string has_byte
is_string-append [] rest = refl
is_string-append (c ∷ cs) rest = ground (arith, is_string-append cs rest)

-- The block with these bytes written from index `i` on.
overlaid : ℕ → List ℕ → Block ℕ → Block ℕ
overlaid i [] block = block
overlaid i (c ∷ cs) block = overlaid (suc i) cs (set block i (some c))

overlaid-cons :
    (cs : List ℕ) (i : ℕ) (x : Option ℕ) (block : Block ℕ)
    → overlaid (suc i) cs (x ∷ block) ≡ x ∷ overlaid i cs block
unfolding overlaid
overlaid-cons [] i x block = refl
overlaid-cons (c ∷ cs) i x block = overlaid-cons cs (suc i) x (set block i (some c))

overlaid-front :
    (cs : List ℕ) (block : Block ℕ)
    → length cs ≤ length block
    → overlaid 0 cs block ≡ map some cs ++ drop (length cs) block
unfolding overlaid
overlaid-front [] block fits = refl
overlaid-front (c ∷ cs) [] fits = absurd (omega (arith, fits))
overlaid-front (c ∷ cs) (x ∷ block) fits =
    overlaid-cons cs 0 (some c) block
    ∙ ap (◌∷◌ (some c)) (overlaid-front cs block (omega (arith, fits)))

length-take_all : (n : ℕ) (cs : List ℕ) → n ≤ length cs → length (take n cs) ≡ n
length-take_all zero cs fits = refl
length-take_all (suc n) [] fits = absurd (omega (arith, fits))
length-take_all (suc n) (c ∷ cs) fits = ap suc (length-take_all n cs (omega (arith, fits)))

module _ (r : CsvFileReader) (size : ℕ) where
  plain : List ℕ → Field
  plain input = scan false r.separator r.str_quote false input

  put_char-ok :
      (buffer : Block ℕ) (i ch : ℕ)
      → i < length buffer
      → put_char buffer i ch ≡ ok (set buffer i (some ch))
  unfolding put_char
  put_char-ok buffer i ch h = rw (lt→ltb i (length buffer) h)

  next_value_loop-overfull :
      (k : ℕ) (input : List ℕ) (buffer : Block ℕ) (i : ℕ)
      → length input < k
      → size ≤ length buffer
      → i ≤ size
      → size < i + taken (plain input)
      → next_value_loop k r size false input buffer i
        ≡ report_overfull (overlaid i (take (size - i) (plain input).text) buffer)
  unfolding next_value_loop scan plain overlaid
  next_value_loop-overfull zero input buffer i fuel fits low high = absurd (omega arith)
  next_value_loop-overfull (suc k) [] buffer i fuel fits low high = absurd (omega arith)
  next_value_loop-overfull (suc k) (ch ∷ input) buffer i fuel fits low high =
      elim (Bool-cases (leb size i)) [
        | inl full ↦
            let none_left : size - i ≡ 0 = ground (arith, full) in rw (full, none_left) refl
        | inr free ↦ elim (Bool-cases (ch == newline)) [
          | inl line ↦ absurd (ground (arith, free, line, high))
          | inr within ↦ elim (Bool-cases (ch == r.separator)) [
            | inl stop ↦ absurd (ground (arith, free, within, stop, high))
            | inr other ↦
                let put = put_char-ok buffer i ch (ground (arith, free, fits)) in
                let high' : size < i + taken (prepend (ch ∷ []) (plain input)) =
                  rw (within, other) at high in
                let room : size - i ≡ suc (size - suc i) = ground (arith, free) in
                rw (free, within, other, put, room)
                  (next_value_loop-overfull k input (set buffer i (some ch)) (suc i)
                    (omega (arith, fuel)) (omega (arith, length-set buffer i (some ch), fits))
                    (ground (arith, free)) (omega (arith, high')))
          ]
        ]
      ]

  next_value_loop-broken :
      (k : ℕ) (input : List ℕ) (buffer : Block ℕ) (i : ℕ)
      → length input < k
      → size ≤ length buffer
      → r.fp.broken ≡ true
      → (plain input).ending ≡ at_end
      → i + length (plain input).text ≤ size
      → next_value_loop k r size false input buffer i ≡ throws io_error
  unfolding next_value_loop scan plain end_of_file
  next_value_loop-broken zero input buffer i fuel fits faulty last room = absurd (omega arith)
  next_value_loop-broken (suc k) [] buffer i fuel fits faulty last room = rw faulty refl
  next_value_loop-broken (suc k) (ch ∷ input) buffer i fuel fits faulty last room =
      elim (Bool-cases (ch == newline)) [
        | inl line ↦ let bad : at_newline ≡ at_end = rw line at last in cc
        | inr within ↦ elim (Bool-cases (ch == r.separator)) [
          | inl stop ↦ let bad : at_separator ≡ at_end = rw (within, stop) at last in cc
          | inr other ↦
              let room' : i + suc (length (plain input).text) ≤ size = rw (within, other) at room in
              let free : leb size i ≡ false = ground (arith, room') in
              let put = put_char-ok buffer i ch (omega (arith, room', fits)) in
              rw (free, within, other, put)
                (next_value_loop-broken k input (set buffer i (some ch)) (suc i)
                  (omega (arith, fuel)) (omega (arith, length-set buffer i (some ch), fits)) faulty
                  (rw (within, other) at last) (omega (arith, room')))
        ]
      ]

-- Without quotes, with a buffer of at least `bufferSize` bytes, and where the field takes up more than
-- `bufferSize` bytes, of which the separator or the line's end is one: `nextValue` throws if the first
-- `bufferSize` bytes of the field have a NUL among them, or the buffer holds a string behind as many
-- bytes. Else the call is undefined, since `LOG` prints the buffer and reads past its end or a byte
-- that nothing wrote.
pub next_value-overfull :
    (r : CsvFileReader) (buffer : Block ℕ) (size : ℕ)
    → size ≤ length buffer
    → size < taken (scan false r.separator r.str_quote false r.fp.unread)
    → next_value r buffer size false ≡ (
        if has_byte nul (take size (scan false r.separator r.str_quote false r.fp.unread).text)
          || is_string (drop size buffer)
        then throws buffer_overfull
        else undefined)
unfolding next_value plain
next_value-overfull r buffer size fits high =
    let text = (scan false r.separator r.str_quote false r.fp.unread).text in
    let all : length (take size text) ≡ size = length-take_all size text (ground (arith, high)) in
    let laid = overlaid-front (take size text) buffer (omega (arith, all, fits)) in
    let whole : size - 0 ≡ size = omega arith in
    next_value_loop-overfull r size (length r.fp.unread + 1) r.fp.unread buffer 0 (omega arith) fits
      (omega arith) (omega (arith, high))
    ∙ ap (λ n. report_overfull (overlaid 0 (take n text) buffer)) whole
    ∙ ap report_overfull (laid ∙ ap (λ n. map some (take size text) ++ drop n buffer) all)
    ∙ report_overfull-is_string (map some (take size text) ++ drop size buffer)
    ∙ ap (λ (b : Bool). if b then throws buffer_overfull else undefined)
        (is_string-append (take size text) (drop size buffer))

-- Without quotes, `nextValue` throws when the device breaks before the field has ended, and the
-- field up to there has at most `bufferSize` bytes, for which the buffer has room.
pub next_value-broken :
    (r : CsvFileReader) (buffer : Block ℕ) (size : ℕ)
    → size ≤ length buffer
    → r.fp.broken ≡ true
    → (scan false r.separator r.str_quote false r.fp.unread).ending ≡ at_end
    → length (scan false r.separator r.str_quote false r.fp.unread).text ≤ size
    → next_value r buffer size false ≡ throws io_error
unfolding next_value plain
next_value-broken r buffer size fits faulty last room =
    next_value_loop-broken r size (length r.fp.unread + 1) r.fp.unread buffer 0 (omega arith) fits
      faulty last (omega (arith, room))
