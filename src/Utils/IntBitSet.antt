-- ===== src/Utils/IntBitSet.antt =====
-- src/utils/IntBitSet.h, class `IntBitSet<T>` over numbers that are not negative. A part is a byte,
-- and the null pointer the block of no bytes.
pub mod Bytes
pub mod Sets
pub mod Adds
mod Tests
use Prim.Native.Nat.{bit_and, bit_or, bit_xor}
use premir_cpp.Common.{
  ℕ, ◌+◌, ◌-◌, ◌*◌, ◌/◌, ◌^◌, Bool, true, false, List, [], ◌∷◌, ◌++◌, Option, none, some, ltb, ◌==◌,
  if◌then◌else◌, get_elem?, set, replicate, take,
}
use premir_cpp.Common.Run.{Error, Run, ok, throws, out_of_memory, ◌>>=◌, defined}

pub record IntBitSet : Type 0 where
  pub bits : List ℕ
  pub char_count : ℕ

abbrev pub new : IntBitSet
new = record { bits = []; char_count = 0 }

-- `getCharIndex` and `getCharBitIndex`.
abbrev pub char_index : ℕ → ℕ
char_index value = value / 8

abbrev pub char_bit_index : ℕ → ℕ → ℕ
char_bit_index value index = value - 8 * index

-- The constructor with a number of bits. The quotient of the doubles is exact up to 2 ^ 53, so that
-- rounding it up is the division here.
unfoldable pub sized : (ℕ → Bool) → ℕ → Run IntBitSet
sized grants count_bits =
    let count = (count_bits + 7) / 8 in
    if ltb 0 count_bits
    then if grants count
      then ok (record { bits = replicate count 0; char_count = count })
      else throws out_of_memory
    else ok new

-- The part of `add` that makes room for the byte at an index. It gives the set as it is when the
-- method goes on or throws: the count of bytes has grown before the memory is asked for.
unfoldable pub increase : (ℕ → Bool) → IntBitSet → ℕ → IntBitSet × Option Error
increase grants s index =
    if grants (index + 1)
    then (
      record {
        bits = take (index + 1) s.bits ++ replicate (index + 1 - s.char_count) 0;
        char_count = index + 1;
      },
      none,
    )
    else (record s { char_count = index + 1 }, some out_of_memory)

-- `bits[charIndex] = bits[charIndex] | (1 << ...)`.
unfoldable pub set_bit : IntBitSet → ℕ → Run IntBitSet
set_bit s value = do
  ch ← defined (get_elem? s.bits (char_index value))
  ok (record s {
    bits = set s.bits (char_index value) (bit_or ch (2 ^ char_bit_index value (char_index value)));
  })

-- `add`: the set, and the exception if it ends with one.
unfoldable pub add : (ℕ → Bool) → IntBitSet → ℕ → Run (IntBitSet × Option Error)
unfolding increase
add grants s value =
    if ltb (char_index value) s.char_count
    then (do added ← set_bit s value; ok (added, none))
    else elim (increase grants s (char_index value)).1 [
      | none ↦ (do added ← set_bit (increase grants s (char_index value)).0 value; ok (added, none))
      | some error ↦ ok ((increase grants s (char_index value)).0, some error)
    ]

unfoldable pub remove : IntBitSet → ℕ → Run IntBitSet
remove s value =
    if ltb (char_index value) s.char_count
    then (do
      ch ← defined (get_elem? s.bits (char_index value))
      ok (record s {
        bits =
            set s.bits (char_index value)
              (bit_xor ch (bit_and ch (2 ^ char_bit_index value (char_index value))));
      }))
    else ok s

-- `((ch >> ...) & 1) == 1`.
abbrev pub has_bit : ℕ → ℕ → Bool
has_bit ch k = bit_and (ch / 2 ^ k) 1 == 1

unfoldable pub contains : IntBitSet → ℕ → Run Bool
contains s value =
    if ltb (char_index value) s.char_count
    then (do
      ch ← defined (get_elem? s.bits (char_index value))
      ok (has_bit ch (char_bit_index value (char_index value))))
    else ok false
