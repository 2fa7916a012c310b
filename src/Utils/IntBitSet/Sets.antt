-- ===== src/Utils/IntBitSet/Sets.antt =====
-- A bit set as the set of the numbers in it.
use Prim.Native.Nat.{bit_and, bit_or, bit_xor}
use premir_cpp.Common.{
  ℕ, ◌+◌, ◌-◌, ◌*◌, ◌/◌, ◌^◌, ◌<◌, ◌≡◌, refl, sym, ap, ◌∙◌, subst, Bool, false, ◌&&◌, ◌||◌, not,
  inl, inr, Option, none, some, arith, ltb, ◌==◌, ==_iff, if◌then◌else◌, Bool-cases, length,
  get_elem?, set, length-set, get_elem?-set, get_elem?_of_lt, get_elem?_of_le,
}
use premir_cpp.Common.Run.{ok, Returns, returns}
use premir_cpp.Utils.IntBitSet.{IntBitSet, has_bit, set_bit, remove, contains}
use premir_cpp.Utils.IntBitSet.Bytes.{has_bit-or, or_lt, has_bit-clear, clear_lt}

-- The byte at index `i`, if there is one, has the bits of the numbers from `8 * i` on.
abbrev pub IsByte : (ℕ → Bool) → ℕ → Option ℕ → Type 0
IsByte member i none = (k : ℕ) → k < 8 → member (8 * i + k) ≡ false
IsByte member i (some ch) = (ch < 256) × ((k : ℕ) → k < 8 → has_bit ch k ≡ member (8 * i + k))

-- The bit set holds the numbers that `member` tells, and has as many bytes as it says.
pub record Holds (member : ℕ → Bool) (s : IntBitSet) : Type 0 where
  pub count : s.char_count ≡ length s.bits
  pub bytes : (i : ℕ) → IsByte member i (get_elem? s.bits i)

split_value : (value : ℕ) → value ≡ 8 * (value / 8) + (value - 8 * (value / 8))
split_value value = omega arith

bit_lt : (value : ℕ) → value - 8 * (value / 8) < 8
bit_lt value = omega arith

absent :
    (member : ℕ → Bool) (s : IntBitSet) (value : ℕ)
    → Holds member s
    → ltb (value / 8) s.char_count ≡ false
    → member value ≡ false
absent member s value is outside =
    let none_there = get_elem?_of_le s.bits (value / 8) (ground (arith, is.count, outside)) in
    let byte : IsByte member (value / 8) none =
      subst (IsByte member (value / 8)) none_there (is.bytes (value / 8)) in
    ap member (split_value value) ∙ byte (value - 8 * (value / 8)) (bit_lt value)

-- `contains` tells whether the number is in the set.
pub contains-member :
    (member : ℕ → Bool) (s : IntBitSet) (value : ℕ)
    → Holds member s
    → contains s value ≡ ok (member value)
unfolding contains
contains-member member s value is = elim (Bool-cases (ltb (value / 8) s.char_count)) [
  | inl inside ↦
      let (ch, there) = get_elem?_of_lt s.bits (value / 8) (ground (arith, is.count, inside)) in
      let byte : IsByte member (value / 8) (some ch) =
        subst (IsByte member (value / 8)) there (is.bytes (value / 8)) in
      rw (inside, there)
        (ap ok
          (byte.1 (value - 8 * (value / 8)) (bit_lt value) ∙ ap member (sym (split_value value))))
  | inr outside ↦ rw outside (ap ok (sym (absent member s value is outside)))
]

value_apart : (value i k : ℕ) → k < 8 → (value / 8 == i) ≡ false → (value == 8 * i + k) ≡ false
value_apart value i k h apart = ground (arith, apart)

value_here : (value k : ℕ) → k < 8 → (value - 8 * (value / 8) == k) ≡ (value == 8 * (value / 8) + k)
value_here value k h = ground arith

IsByte-same :
    (member member' : ℕ → Bool) (i : ℕ) (found : Option ℕ)
    → ((k : ℕ) → k < 8 → member' (8 * i + k) ≡ member (8 * i + k))
    → IsByte member i found
    → IsByte member' i found
IsByte-same member member' i none same byte = λ k h. same k h ∙ byte k h
IsByte-same member member' i (some ch) same byte = (byte.0, λ k h. byte.1 k h ∙ sym (same k h))

-- A set with another byte.
set-Holds :
    (member member' : ℕ → Bool) (s : IntBitSet) (r ch : ℕ)
    → Holds member s
    → r < s.char_count
    → IsByte member' r (some ch)
    → ((i k : ℕ) → (r == i) ≡ false → k < 8 → member' (8 * i + k) ≡ member (8 * i + k))
    → Holds member' (record s { bits = set s.bits r ch })
set-Holds member member' s r ch is inside now same = record {
  count = is.count ∙ sym (length-set s.bits r ch);
  bytes = λ i.
      subst (IsByte member' i) (sym (get_elem?-set s.bits r i ch (omega (arith, is.count, inside))))
        (here i);
}
  where
    here : (i : ℕ) → IsByte member' i (if r == i then some ch else get_elem? s.bits i)
    here i = elim (Bool-cases (r == i)) [
      | inl hit ↦ rw hit (subst (λ j. IsByte member' j (some ch)) ((==_iff r i).0 hit) now)
      | inr miss ↦
          rw miss (
            IsByte-same member member' i (get_elem? s.bits i) (λ k h. same i k miss h) (is.bytes i))
    ]

-- The set with a number more, and the set with a number less.
abbrev pub with_value : (ℕ → Bool) → ℕ → ℕ → Bool
with_value member value w = (value == w) || member w

abbrev pub without_value : (ℕ → Bool) → ℕ → ℕ → Bool
without_value member value w = not (value == w) && member w

IsByte-at :
    (member : ℕ → Bool) (s : IntBitSet) (r : ℕ)
    → Holds member s
    → r < s.char_count
    → (ch : ℕ) × (get_elem? s.bits r ≡ some ch) × IsByte member r (some ch)
IsByte-at member s r is inside =
    let (ch, there) = get_elem?_of_lt s.bits r (omega (arith, is.count, inside)) in
    (ch, there, subst (IsByte member r) there (is.bytes r))

pub set_bit-Holds :
    (member : ℕ → Bool) (s : IntBitSet) (value : ℕ)
    → Holds member s
    → value / 8 < s.char_count
    → Returns (Holds (with_value member value)) (set_bit s value)
unfolding set_bit
set_bit-Holds member s value is inside =
    let (ch, there, byte) = IsByte-at member s (value / 8) is inside in
    let bit : ℕ = value - 8 * (value / 8) in
    rw there (
      returns (
        set-Holds member (with_value member value) s (value / 8) (bit_or ch (2 ^ bit)) is inside
          (
            or_lt ch bit byte.0 (bit_lt value),
            λ k h.
                has_bit-or ch bit byte.0 (bit_lt value) k h
                ∙ ap (λ b. b || has_bit ch k) (value_here value k h)
                ∙ ap (◌||◌ (value == 8 * (value / 8) + k)) (byte.1 k h),
          )
          (λ i k apart h. ap (λ b. b || member (8 * i + k)) (value_apart value i k h apart))))

not_there :
    (member : ℕ → Bool) (value w : ℕ)
    → member value ≡ false
    → without_value member value w ≡ member w
not_there member value w missing = elim (Bool-cases (value == w)) [
  | inl here ↦ rw here (sym (subst (λ u. member u ≡ false) ((==_iff value w).0 here) missing))
  | inr apart ↦ rw apart refl
]

pub remove-Holds :
    (member : ℕ → Bool) (s : IntBitSet) (value : ℕ)
    → Holds member s
    → Returns (Holds (without_value member value)) (remove s value)
unfolding remove
remove-Holds member s value is = elim (Bool-cases (ltb (value / 8) s.char_count)) [
  | inl e ↦
      let inside : value / 8 < s.char_count = ground (arith, e) in
      let (ch, there, byte) = IsByte-at member s (value / 8) is inside in
      let bit : ℕ = value - 8 * (value / 8) in
      rw (e, there)
        (returns (
          set-Holds member (without_value member value) s (value / 8)
            (bit_xor ch (bit_and ch (2 ^ bit))) is inside
            (
              clear_lt ch bit byte.0 (bit_lt value),
              λ k h.
                  has_bit-clear ch bit byte.0 (bit_lt value) k h
                  ∙ ap (λ b. not b && has_bit ch k) (value_here value k h)
                  ∙ ap (◌&&◌ (not (value == 8 * (value / 8) + k))) (byte.1 k h),
            )
            (λ i k apart h. ap (λ b. not b && member (8 * i + k)) (value_apart value i k h apart))))
  | inr outside ↦ rw outside (
      returns (record {
        count = is.count;
        bytes = λ i.
            IsByte-same member (without_value member value) i (get_elem? s.bits i)
              (λ k h. not_there member value (8 * i + k) (absent member s value is outside))
              (is.bytes i);
      }))
]
