-- ===== src/Utils/IntBitSet/Adds.antt =====
-- The constructor, `add` and `remove` on the set of the numbers.
use premir_cpp.Common.{
  ℕ, ◌+◌, ◌/◌, ◌≤◌, ◌<◌, ◌≡◌, refl, sym, ap, ◌∙◌, subst, Bool, true, false, inl, inr, none, some,
  arith, ltb, if◌then◌else◌, Bool-cases, length, length-replicate, get_elem?_of_le,
}
use premir_cpp.Common.Run.{
  ok, undefined, out_of_memory, Returns, returns, Returns-bind, Returns-weaken,
}
use premir_cpp.Common.Growth.{length-grow, grow-all, get_elem?-replicate}
use premir_cpp.Utils.IntBitSet.{IntBitSet, increase, sized, add, remove, contains}
use premir_cpp.Utils.IntBitSet.Bytes.{has_bit_zero}
use premir_cpp.Utils.IntBitSet.Sets.{
  IsByte, Holds, with_value, without_value, contains-member, set_bit-Holds, remove-Holds,
}

increase-Holds :
    (grants : ℕ → Bool)
    → ((n : ℕ) → grants n ≡ true)
    → (member : ℕ → Bool) (s : IntBitSet) (index : ℕ) → Holds member s
    → s.char_count ≤ index
    → Holds member ((increase grants s index).0)
      × ((increase grants s index).1 ≡ none)
      × (index < (increase grants s index).0.char_count)
unfolding increase
increase-Holds grants granted member s index is past =
    let fits : length s.bits ≤ index + 1 = omega (arith, is.count, past) in
    rw (granted (index + 1), is.count)
      (
        record {
          count = sym (length-grow s.bits 0 (index + 1) fits);
          bytes = λ i.
              grow-all (IsByte member i) s.bits 0 (index + 1) fits
                (λ empty. (omega arith, λ k h. has_bit_zero k h ∙ sym (empty k h))) i (is.bytes i);
        },
        refl,
        omega arith,
      )

add-Holds :
    (grants : ℕ → Bool)
    → ((n : ℕ) → grants n ≡ true)
    → (member : ℕ → Bool) (s : IntBitSet) (value : ℕ) → Holds member s
    → Returns
        (λ (s', thrown). Holds (with_value member value) s' × (thrown ≡ none))
        (add grants s value)
unfolding add
add-Holds grants granted member s value is = elim (Bool-cases (ltb (value / 8) s.char_count)) [
  | inl e ↦ rw e (
      Returns-bind (set_bit-Holds member s value is (ground (arith, e)))
        (λ s' done. returns (done, refl)))
  | inr e ↦
      let (held, fine, inside) =
        increase-Holds grants granted member s (value / 8) is (ground (arith, e)) in
      rw (e, fine)
        (Returns-bind (set_bit-Holds member ((increase grants s (value / 8)).0) value held inside)
          (λ s' done. returns (done, refl)))
]

increase-refused :
    (grants : ℕ → Bool) (s : IntBitSet) (index : ℕ)
    → grants (index + 1) ≡ false
    → increase grants s index ≡ (record s { char_count = index + 1 }, some out_of_memory)
unfolding increase
increase-refused grants s index refused = rw refused refl

-- If `add` needs more bytes and the allocator refuses them, it throws, and the set that it leaves
-- counts a byte for the number that it does not have: to ask whether the number is in the set is
-- undefined behaviour.
pub add-refused :
    (grants : ℕ → Bool) (member : ℕ → Bool) (s : IntBitSet) (value : ℕ)
    → Holds member s
    → s.char_count ≤ value / 8
    → grants (value / 8 + 1) ≡ false
    → Returns
        (λ (s', thrown). (thrown ≡ some out_of_memory) × (contains s' value ≡ undefined))
        (add grants s value)
unfolding add contains
add-refused grants member s value is past refused =
    let outside : ltb (value / 8) s.char_count ≡ false = ground (arith, past) in
    let counted : ltb (value / 8) (value / 8 + 1) ≡ true = ground arith in
    let missing = get_elem?_of_le s.bits (value / 8) (omega (arith, is.count, past)) in
    let state = increase-refused grants s (value / 8) refused in
    let lost : contains ((increase grants s (value / 8)).0) value ≡ undefined =
      subst (λ t. contains t value ≡ undefined) (sym (ap (λ p. p.0) state))
        (rw (counted, missing) refl) in
    rw (outside, ap (λ p. p.1) state) (returns (refl, lost))

zero-IsByte : (i : ℕ) (there : Bool) → IsByte (λ w. false) i (if there then some 0 else none)
zero-IsByte i true = (omega arith, has_bit_zero)
zero-IsByte i false = λ k h. refl

-- A new set holds no number, whatever number of bits it is made for.
pub sized-Holds :
    (grants : ℕ → Bool)
    → ((n : ℕ) → grants n ≡ true)
    → (count_bits : ℕ) → Returns (Holds (λ w. false)) (sized grants count_bits)
unfolding sized
sized-Holds grants granted count_bits = elim (Bool-cases (ltb 0 count_bits)) [
  | inl e ↦
      rw (e, granted ((count_bits + 7) / 8))
        (returns (record {
          count = sym (length-replicate ((count_bits + 7) / 8) 0);
          bytes = λ i.
              subst (IsByte (λ w. false) i) (sym (get_elem?-replicate ((count_bits + 7) / 8) 0 i))
                (zero-IsByte i (ltb i ((count_bits + 7) / 8)));
        }))
  | inr e ↦ rw e (returns (record { count = refl; bytes = λ i k h. refl }))
]

-- If the allocator grants what it asks for, `add` on a set that holds the numbers of `member` does
-- not throw, and leaves a set in which `contains` finds the number and the numbers of `member`, and
-- no other.
pub add-contains :
    (grants : ℕ → Bool)
    → ((n : ℕ) → grants n ≡ true)
    → (member : ℕ → Bool) (s : IntBitSet) (value : ℕ) → Holds member s
    → Returns
        (λ (s', thrown).
          Holds (with_value member value) s'
          × (thrown ≡ none)
          × ((w : ℕ) → contains s' w ≡ ok (with_value member value w)))
        (add grants s value)
add-contains grants granted member s value is =
    Returns-weaken (add-Holds grants granted member s value is) (λ (s', thrown) (held, fine).
      (held, fine, λ w. contains-member (with_value member value) s' w held))

-- `remove` on a set that holds the numbers of `member` leaves a set in which `contains` finds those
-- numbers but the one that is removed, and no other.
pub remove-contains :
    (member : ℕ → Bool) (s : IntBitSet) (value : ℕ)
    → Holds member s
    → Returns
        (λ s'.
          Holds (without_value member value) s'
          × ((w : ℕ) → contains s' w ≡ ok (without_value member value w)))
        (remove s value)
remove-contains member s value is =
    Returns-weaken (remove-Holds member s value is)
      (λ s' held. (held, λ w. contains-member (without_value member value) s' w held))
