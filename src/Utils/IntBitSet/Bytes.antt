-- ===== src/Utils/IntBitSet/Bytes.antt =====
-- The bits of a byte, checked byte by byte.
use Prim.Native.Nat.{bit_and, bit_or, bit_xor}
use premir_cpp.Common.{
  ℕ, zero, suc, ◌<◌, ◌^◌, ◌≡◌, refl, Bool, true, false, ◌&&◌, ◌||◌, not, arith, ltb, ◌==◌, inl, inr,
  Bool-cases, ==_iff, sym, subst,
}
use premir_cpp.Utils.IntBitSet.{has_bit}

all_below : ℕ → (ℕ → Bool) → Bool
all_below zero test = true
all_below (suc n) test = test n && all_below n test

all_below_sound :
    (n : ℕ) (test : ℕ → Bool) → all_below n test ≡ true → (x : ℕ) → x < n → test x ≡ true
unfolding all_below
all_below_sound zero test e x h = absurd (omega (arith, h))
all_below_sound (suc n) test e x h = elim (Bool-cases (x == n)) [
  | inl here ↦ subst (λ y. test y ≡ true) (sym ((==_iff x n).0 here)) (ground (arith, e))
  | inr apart ↦ all_below_sound n test (ground (arith, e)) x (ground (arith, apart, h))
]

agree : Bool → Bool → Bool
agree a b = (a && b) || (not a && not b)

agree-eq : (a b : Bool) → agree a b ≡ true → a ≡ b
unfolding agree
agree-eq a b e = ground (arith, e)

-- A test of all bytes and all pairs of bits.
on_bytes : (ℕ → ℕ → ℕ → Bool) → Bool
unfolding all_below
on_bytes test = all_below 256 (λ ch. all_below 8 (λ k. all_below 8 (test ch k)))

on_bytes_sound :
    (test : ℕ → ℕ → ℕ → Bool)
    → on_bytes test ≡ true
    → (ch k j : ℕ) → ch < 256
    → k < 8
    → j < 8
    → test ch k j ≡ true
unfolding on_bytes
on_bytes_sound test e ch k j is_byte bit bit' =
    all_below_sound 8 (test ch k)
      (all_below_sound 8 (λ k. all_below 8 (test ch k))
        (all_below_sound 256 (λ ch. all_below 8 (λ k. all_below 8 (test ch k))) e ch is_byte) k bit)
      j bit'

or_test : ℕ → ℕ → ℕ → Bool
unfolding agree
or_test ch k j =
    agree (has_bit (bit_or ch (2 ^ k)) j) ((k == j) || has_bit ch j) && ltb (bit_or ch (2 ^ k)) 256

or_table : on_bytes or_test ≡ true
unfolding on_bytes or_test
or_table = refl

clear_test : ℕ → ℕ → ℕ → Bool
unfolding agree
clear_test ch k j =
    agree (has_bit (bit_xor ch (bit_and ch (2 ^ k))) j) (not (k == j) && has_bit ch j)
    && ltb (bit_xor ch (bit_and ch (2 ^ k))) 256

clear_table : on_bytes clear_test ≡ true
unfolding on_bytes clear_test
clear_table = refl

both : (a b : Bool) → (a && b) ≡ true → (a ≡ true) × (b ≡ true)
both a b e = (ground (arith, e), ground (arith, e))

lt_of_ltb : (a b : ℕ) → ltb a b ≡ true → a < b
lt_of_ltb a b e = ground (arith, e)

module _ (ch k : ℕ) (is_byte : ch < 256) (bit : k < 8) where
  pub has_bit-or : (j : ℕ) → j < 8 → has_bit (bit_or ch (2 ^ k)) j ≡ ((k == j) || has_bit ch j)
  unfolding or_test
  has_bit-or j h =
      agree-eq _ _ ((both _ _ (on_bytes_sound or_test or_table ch k j is_byte bit h)).0)

  pub or_lt : bit_or ch (2 ^ k) < 256
  unfolding or_test
  or_lt =
      lt_of_ltb _ 256
        ((both _ _ (on_bytes_sound or_test or_table ch k 0 is_byte bit (omega arith))).1)

  pub has_bit-clear :
      (j : ℕ) → j < 8 → has_bit (bit_xor ch (bit_and ch (2 ^ k))) j ≡ (not (k == j) && has_bit ch j)
  unfolding clear_test
  has_bit-clear j h =
      agree-eq _ _ ((both _ _ (on_bytes_sound clear_test clear_table ch k j is_byte bit h)).0)

  pub clear_lt : bit_xor ch (bit_and ch (2 ^ k)) < 256
  unfolding clear_test
  clear_lt =
      lt_of_ltb _ 256
        ((both _ _ (on_bytes_sound clear_test clear_table ch k 0 is_byte bit (omega arith))).1)

zero_table : all_below 8 (λ j. not (has_bit 0 j)) ≡ true
unfolding all_below
zero_table = refl

false_of_not : (b : Bool) → not b ≡ true → b ≡ false
false_of_not b e = ground (arith, e)

pub has_bit_zero : (j : ℕ) → j < 8 → has_bit 0 j ≡ false
has_bit_zero j h =
    false_of_not (has_bit 0 j) (all_below_sound 8 (λ j. not (has_bit 0 j)) zero_table j h)
