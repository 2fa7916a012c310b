-- ===== src/Utils/HashEngine/Equality.antt =====
-- What a table that hashes with an engine of src/utils/hash relies on.
use premir_cpp.Common.{◌≡◌, ◌↔◌, refl, sym, ap, ◌∙◌, Bool, true, inl, inr, Bool-cases}
use premir_cpp.Utils.HashEngine.{HashEngine}

-- `operator==` is an equivalence, and equal values have the same hash code.
pub record IsEquality {K : Type 0} (same : K → K → Bool) (engine : HashEngine K) : Type 0 where
  pub reflexive : (a : K) → same a a ≡ true
  pub symmetric : (a b : K) → same a b ≡ true → same b a ≡ true
  pub transitive : (a b c : K) → same a b ≡ true → same b c ≡ true → same a c ≡ true
  pub hashed : (a b : K) → same a b ≡ true → engine.hash_code a ≡ engine.hash_code b

-- If only a value itself is equal to it, every engine will do.
pub IsEquality-of_iff :
    {K : Type 0} (same : K → K → Bool) (engine : HashEngine K)
    → ((a b : K) → (same a b ≡ true) ↔ (a ≡ b))
    → IsEquality same engine
IsEquality-of_iff same engine same_iff = record {
  reflexive = λ a. (same_iff a a).1 refl;
  symmetric = λ a b e. (same_iff b a).1 (sym ((same_iff a b).0 e));
  transitive = λ a b c e f. (same_iff a c).1 ((same_iff a b).0 e ∙ (same_iff b c).0 f);
  hashed = λ a b e. ap engine.hash_code ((same_iff a b).0 e);
}

module _ {K : Type 0} (same : K → K → Bool) (engine : HashEngine K)
    (equality : IsEquality same engine) where
  commutes : (a b : K) → same a b ≡ same b a
  commutes a b = elim (Bool-cases (same a b)) [
    | inl e ↦ rw (e, equality.symmetric a b e) refl
    | inr e ↦ elim (Bool-cases (same b a)) [
      | inl back ↦ let bad = equality.symmetric b a back in cc
      | inr back ↦ rw (e, back) refl
    ]
  ]

  -- Equal values are equal to the same values.
  pub alike : (a b : K) → same a b ≡ true → (c : K) → same a c ≡ same b c
  alike a b e c = elim (Bool-cases (same b c)) [
    | inl on ↦ equality.transitive a b c e on ∙ sym on
    | inr off ↦ elim (Bool-cases (same a c)) [
      | inl on ↦ let bad = equality.transitive b a c (equality.symmetric a b e) on in cc
      | inr still ↦ rw (off, still) refl
    ]
  ]

  -- And the same values are equal to them.
  pub same_as : (a b : K) → same a b ≡ true → ◌≡◌ {A = K → Bool} (λ x. same x b) (λ x. same x a)
  same_as a b e i x = (commutes x b ∙ sym (alike a b e x) ∙ commutes a x) i
