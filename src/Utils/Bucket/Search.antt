-- ===== src/Utils/Bucket/Search.antt =====
-- The walk along a list of entries: what it finds, and what an insertion makes of the list.
use native.Mathlib.Nat.{add-zero}
use premir_cpp.Common.{
  ℕ, suc, ◌+◌, ◌<◌, ◌≡◌, refl, ap, Bool, true, false, inl, inr, List, [], ◌∷◌, ◌++◌, Option, none,
  some, arith, if◌then◌else◌, length, get_elem?, set, Bool-cases,
}
use premir_cpp.Common.Run.{ok}
use premir_cpp.Utils.Memory.{Block}
use premir_cpp.Utils.Bucket.{find_entry}

module _ {E : Type 0} (hit : E → Bool) where
  -- The first entry that is hit, with its index counted from `i`.
  unfoldable pub first_from : ℕ → List E → Option (ℕ × E)
  first_from i [] = none
  first_from i (x ∷ xs) = if hit x then some (i, x) else first_from (suc i) xs

  -- The first entry that is hit.
  unfoldable pub find? : List E → Option E
  find? [] = none
  find? (x ∷ xs) = if hit x then some x else find? xs

  -- The list after an insertion.
  unfoldable pub insert : (E → E) → E → List E → List E
  insert renew fresh [] = fresh ∷ []
  insert renew fresh (x ∷ xs) = if hit x then renew x ∷ xs else x ∷ insert renew fresh xs

  pub find_entry-first_from :
      (xs : List E) (i : ℕ) (points : Block E)
      → ((j : ℕ) (x : E) → get_elem? xs j ≡ some x → get_elem? points (i + j) ≡ some (some x))
      → find_entry hit (length xs) i points ≡ ok (first_from i xs)
  unfolding find_entry first_from
  find_entry-first_from [] i points at = refl
  find_entry-first_from (x ∷ xs) i points at =
      let here : get_elem? points i ≡ some (some x) = rw (add-zero i) at (at 0 x refl) in
      let rest = find_entry-first_from xs (suc i) points (λ j y e. rw (shift j) (at (suc j) y e)) in
      elim (Bool-cases (hit x)) [ inl found ↦ rw (here, found) | inr other ↦ rw (here, other) rest ]
    where
      shift : (j : ℕ) → suc i + j ≡ i + suc j
      shift j = omega arith

  pub first_from-find? :
      (xs : List E) (i : ℕ)
      → (elim (first_from i xs) [ none ↦ ok none | some (j, x) ↦ ok (some x) ]) ≡ ok (find? xs)
  unfolding first_from find?
  first_from-find? [] i = refl
  first_from-find? (x ∷ xs) i = elim (Bool-cases (hit x)) [
    | inl found ↦ rw found
    | inr other ↦ rw other (first_from-find? xs (suc i))
  ]

  module _ (renew : E → E) (fresh : E) where
    -- How an insertion turns out: no entry is hit, or the one at `d` is.
    pub data Found (i : ℕ) (xs : List E) : Type 0 where
      missing :
          first_from i xs ≡ none
          → find? xs ≡ none
          → insert renew fresh xs ≡ xs ++ fresh ∷ []
          → Found i xs
      hit_at :
          (d : ℕ) (x : E)
          → first_from i xs ≡ some (i + d, x)
          → find? xs ≡ some x
          → d < length xs
          → insert renew fresh xs ≡ set xs d (renew x)
          → Found i xs

    pub find-Found : (i : ℕ) (xs : List E) → Found i xs
    unfolding first_from find? insert
    find-Found i [] = missing refl refl refl
    find-Found i (x ∷ xs) = elim (Bool-cases (hit x)) [
      | inl found ↦ hit_at 0 x (rw (found, add-zero)) (rw found) (omega arith) (rw found)
      | inr other ↦ later other (find-Found (suc i) xs)
    ]
      where
        later : hit x ≡ false → Found (suc i) xs → Found i (x ∷ xs)
        later other (missing none_hit none_found same) =
            missing (rw (other, none_hit)) (rw (other, none_found)) (rw (other, same))
        later other (hit_at d y at_d found inside same) =
            let shift : suc i + d ≡ i + suc d = omega arith in
            hit_at (suc d) y (rw (other, at_d, shift)) (rw (other, found)) (omega arith)
              (rw (other, same))

-- What a search for one entry finds after an insertion for another: an insertion gives the list
-- the renewed or the fresh entry, which `other` may hit too, and changes nothing else for it.
pub find?-insert_self :
    {E : Type 0} (hit : E → Bool) (renew : E → E) (fresh : E)
    → ((x : E) → hit x ≡ true → hit (renew x) ≡ true)
    → hit fresh ≡ true
    → (xs : List E)
    → find? hit (insert hit renew fresh xs)
      ≡ some (elim (find? hit xs) [ none ↦ fresh | some x ↦ renew x ])
unfolding find? insert
find?-insert_self hit renew fresh kept hits [] = rw hits
find?-insert_self hit renew fresh kept hits (x ∷ xs) = elim (Bool-cases (hit x)) [
  | inl found ↦ rw (found, kept x found)
  | inr passed ↦ rw (passed, passed) (find?-insert_self hit renew fresh kept hits xs)
]

pub find?-insert_other :
    {E : Type 0} (hit other : E → Bool) (renew : E → E) (fresh : E)
    → ((x : E) → hit x ≡ true → other (renew x) ≡ other x)
    → ((x : E) → hit x ≡ true → other x ≡ false)
    → other fresh ≡ false
    → (xs : List E) → find? other (insert hit renew fresh xs) ≡ find? other xs
unfolding find? insert
find?-insert_other hit other renew fresh kept apart misses [] = rw misses
find?-insert_other hit other renew fresh kept apart misses (x ∷ xs) = elim (Bool-cases (hit x)) [
  | inl found ↦ rw (found, kept x found, apart x found)
  | inr passed ↦ rw passed (
      ap (λ r. if other x then some x else r)
        (find?-insert_other hit other renew fresh kept apart misses xs))
]
