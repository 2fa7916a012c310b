-- ===== src/Ml/LevensteinDistance/Script.antt =====
-- What an edit distance is: the least cost of a script of edits.
use premir_cpp.Common.{
  ℕ, zero, suc, ◌+◌, ◌≤◌, ◌≡◌, List, [], ◌∷◌, some, arith, min, ◌==◌, if◌then◌else◌, get_elem?,
  subst, Bool-cases, inl, inr, leb,
}

-- The character at an index, 0 past the end.
abbrev pub at : List ℕ → ℕ → ℕ
at [] i = 0
at (x ∷ s) zero = x
at (x ∷ s) (suc i) = at s i

pub at-get_elem? : (s : List ℕ) (i : ℕ) {x : ℕ} → get_elem? s i ≡ some x → x ≡ at s i
at-get_elem? [] i e = ground arith
at-get_elem? (y ∷ s) zero e = ground arith
at-get_elem? (y ∷ s) (suc i) e = at-get_elem? s i e

module _ (s t : List ℕ) where
  -- `Script i j n`: the first `i` characters of `s` become the first `j` of `t` by `n` edits.
  pub data Script : ℕ → ℕ → ℕ → Type 0 where
    done : Script zero zero zero
    keep : {i j n : ℕ} → at s i ≡ at t j → Script i j n → Script (suc i) (suc j) n
    replace : {i j n : ℕ} → Script i j n → Script (suc i) (suc j) (suc n)
    delete : {i j n : ℕ} → Script i j n → Script (suc i) j (suc n)
    insert : {i j n : ℕ} → Script i j n → Script i (suc j) (suc n)

  -- The recurrence that the code fills its tables by.
  unfoldable pub dist : ℕ → ℕ → ℕ
  dist zero width = width
  dist (suc i) zero = suc i
  dist (suc i) (suc j) =
      let diagonal = dist i j in
      min (diagonal + (if at s i == at t j then 0 else 1))
        (min (dist (suc i) j + 1) (dist i (suc j) + 1))

  inserts : (j : ℕ) → Script zero j j
  inserts zero = done
  inserts (suc j) = insert (inserts j)

  deletes : (i : ℕ) → Script i zero i
  deletes zero = done
  deletes (suc i) = delete (deletes i)

  -- One of three scripts has the least cost.
  cheapest :
      (i j a b c : ℕ) → Script i j a → Script i j b → Script i j c → Script i j (min a (min b c))
  cheapest i j a b c p q r = elim (Bool-cases (leb a (min b c))) [
    | inl first ↦ subst (Script i j) (ground arith) p
    | inr other ↦ elim (Bool-cases (leb b c)) [
      | inl second ↦ subst (Script i j) (ground arith) q
      | inr third ↦ subst (Script i j) (ground arith) r
    ]
  ]

  -- Some script has the cost `dist i j`.
  pub Script-dist : (i j : ℕ) → Script i j (dist i j)
  unfolding dist
  Script-dist zero j = inserts j
  Script-dist (suc i) zero = deletes (suc i)
  Script-dist (suc i) (suc j) =
      cheapest (suc i) (suc j) _ _ _ (diagonal (Script-dist i j))
        (subst (Script (suc i) (suc j)) (omega arith) (insert (Script-dist (suc i) j)))
        (subst (Script (suc i) (suc j)) (omega arith) (delete (Script-dist i (suc j))))
    where
      diagonal :
          {n : ℕ} → Script i j n → Script (suc i) (suc j) (n + (if at s i == at t j then 0 else 1))
      diagonal {n} p = elim (Bool-cases (at s i == at t j)) [
        | inl same ↦
            rw same (subst (Script (suc i) (suc j)) (omega arith) (keep {n = n} (ground arith) p))
        | inr other ↦ rw other (subst (Script (suc i) (suc j)) (omega arith) (replace p))
      ]

  dist_step : (i j : ℕ) → (dist (suc i) j ≤ dist i j + 1) × (dist i (suc j) ≤ dist i j + 1)
  unfolding dist
  dist_step zero zero = omega arith
  dist_step zero (suc j) = omega (arith, dist_step zero j)
  dist_step (suc i) zero = omega (arith, dist_step i zero)
  dist_step (suc i) (suc j) = (omega arith, omega arith)

  -- No script costs less.
  pub dist-le : {i j n : ℕ} → Script i j n → dist i j ≤ n
  unfolding dist
  dist-le done = omega arith
  dist-le (keep {i} {j} same p) = ground (arith, dist-le p)
  dist-le (replace {i} {j} p) = ground (arith, dist-le p)
  dist-le (delete {i} {j} p) = omega (arith, dist-le p, (dist_step i j).0)
  dist-le (insert {i} {j} p) = omega (arith, dist-le p, (dist_step i j).1)
