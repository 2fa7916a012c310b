-- ===== src/Utils/RdMatrix/Rows.antt =====
-- What one row of an `RDMatrix` holds, and what growth and copying do to it.
use mathlib.Core.List.{map-append, append_assoc}
use native.Mathlib.Nat.{zero-add, le_refl}
use premir_cpp.Common.{
  ℕ, zero, suc, ◌+◌, ◌-◌, ◌*◌, ◌≤◌, ◌≡◌, refl, sym, ap, ◌∙◌, Bool, true, List, [], ◌∷◌, ◌++◌, map,
  Option, none, some, arith, ltb, length, take, drop, replicate, length-append, length-map,
  length-replicate, le→not-ltb, take_all,
}
use premir_cpp.Common.Run.{Returns, returns, Returns-bind, Returns-cond}
use premir_cpp.Utils.Memory.{Begins, length-Begins, Block, malloc, realloc, memcpy, overwrite}
use premir_cpp.Utils.RdMatrix.{
  Row, RdMatrix, next_capacity, clean_row, reallocate, initialize_points_memory, fit_row,
  increase_row_points,
}

module _ {ℓ} {A : Type ℓ} where
  take-append_length : (xs ys : List A) → take (length xs) (xs ++ ys) ≡ xs
  take-append_length [] ys = refl
  take-append_length (x ∷ xs) ys = ap (◌∷◌ x) (take-append_length xs ys)

  drop-append_length : (xs ys : List A) (n : ℕ) → drop (length xs + n) (xs ++ ys) ≡ drop n ys
  drop-append_length [] ys n = rw zero-add
  drop-append_length (x ∷ xs) ys n =
      let one_more : suc (length xs) + n ≡ suc (length xs + n) = omega arith in
      rw one_more (drop-append_length xs ys n)

  pub length-drop : (n : ℕ) (xs : List A) → length (drop n xs) ≡ length xs - n
  length-drop zero xs = omega arith
  length-drop (suc n) [] = omega arith
  length-drop (suc n) (x ∷ xs) = omega (arith, length-drop n xs)

module _ {ℓ} {T : Type ℓ} where
  overwrite-append :
      (us vs spare : Block T)
      → overwrite (us ++ spare) (length us) vs ≡ (us ++ vs) ++ drop (length vs) spare
  overwrite-append us vs spare =
      rw (take-append_length us spare, drop-append_length us spare (length vs))
        (sym (append_assoc us vs (drop (length vs) spare)))

  -- `memcpy` behind the values that a block begins with.
  pub memcpy-Begins :
      (xs ys : List T) (block : Block T)
      → Begins xs block
      → length xs + length ys ≤ length block
      → Returns
          (λ c. Begins (xs ++ ys) c × (length c ≡ length block))
          (memcpy block (length xs) (map some ys) (length ys))
  unfolding memcpy
  memcpy-Begins xs ys block b fits =
      rw
        (
          length-map ys some,
          le→not-ltb (length ys) (length ys) (le_refl _),
          le→not-ltb (length block) (length xs + length ys) fits,
          take_all (length ys) (map some ys) (omega (arith, length-map ys (λ y. some y))),
        )
        (returns (
          record { spare = drop (length ys) b.spare; split = written },
          ap length written
              ∙ omega (
                arith,
                length-append (map some (xs ++ ys)) (drop (length ys) b.spare),
                length-map (xs ++ ys) (λ y. some y),
                length-append xs ys,
                length-drop (length ys) b.spare,
                length-Begins b,
              ),
        ))
    where
      written :
          overwrite block (length xs) (map some ys)
          ≡ map some (xs ++ ys) ++ drop (length ys) b.spare
      written =
          ap (λ (c : Block T). overwrite c (length xs) (map some ys)) b.split
          ∙ ap (λ (n : ℕ). overwrite (map some xs ++ b.spare) n (map some ys))
              (sym (length-map xs some))
          ∙ overwrite-append (map some xs) (map some ys) b.spare
          ∙ ap (λ (n : ℕ). (map some xs ++ map some ys) ++ drop n b.spare) (length-map ys some)
          ∙ ap (λ (c : Block T). c ++ drop (length ys) b.spare) (sym (map-append some xs ys))

  -- A block that has become longer begins as before.
  pub reallocate-Begins :
      (grants : ℕ → Bool) (granted : (n : ℕ) → grants n ≡ true) (t n : ℕ) (xs : List T)
      (block : Block T)
      → Begins xs block
      → length block ≤ n
      → Returns (λ c. Begins xs c × (length c ≡ n)) (reallocate grants t block n)
  unfolding reallocate malloc realloc
  reallocate-Begins grants granted t n [] [] b le =
      rw (granted (t * n))
        (returns (record { spare = replicate n none; split = refl }, length-replicate n none))
  reallocate-Begins grants granted t n (x ∷ xs) [] b le = absurd (omega (arith, length-Begins b))
  reallocate-Begins grants granted t n xs (c ∷ block) b le =
      rw (granted (t * n), take_all n (c ∷ block) le)
        (returns (
          record {
            spare = b.spare ++ replicate (n - length (c ∷ block)) none;
            split =
                ap (λ (u : Block T). u ++ replicate (n - length (c ∷ block)) none) b.split
                ∙ append_assoc (map some xs) b.spare _;
          },
          omega (
            arith,
            length-append (c ∷ block) (replicate (n - length (c ∷ block)) none),
            length-replicate {A = Option T} (n - length (c ∷ block)) none,
          ),
        ))

module _ {ℓ} {R T : Type ℓ} where
  -- The row holds the values `xs`, in the cells that its capacity counts.
  pub record IsRow (xs : List T) (row : Row R T) : Type ℓ where
    pub count : row.point_size ≡ length xs
    pub cells : length row.points ≡ row.point_capacity
    pub begins : Begins xs row.points

  pub clean_row-IsRow : IsRow [] clean_row
  clean_row-IsRow = record {
    count = refl;
    cells = refl;
    begins = record { spare = []; split = refl };
  }

  -- The row has room for `n` values and is to hold that many; it begins with `xs`.
  pub record HasRoom (n : ℕ) (xs : List T) (row : Row R T) : Type ℓ where
    pub count : row.point_size ≡ n
    pub cells : length row.points ≡ row.point_capacity
    pub room : n ≤ row.point_capacity
    pub begins : Begins xs row.points

  module _ (grants : ℕ → Bool) (granted : (n : ℕ) → grants n ≡ true) (m : RdMatrix R T) where
    pub initialize_points_memory-HasRoom :
        (xs : List T) (row : Row R T) (n : ℕ)
        → IsRow xs row
        → Returns (HasRoom n xs) (initialize_points_memory grants m row n)
    unfolding initialize_points_memory next_capacity
    initialize_points_memory-HasRoom xs row n is =
        Returns-bind
          (reallocate-Begins grants granted m.t_type_sizeof _ xs row.points is.begins
            (ground (arith, is.cells)))
          λ points (begins, size).
            returns (record { count = refl; cells = size; room = ground arith; begins = begins })

    pub fit_row-HasRoom :
        (xs : List T) (row : Row R T) (n : ℕ)
        → IsRow xs row
        → Returns (HasRoom n xs) (fit_row grants m row n)
    unfolding fit_row
    fit_row-HasRoom xs row n is =
        Returns-cond (ltb row.point_capacity n)
          (λ short. initialize_points_memory-HasRoom xs row n is)
          (λ wide.
            returns
              (record { count = refl; cells = is.cells; room = ground arith; begins = is.begins }))

    pub increase_row_points-HasRoom :
        (xs : List T) (row : Row R T) (n : ℕ)
        → IsRow xs row
        → Returns (HasRoom (length xs + n) xs) (increase_row_points grants m row n)
    unfolding increase_row_points
    increase_row_points-HasRoom xs row n is = simp is.count (
        Returns-cond (ltb row.point_capacity (length xs + n))
          (λ short. initialize_points_memory-HasRoom xs row (length xs + n) is)
          (λ wide.
            returns
              (record { count = refl; cells = is.cells; room = ground arith; begins = is.begins })))
