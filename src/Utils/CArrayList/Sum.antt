-- ===== src/Utils/CArrayList/Sum.antt =====
-- The entry-wise sum of two lists.
use premir_cpp.Common.{
  ℕ, zero, suc, ◌≤◌, ◌<◌, ◌≡◌, refl, sym, ap, ◌∙◌, subst, List, [], ◌∷◌, some, arith, length,
  get_elem?, set, length-set, get_elem?_of_lt,
}
use premir_cpp.Common.Run.{Returns, returns, for-Returns}
use premir_cpp.Utils.Memory.Writes.{get_elem?-Begins, set-Begins}
use premir_cpp.Utils.CArrayList.{CArrayList, at, add_cell, sum}
use premir_cpp.Utils.CArrayList.Lists.{IsList}

module _ {ℓ} {T : Type ℓ} (plus : T → T → T) where
  -- The first `n` values of `xs` with those of `ys` added, and the others of `xs`.
  unfoldable pub sum_first : ℕ → List T → List T → List T
  sum_first zero xs ys = xs
  sum_first (suc n) [] ys = []
  sum_first (suc n) (x ∷ xs) [] = x ∷ xs
  sum_first (suc n) (x ∷ xs) (y ∷ ys) = plus x y ∷ sum_first n xs ys

  length-sum_first : (n : ℕ) (xs ys : List T) → length (sum_first n xs ys) ≡ length xs
  unfolding sum_first
  length-sum_first zero xs ys = refl
  length-sum_first (suc n) [] ys = refl
  length-sum_first (suc n) (x ∷ xs) [] = refl
  length-sum_first (suc n) (x ∷ xs) (y ∷ ys) = ap suc (length-sum_first n xs ys)

  -- Entry `n` is as it was after `n` rounds, and the next round adds to it.
  sum_first-next :
      (n : ℕ) (xs ys : List T) (y : T)
      → n < length xs
      → get_elem? ys n ≡ some y
      → (x : T) × (get_elem? (sum_first n xs ys) n ≡ some x)
        × (set (sum_first n xs ys) n (plus x y) ≡ sum_first (suc n) xs ys)
  unfolding sum_first
  sum_first-next n [] ys y h e = absurd (omega arith)
  sum_first-next n (x ∷ xs) [] y h e = cc
  sum_first-next zero (x ∷ xs) (z ∷ ys) y h e = (x, refl, let same : y ≡ z = cc in rw same refl)
  sum_first-next (suc n) (x ∷ xs) (z ∷ ys) y h e =
      let (w, there, next) = sum_first-next n xs ys y (omega arith) e in
      (w, there, ap (◌∷◌ (plus x z)) next)

  add_cell-IsList :
      (xs ys : List T) (b list : CArrayList T) (n : ℕ)
      → length xs ≤ length ys
      → IsList ys b
      → n < length xs
      → IsList (sum_first n xs ys) list
      → Returns (IsList (sum_first (suc n) xs ys)) (add_cell plus b n list)
  unfolding add_cell at
  add_cell-IsList xs ys b list n le also h is =
      let (y, e) = get_elem?_of_lt ys n (omega (arith, h, le)) in
      let (x, here, next) = sum_first-next n xs ys y h e in
      rw (get_elem?-Begins n is.begins here, get_elem?-Begins n also.begins e)
        (returns (
          subst (λ zs. IsList zs (record list { array = set list.array n (some (plus x y)) })) next
            (record {
              count = is.count ∙ sym (length-set (sum_first n xs ys) n (plus x y));
              cells = length-set list.array n (some (plus x y)) ∙ is.cells;
              begins =
                  set-Begins n (plus x y) is.begins (omega (arith, h, length-sum_first n xs ys));
            })))

  -- For lists that hold `xs` and `ys`, the second at least as long, `sum` returns a list that holds
  -- the values of `xs` with those of `ys` added, place by place.
  pub sum-IsList :
      (xs ys : List T) (list b : CArrayList T)
      → length xs ≤ length ys
      → IsList xs list
      → IsList ys b
      → Returns (IsList (sum_first (length xs) xs ys)) (sum plus list b)
  unfolding sum sum_first
  sum-IsList xs ys list b le is also = simp is.count (
      for-Returns (λ k l. IsList (sum_first k xs ys) l) (add_cell plus b) 0 (length xs) (length xs)
        0 list (omega arith) (omega arith) is
        λ k l lo hi now. add_cell-IsList xs ys b l k le also hi now)
