-- ===== src/Sort/HeapSort/SiftDown.antt =====
-- siftDown of src/sort/HeapSort.h restores the heap order below one entry.
use premir_cpp.Common.{
  ℕ, zero, suc, ◌+◌, ◌-◌, ◌*◌, ◌≤◌, ◌<◌, ◌≡◌, refl, ◌≢◌, ◌⊎◌, inl, inr, ◌&&◌, List, some, arith,
  ltb, ◌==◌, if◌then◌else◌, length, get_elem?, set, length-set, get_elem?-set, get_elem?_of_lt,
  lt_of_get_elem?, Bool-cases,
}
use premir_cpp.Common.Run.{ok, ◌>>=◌, Returns, returns, Returns-bind, Returns-weaken, Returns-cond}
use premir_cpp.Sort.HeapSort.{
  Ordered, load, store, left_child_greater, right_child_greater, find_max, sift_down_loop,
  sift_down,
}
use premir_cpp.Sort.HeapSort.Order.{
  parent, key, key-get_elem?, IsHeapFrom, DownInv, Rearranged, Rearranged-refl, Rearranged-trans,
  Rearranged-swap, key-swap,
}

module _ {ℓ} {A : Type ℓ} where
  pub load-ok : (xs : List A) (i : ℕ) {x : A} → get_elem? xs i ≡ some x → load xs i ≡ ok x
  unfolding load
  load-ok xs i e = rw e

  pub store-ok : (xs : List A) (i : ℕ) (x : A) → i < length xs → store xs i x ≡ ok (set xs i x)
  unfolding store
  store-ok xs i x h = ground arith

module _ {ℓ} {A : Type ℓ} (o : Ordered A) where
  left_child-ok :
      (xs : List A) (c : ℕ) (v : A) (n : ℕ)
      → n ≤ length xs
      → left_child_greater o xs c v n ≡ ok (ltb c n && ltb (o.rank v) (key o xs c))
  unfolding left_child_greater
  left_child-ok xs c v n fits = elim (Bool-cases (ltb c n)) [
    | inl inside ↦
        let (x, e) = get_elem?_of_lt xs c (ground arith) in
        rw (inside, load-ok xs c e, o.gt_lem x v, key-get_elem? o xs c e)
    | inr outside ↦ rw outside
  ]

  right_child-ok :
      (xs : List A) (c m n : ℕ)
      → n ≤ length xs
      → m < length xs
      → right_child_greater o xs c m n ≡ ok (ltb c n && ltb (key o xs m) (key o xs c))
  unfolding right_child_greater
  right_child-ok xs c m n fits hm = elim (Bool-cases (ltb c n)) [
    | inl inside ↦
        let (x, e) = get_elem?_of_lt xs c (ground arith) in
        let (y, e') = get_elem?_of_lt xs m hm in
        rw (
          inside,
          load-ok xs c e,
          load-ok xs m e',
          o.gt_lem x y,
          key-get_elem? o xs c e,
          key-get_elem? o xs m e',
        )
    | inr outside ↦ rw outside
  ]

  -- `m` is the place of the largest among `i` and its children.
  record IsMax (xs : List A) (i n m : ℕ) : Type 0 where
    place : (m ≡ i) ⊎ ((parent m ≡ i) × (i < m) × (m < n))
    upper : (c : ℕ) → 0 < c → c < n → parent c ≡ i → key o xs c ≤ key o xs m
    above : key o xs i ≤ key o xs m

  -- The comparison with the right child, once the larger of `i` and its left child is at `m`.
  right_stage :
      (xs : List A) (i n m : ℕ)
      → n ≤ length xs
      → i < length xs
      → (m ≡ i) ⊎ ((m ≡ i * 2 + 1) × (m < n))
      → (i * 2 + 1 < n → key o xs (i * 2 + 1) ≤ key o xs m)
      → key o xs i ≤ key o xs m
      → Returns (IsMax xs i n) (
          right_child_greater o xs (i * 2 + 1 + 1) m n >>= λ right.
          ok (if right then i * 2 + 1 + 1 else m))
  right_stage xs i n m fits inside at left above =
      rw (right_child-ok xs (i * 2 + 1 + 1) m n fits (omega arith))
        (elim (Bool-cases (ltb (i * 2 + 1 + 1) n && ltb (key o xs m) (key o xs (i * 2 + 1 + 1)))) [
          | inl r ↦ rw r (
              returns (record {
                place = inr (ground arith, ground arith, ground arith);
                upper = λ c p q s. ground arith;
                above = ground arith;
              }))
          | inr r ↦ rw r (
              returns
                (record { place = ground arith; upper = λ c p q s. ground arith; above = above }))
        ])

  find_max-IsMax :
      (xs : List A) (v : A) (i n : ℕ)
      → n ≤ length xs
      → get_elem? xs i ≡ some v
      → Returns (IsMax xs i n) (find_max o xs v i n)
  unfolding find_max
  find_max-IsMax xs v i n fits e =
      let inside = lt_of_get_elem? xs i e in
      let here = key-get_elem? o xs i e in
      rw (left_child-ok xs (i * 2 + 1) v n fits)
        (elim (Bool-cases (ltb (i * 2 + 1) n && ltb (o.rank v) (key o xs (i * 2 + 1)))) [
          | inl l ↦ rw l (
              right_stage xs i n (i * 2 + 1) fits inside (inr (refl, ground arith))
                (λ h. omega arith) (ground arith))
          | inr l ↦
              rw l (right_stage xs i n i fits inside (inl refl) (λ h. ground arith) (omega arith))
        ])

  -- What siftDown promises from an array whose entry `i` may be too small.
  abbrev pub Sifted : ℕ → ℕ → List A → List A → Type ℓ
  Sifted lo n xs ys = IsHeapFrom o lo n ys × Rearranged o n xs ys

  module _ (xs : List A) (i m : ℕ) {v x : A} (ei : get_elem? xs i ≡ some v)
      (em : get_elem? xs m ≡ some x) where
    swap-DownInv :
        {lo n : ℕ}
        → lo ≤ i
        → DownInv o lo n xs i
        → IsMax xs i n m
        → m ≢ i
        → DownInv o lo n (set (set xs i x) m v) m
    swap-DownInv le inv best ne =
        let at = key-swap o xs i m ei em in
        record {
          edges = λ c p q r s. ground (
            arith,
            at c,
            at (parent c),
            inv.edges c,
            inv.bridged m,
            best.upper c,
            best.place,
            best.above,
          );
          bridged = λ c p q r s t. ground (arith, at c, at (parent m), inv.edges c, best.place);
        }

  sift_down_loop-Sifted :
      (k : ℕ) (xs : List A) (v : A) (lo i n : ℕ)
      → n ≤ length xs
      → lo ≤ i
      → get_elem? xs i ≡ some v
      → n - i < k
      → DownInv o lo n xs i
      → Returns (Sifted lo n xs) (sift_down_loop o k xs v i n)
  unfolding sift_down_loop
  sift_down_loop-Sifted zero xs v lo i n fits le e fuel inv = elim fuel [ ]
  sift_down_loop-Sifted (suc k) xs v lo i n fits le e fuel inv =
      Returns-bind (find_max-IsMax xs v i n fits e) λ m best.
        Returns-cond (m == i)
          (λ settled.
            returns (λ c p q r. ground (arith, inv.edges c, best.upper c), Rearranged-refl o n xs))
          λ moved.
            let (hi, hm) : (i < m) × (m < n) = ground (arith, best.place) in
            let (x, em) = get_elem?_of_lt xs m (omega arith) in
            let inside = lt_of_get_elem? xs i e in
            let swapped = set (set xs i x) m v in
            let same = Rearranged-swap o xs i m e em (omega arith) (omega arith) hm in
            rw
              (
                load-ok xs m em,
                store-ok xs i x inside,
                store-ok (set xs i x) m v (omega (arith, length-set xs i x)),
              )
              (Returns-weaken
                (sift_down_loop-Sifted k swapped v lo m n (omega (arith, same.size)) (omega arith)
                  (ground (arith, length-set xs i x, get_elem?-set (set xs i x) m m v))
                  (omega arith) (swap-DownInv xs i m e em le inv best (omega arith)))
                λ ys (heap, moved'). (heap, Rearranged-trans o same moved'))

  -- Given an array of at least `n` elements with an index `i`, at least `lo`, in range, in which only
  -- entry `i` may be too small for the heap order from `lo` to `n`, siftDown returns an array in
  -- heap order from `lo` to `n`: a rearrangement of the first `n` elements that leaves the others.
  pub sift_down-Sifted :
      (xs : List A) (lo i n : ℕ)
      → n ≤ length xs
      → lo ≤ i
      → i < length xs
      → DownInv o lo n xs i
      → Returns (Sifted lo n xs) (sift_down o xs i n)
  unfolding sift_down
  sift_down-Sifted xs lo i n fits le inside inv =
      let (v, e) = get_elem?_of_lt xs i inside in
      rw (load-ok xs i e) (sift_down_loop-Sifted (n + 1) xs v lo i n fits le e (omega arith) inv)
