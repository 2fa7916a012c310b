-- ===== src/Sort/HeapSort/Order.antt =====
-- The heap order of src/sort/HeapSort.h: no child is greater than its parent.
use mathlib.Core.List.Perm
use premir_cpp.Common.{
  ℕ, zero, suc, ◌-◌, ◌/◌, ◌≤◌, ◌<◌, ◌≡◌, refl, ◌≢◌, ap, ◌∙◌, List, Perm, Option, none, some, arith,
  ◌==◌, if◌then◌else◌, length, get_elem?, set, length-set, get_elem?-set, lt_of_get_elem?,
  set-set-perm,
}
use premir_cpp.Sort.HeapSort.{Ordered}

abbrev pub parent : ℕ → ℕ
parent c = (c - 1) / 2

module _ {ℓ} {A : Type ℓ} (o : Ordered A) where
  rank_or : Option A → ℕ
  rank_or none = 0
  rank_or (some x) = o.rank x

  -- The rank of the entry at an index, 0 past the end.
  unfoldable pub key : List A → ℕ → ℕ
  unfolding rank_or
  key xs i = rank_or (get_elem? xs i)

  pub key-get_elem? : (xs : List A) (i : ℕ) {x : A} → get_elem? xs i ≡ some x → key xs i ≡ o.rank x
  unfolding key
  key-get_elem? xs i e = rw e

  pub key-congr : (xs ys : List A) (i : ℕ) → get_elem? xs i ≡ get_elem? ys i → key xs i ≡ key ys i
  unfolding key
  key-congr xs ys i e = ap rank_or e

  key-set :
      (xs : List A) (i j : ℕ) (v : A)
      → i < length xs
      → key (set xs i v) j ≡ (if i == j then o.rank v else key xs j)
  unfolding key
  key-set xs i j v h = ground (arith, get_elem?-set xs i j v)

  -- Below the first `n` entries every edge whose parent is at `lo` or later is in order.
  abbrev pub IsHeapFrom : ℕ → ℕ → List A → Type 0
  IsHeapFrom lo n xs = (c : ℕ) → 0 < c → c < n → lo ≤ parent c → key xs c ≤ key xs (parent c)

  -- Only the edges below `i` may be out of order, and they are in order with the edge above.
  pub record DownInv (lo n : ℕ) (xs : List A) (i : ℕ) : Type 0 where
    pub edges :
        (c : ℕ) → 0 < c → c < n → lo ≤ parent c → parent c ≢ i → key xs c ≤ key xs (parent c)
    pub bridged :
        (c : ℕ)
        → 0 < c
        → c < n
        → parent c ≡ i
        → 0 < i
        → lo ≤ parent i
        → key xs c ≤ key xs (parent i)

  -- `ys` is `xs` with entries moved about among the first `n`.
  pub record Rearranged (n : ℕ) (xs ys : List A) : Type ℓ where
    pub perm : Perm ys xs
    pub rest : (j : ℕ) → n ≤ j → get_elem? ys j ≡ get_elem? xs j
    pub size : length ys ≡ length xs
    pub within : (b : ℕ) → ((i : ℕ) → i < n → key xs i ≤ b) → (i : ℕ) → i < n → key ys i ≤ b

  pub Rearranged-refl : (n : ℕ) (xs : List A) → Rearranged n xs xs
  Rearranged-refl n xs = record {
    perm = Perm.refl xs;
    rest = λ j h. refl;
    size = refl;
    within = λ b h. h;
  }

  pub Rearranged-trans :
      {n : ℕ} {xs ys zs : List A} → Rearranged n xs ys → Rearranged n ys zs → Rearranged n xs zs
  Rearranged-trans p q = record {
    perm = Perm.trans q.perm p.perm;
    rest = λ j h. q.rest j h ∙ p.rest j h;
    size = q.size ∙ p.size;
    within = λ b h. q.within b (p.within b h);
  }

  pub Rearranged-widen :
      {n m : ℕ} {xs ys : List A} → n ≤ m → Rearranged n xs ys → Rearranged m xs ys
  Rearranged-widen {xs} {ys} le p = record {
    perm = p.perm;
    rest = λ j h. p.rest j (omega arith);
    size = p.size;
    within = λ b h i below.
        ground (arith, p.within b (λ j q. h j (omega arith)) i, key-congr ys xs i, p.rest i, h i);
  }

  module _ (xs : List A) (i j : ℕ) {v x : A} (ei : get_elem? xs i ≡ some v)
      (ej : get_elem? xs j ≡ some x) where
    pub key-swap :
        (c : ℕ)
        → key (set (set xs i x) j v) c
          ≡ (if j == c then key xs i else if i == c then key xs j else key xs c)
    key-swap c =
        let li = lt_of_get_elem? xs i ei in
        let lj = lt_of_get_elem? xs j ej in
        ground (
          arith,
          length-set xs i x,
          key-set (set xs i x) j c v,
          key-set xs i c x,
          key-get_elem? xs i ei,
          key-get_elem? xs j ej,
        )

    pub Rearranged-swap : {n : ℕ} → i ≢ j → i < n → j < n → Rearranged n xs (set (set xs i x) j v)
    Rearranged-swap ne hi hj =
        let li = lt_of_get_elem? xs i ei in
        let lj = lt_of_get_elem? xs j ej in
        record {
          perm = set-set-perm xs i j v x ne ei ej;
          rest = λ c h.
              ground (
                arith,
                length-set xs i x,
                get_elem?-set (set xs i x) j c v,
                get_elem?-set xs i c x,
              );
          size = ground (arith, length-set (set xs i x) j v, length-set xs i x);
          within = λ b h c p. ground (arith, key-swap c, h c, h i, h j);
        }

  root_greatest_below :
      (k : ℕ) (xs : List A) (n i : ℕ) → IsHeapFrom 0 n xs → i < k → i < n → key xs i ≤ key xs 0
  root_greatest_below zero xs n i h f p = elim f [ ]
  root_greatest_below (suc k) xs n i h f p =
      ground (arith, h i, root_greatest_below k xs n (parent i) h)

  -- The root of a heap is the greatest entry.
  pub root_greatest : (xs : List A) (n i : ℕ) → IsHeapFrom 0 n xs → i < n → key xs i ≤ key xs 0
  root_greatest xs n i h p = root_greatest_below (suc i) xs n i h (omega arith) p
