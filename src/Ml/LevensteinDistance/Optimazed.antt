-- ===== src/Ml/LevensteinDistance/Optimazed.antt =====
-- `wldOptimazed` of src/ml/LevensteinDistance.h keeps one column of the matrix of `wld`.
use premir_cpp.Common.{
  ℕ, zero, suc, ◌+◌, ◌-◌, ◌≤◌, ◌<◌, ◌≡◌, ◌≢◌, refl, ◌∙◌, Bool, List, none, some, arith, ltb, ◌==◌,
  if◌then◌else◌, length, get_elem?, replicate, length-set, length-replicate, get_elem?-set,
  suc-sub-one, lt→ltb, Bool-cases, inl, inr, true,
}
use premir_cpp.Common.Run.{
  ok, undefined, for, Returns, returns, Returns-bind, Returns-eq, for_one-Returns,
}
use premir_cpp.Utils.Memory.{Block}
use premir_cpp.Ml.LevensteinDistance.{
  min3, column_at, column_put, fill_column, next_column, wld, wld_optimazed,
}
use premir_cpp.Ml.LevensteinDistance.Script.{at, dist}
use premir_cpp.Ml.LevensteinDistance.Wld.{min3-min, char_at-ok, wld-dist, dist-zero}

module _ (s t : List ℕ) (n m : ℕ) where
  -- The column has `n + 1` cells, of which those from `lo` up to `hi` hold the values of `f`.
  record Column (lo hi : ℕ) (f : ℕ → ℕ) (column : Block ℕ) : Type 0 where
    size : length column ≡ n + 1
    cells : (c : ℕ) → lo ≤ c → c < hi → get_elem? column c ≡ some (some (f c))

  column_at-ok :
      {lo hi : ℕ} {f : ℕ → ℕ} {column : Block ℕ} (c : ℕ)
      → Column lo hi f column
      → lo ≤ c
      → c < hi
      → column_at s t column c ≡ ok (f c)
  unfolding column_at
  column_at-ok c h p q = rw (h.cells c p q)

  column_put-Column :
      {lo hi lo' hi' : ℕ} {f : ℕ → ℕ} (g : ℕ → ℕ) {column : Block ℕ} (i v : ℕ)
      → Column lo hi f column
      → i ≤ n
      → v ≡ g i
      → ((c : ℕ) → lo' ≤ c → c < hi' → c ≢ i → (lo ≤ c) × (c < hi) × (f c ≡ g c))
      → Returns (Column lo' hi' g) (column_put s t column i v)
  unfolding column_put
  column_put-Column g {column} i v h hi e keep =
      rw (lt→ltb i (length column) (omega (arith, h.size))) (
        returns (record {
          size = length-set column i (some v) ∙ h.size;
          cells = λ c p q.
              ground (arith, get_elem?-set column i c (some v), keep c p q, h.cells c, h.size);
        }))

  -- Round `suc q` has replaced the cells below `k`.
  abbrev mixed : ℕ → ℕ → ℕ → ℕ
  mixed q k c = if ltb c k then dist s t c (suc q) else dist s t c q

  abbrev Inner : ℕ → ℕ → Block ℕ × ℕ → Type 0
  Inner q k (column, last) = Column 0 (n + 1) (mixed q k) column × (last ≡ dist s t (k - 1) q)

  column_value :
      (q k : ℕ)
      → min3
          (dist s t (suc k) q + 1)
          (dist s t k (suc q) + 1)
          (dist s t k q + (if at s k == at t q then 0 else 1))
        ≡ dist s t (suc k) (suc q)
  unfolding dist
  column_value q k = omega (
    arith,
    min3-min (dist s t (suc k) q + 1) (dist s t k (suc q) + 1)
        (dist s t k q + (if at s k == at t q then 0 else 1)),
  )

  fill_column-Inner :
      (q k : ℕ) (state : Block ℕ × ℕ)
      → n ≤ length s
      → m ≤ length t
      → q < m
      → k < n
      → Inner q (suc k) state
      → Returns (Inner q (suc (suc k))) (fill_column s t (suc q) (suc k) state)
  unfolding fill_column
  fill_column-Inner q k (column, last) hs ht hq hk (h, e) =
      rw
        (
          column_at-ok (suc k) h (omega arith) (omega arith),
          suc-sub-one k,
          column_at-ok k h (omega arith) (omega arith),
          char_at-ok s k (omega arith),
          suc-sub-one q,
          char_at-ok t q (omega arith),
        )
        (Returns-bind
          (column_put-Column (mixed q (suc (suc k))) (suc k) _ h (omega arith)
            (ground (arith, column_value q k)) (λ c p r ne. ground arith))
          λ filled next. returns (next, ground arith))

  -- Before round `j` of the outer loop the column holds the distances to the first `j - 1`
  -- characters, but for its first cell before round 1.
  abbrev Outer : ℕ → Block ℕ → Type 0
  Outer j column = Column (2 - j) (n + 1) (λ c. dist s t c (j - 1)) column

  next_column-Outer :
      (q : ℕ) (column : Block ℕ)
      → n ≤ length s
      → m ≤ length t
      → q < m
      → Outer (suc q) column
      → Returns (Outer (suc (suc q))) (next_column s t n (suc q) column)
  unfolding next_column dist
  next_column-Outer q column hs ht hq h =
      Returns-bind
        (column_put-Column {lo' = 0} {hi' = n + 1} (mixed q 1) 0 (suc q) h (omega arith) refl
          (λ c p r ne. (omega arith, r, rw (suc-sub-one q) (ground arith))))
        λ started now.
          Returns-bind
            (for_one-Returns (Inner q) (fill_column s t (suc q)) n (started, suc q - 1)
              (now, omega arith) λ k state hk inner. fill_column-Inner q k state hs ht hq hk inner)
            λ state done. returns (record {
              size = done.0.size;
              cells = λ c p r. rw (suc-sub-one (suc q)) (ground (arith, done.0.cells c));
            })

  init-Column :
      Returns
        (Column 1 (suc n) (λ c. c))
        (for n 1 (λ i column. column_put s t column i i) (replicate (n + 1) none))
  init-Column =
      for_one-Returns (λ k. Column 1 k (λ c. c)) (λ i column. column_put s t column i i) n
        (replicate (n + 1) none)
        (record { size = length-replicate (n + 1) none; cells = λ c p q. absurd (omega arith) })
        (λ k column hk h.
          column_put-Column (λ c. c) (suc k) (suc k) h (omega arith) refl
            (λ c p q ne. (p, omega arith, refl)))

  -- With at least one character in one of the strings, `wldOptimazed` returns the distance.
  pub wld_optimazed-dist :
      n ≤ length s → m ≤ length t → 0 < n + m → wld_optimazed s t n m ≡ ok (dist s t n m)
  unfolding wld_optimazed
  wld_optimazed-dist hs ht some_char = Returns-eq (
      Returns-bind init-Column λ column start.
        Returns-bind
          (for_one-Returns Outer (next_column s t n) m column
            (record {
              size = start.size;
              cells = λ c p q. rw (dist-zero s t n m c) (start.cells c p (omega arith));
            })
            λ q u hq now. next_column-Outer q u hs ht hq now)
          λ last done.
            rw (column_at-ok n done (omega arith) (omega arith), suc-sub-one m) (returns refl))

wld_optimazed-empty : (s t : List ℕ) → wld_optimazed s t 0 0 ≡ undefined
unfolding wld_optimazed
wld_optimazed-empty s t = refl

wld_optimazed-both_empty : (s t : List ℕ) (n m : ℕ) → n + m ≡ 0 → wld_optimazed s t n m ≡ undefined
wld_optimazed-both_empty s t zero zero e = wld_optimazed-empty s t
wld_optimazed-both_empty s t zero (suc m) e = absurd (omega arith)
wld_optimazed-both_empty s t (suc n) m e = absurd (omega arith)

-- If the allocator grants what `wld` asks for, `wldOptimazed` agrees with `wld` on all prefixes
-- within the two strings but the two empty ones: there it returns a cell of its column that nothing has written.
pub wld_optimazed-wld :
    (grants : ℕ → Bool)
    → ((bytes : ℕ) → grants bytes ≡ true)
    → (sizeof_t sizeof_p : ℕ) (s t : List ℕ) (n m : ℕ) → n ≤ length s
    → m ≤ length t
    → wld_optimazed s t n m
      ≡ (if n + m == 0 then undefined else wld s t grants sizeof_t sizeof_p n m)
wld_optimazed-wld grants granted sizeof_t sizeof_p s t n m hs ht = elim (Bool-cases (n + m == 0)) [
  | inl empty ↦ rw empty (wld_optimazed-both_empty s t n m (ground arith))
  | inr full ↦
      rw (full, wld-dist s t n m hs ht grants granted sizeof_t sizeof_p)
        (wld_optimazed-dist s t n m hs ht (ground arith))
]
