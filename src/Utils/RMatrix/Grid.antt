-- ===== src/Utils/RMatrix/Grid.antt =====
-- A double loop that writes each cell of an `RMatrix` in its turn.
use premir_cpp.Common.{
  dec_lt, sym, ℕ, suc, ◌≤◌, ◌<◌, ◌≡◌, refl, ◌∙◌, subst, false, ◌&&◌, ◌⊎◌, inl, inr, arith, ◌==◌,
  same_or_apart,
}
use premir_cpp.Common.Run.{Run, Returns, Returns-weaken, for, for-Returns}
use premir_cpp.Utils.RMatrix.{RMatrix, cell}
use premir_cpp.Utils.RMatrix.Cells.{HasShape}

module _ {S T : Type 0} where
  -- `for (j = 0; j < height; j++) for (i = 0; i < width; i++) body`
  abbrev pub for_each_cell :
      ℕ → ℕ → (ℕ → ℕ → RMatrix S T → Run (RMatrix S T)) → RMatrix S T → Run (RMatrix S T)
  for_each_cell width height body m =
      for height 0 (λ j row_start. for width 0 (λ i at_cell. body i j at_cell) row_start) m

  -- One round of the loop, at `i` and `j`: it may change that cell, which then is as `P` says.
  pub record Round (P : ℕ → ℕ → Run T → Type 0) (width height i j : ℕ) (m m' : RMatrix S T)
      : Type 0 where
    pub shape : HasShape width height m'
    pub here : P i j (cell m' i j)
    pub elsewhere : (a b : ℕ) → ((i == a) && (j == b)) ≡ false → cell m' a b ≡ cell m a b

  -- Every cell is as `P` says.
  pub record Filled (P : ℕ → ℕ → Run T → Type 0) (width height : ℕ) (m : RMatrix S T) : Type 0 where
    pub shape : HasShape width height m
    pub cells : (a b : ℕ) → a < width → b < height → P a b (cell m a b)

  module _ (P : ℕ → ℕ → Run T → Type 0) (width height : ℕ) (m0 : RMatrix S T) where
    -- Before the round at `i` and `j`.
    record Filling (j i : ℕ) (m : RMatrix S T) : Type 0 where
      shape : HasShape width height m
      done : (a b : ℕ) → a < width → b < height → (b < j) ⊎ ((b ≡ j) × (a < i)) → P a b (cell m a b)
      left : (a b : ℕ) → (j < b) ⊎ ((b ≡ j) × (i ≤ a)) → cell m a b ≡ cell m0 a b

    next_cell :
        (i j : ℕ) (m m' : RMatrix S T)
        → Filling j i m
        → Round P width height i j m m'
        → Filling j (suc i) m'
    next_cell i j m m' f r = record {
      shape = r.shape;
      done = λ a b wide high before.
          same_or_apart (λ a b. P a b (cell m' a b)) i j a b r.here
            (λ apart.
              subst (P a b) (sym (r.elsewhere a b apart))
                (f.done a b wide high (still a b before apart)));
      left = λ a b after. r.elsewhere a b (later a b after) ∙ f.left a b (was_left a b after);
    }
      where
        still :
            (a b : ℕ)
            → (b < j) ⊎ ((b ≡ j) × (a < suc i))
            → ((i == a) && (j == b)) ≡ false
            → (b < j) ⊎ ((b ≡ j) × (a < i))
        still a b (inl row) apart = inl row
        still a b (inr (same, lt)) apart = inr (same, ground (arith, same, lt, apart))

        later : (a b : ℕ) → (j < b) ⊎ ((b ≡ j) × (suc i ≤ a)) → ((i == a) && (j == b)) ≡ false
        later a b after = ground arith

        was_left : (a b : ℕ) → (j < b) ⊎ ((b ≡ j) × (suc i ≤ a)) → (j < b) ⊎ ((b ≡ j) × (i ≤ a))
        was_left a b (inl row) = inl row
        was_left a b (inr (same, le)) = inr (same, omega (arith, le))

    next_row : (j : ℕ) (m : RMatrix S T) → Filling j width m → Filling (suc j) 0 m
    next_row j m f = record {
      shape = f.shape;
      done = λ a b wide high before. f.done a b wide high (in_rows a b wide before);
      left = λ a b after. f.left a b (inl (past a b after));
    }
      where
        in_rows :
            (a b : ℕ)
            → a < width
            → (b < suc j) ⊎ ((b ≡ suc j) × (a < 0))
            → (b < j) ⊎ ((b ≡ j) × (a < width))
        in_rows a b wide (inl below) = elim (dec_lt b j) [
          | yes lt ↦ inl lt
          | no ge ↦ inr (omega (arith, below, ge), wide)
        ]
        in_rows a b wide (inr (same, lt)) = absurd (omega (arith, lt))

        past : (a b : ℕ) → (suc j < b) ⊎ ((b ≡ suc j) × (0 ≤ a)) → j < b
        past a b after = ground arith

    -- Each round finds its cell as it was before the loop.
    pub for_each_cell-Filled :
        (body : ℕ → ℕ → RMatrix S T → Run (RMatrix S T))
        → HasShape width height m0
        → ((i j : ℕ) (m : RMatrix S T)
            → i < width
            → j < height
            → HasShape width height m
            → cell m i j ≡ cell m0 i j
            → Returns (Round P width height i j m) (body i j m))
        → Returns (Filled P width height) (for_each_cell width height body m0)
    for_each_cell-Filled body shape0 step =
        Returns-weaken
          (for-Returns (λ j m. Filling j 0 m) _ 0 height height 0 m0 (omega arith) (omega arith)
            (record {
              shape = shape0;
              done = λ a b wide high before. absurd (ground (arith, before));
              left = λ a b after. refl;
            })
            (λ j row_start lo below f.
              Returns-weaken
                (for-Returns (λ i m. Filling j i m) _ 0 width width 0 row_start (omega arith)
                  (omega arith) f
                  (λ i m lo' inside f'.
                    Returns-weaken
                      (step i j m inside below f'.shape (f'.left i j (inr (refl, omega arith))))
                      (λ m' r. next_cell i j m m' f' r)))
                (λ m f'. next_row j m f')))
          (λ m f. record {
            shape = f.shape;
            cells = λ a b wide high. f.done a b wide high (inl high);
          })
