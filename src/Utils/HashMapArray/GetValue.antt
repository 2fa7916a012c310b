-- ===== src/Utils/HashMapArray/GetValue.antt =====
-- `getValue` on the lists that the matrix holds.
use native.Mathlib.Nat.{zero-add}
use premir_cpp.Common.{
  ℕ, zero, suc, ◌<◌, ◌≤◌, ◌≡◌, refl, ap, ◌∙◌, subst, Bool, inl, inr, List, [], ◌∷◌, map, none, some,
  arith, ltb, Bool-cases, length, get_elem?, set, get_elem?_of_lt, get_elem?_of_le, get_elem?-map,
}
use premir_cpp.Common.Run.{ok}
use premir_cpp.Utils.HashEngine.{bucket, hash_index-ok}
use premir_cpp.Utils.R3dMatrix.{Cell, Row, R3dMatrix}
use premir_cpp.Utils.R3dMatrix.Cells.{IsCell, IsRow, IsTable}
use premir_cpp.Utils.Bucket.{find_entry}
use premir_cpp.Utils.Bucket.Search.{find?, first_from, find_entry-first_from}
use premir_cpp.Utils.HashMap.{MapEntry, value_pointer}
use premir_cpp.Utils.HashMapArray.{HashMapArray, get_value}

-- The matrix holds a table of lists of entries, and there is at least one bucket.
pub record IsMaps {K V : Type 0} (m : HashMapArray K V) : Type 0 where
  pub lists : ℕ → ℕ → List (MapEntry K V)
  pub table : IsTable lists m.matrix
  pub buckets : 0 < m.engine.index_size

module _ {E : Type 0} where
  pub set-map : (xs : List E) (d : ℕ) (y : E) → set (map some xs) d (some y) ≡ map some (set xs d y)
  set-map [] d y = refl
  set-map (x ∷ xs) zero y = refl
  set-map (x ∷ xs) (suc d) y = ap (◌∷◌ (some x)) (set-map xs d y)

  pub find_entry-IsCell :
      (hit : E → Bool) (xs : List E) (cell : Cell Bool Bool E)
      → IsCell xs (some cell)
      → find_entry hit cell.point_size 0 cell.points ≡ ok (first_from hit 0 xs)
  find_entry-IsCell hit xs cell (held, size) =
      ap (λ n. find_entry hit n 0 cell.points) size
      ∙ ap (find_entry hit (length xs) 0) held
      ∙ find_entry-first_from hit xs 0 (map some xs)
          (λ j x e. rw (zero-add j) (get_elem?-map xs j x e))

  module _ (f : ℕ → ℕ → List E) (m : R3dMatrix Bool Bool E) (is : IsTable f m) (r : ℕ) where
    pub beyond_rows : m.row_size ≤ r → (c : ℕ) → f r c ≡ []
    beyond_rows past =
        subst (IsRow (f r)) (get_elem?_of_le m.matrix r (omega (arith, is.height, past)))
          (is.rows r)

    pub row_at :
        r < m.row_size
        → (row : Row Bool Bool E) × (get_elem? m.matrix r ≡ some row) × IsRow (f r) (some row)
    row_at inside =
        let (row, there) = get_elem?_of_lt m.matrix r (omega (arith, is.height, inside)) in
        (row, there, subst (IsRow (f r)) there (is.rows r))

  module _ (g : ℕ → List E) (row : Row Bool Bool E) (is : IsRow g (some row)) (c : ℕ) where
    pub beyond_cells : row.cell_size ≤ c → g c ≡ []
    beyond_cells past =
        subst (IsCell (g c)) (get_elem?_of_le row.cells c (omega (arith, is.0, past))) (is.1 c)

    pub cell_at :
        c < row.cell_size
        → (cell : Cell Bool Bool E) × (get_elem? row.cells c ≡ some cell) × IsCell (g c) (some cell)
    cell_at inside =
        let (cell, there) = get_elem?_of_lt row.cells c (omega (arith, is.0, inside)) in
        (cell, there, subst (IsCell (g c)) there (is.1 c))

module _ {K V : Type 0} where
  value_of_first :
      (hit : MapEntry K V → Bool) (xs : List (MapEntry K V)) (i : ℕ)
      → (elim (first_from hit i xs) [ none ↦ ok none | some (j, entry) ↦ ok (some entry.value) ])
        ≡ ok (value_pointer (find? hit xs))
  unfolding first_from find? value_pointer
  value_of_first hit [] i = refl
  value_of_first hit (x ∷ xs) i = elim (Bool-cases (hit x)) [
    | inl found ↦ rw found
    | inr other ↦ rw other (value_of_first hit xs (suc i))
  ]

  no_value :
      (hit : MapEntry K V → Bool) (xs : List (MapEntry K V))
      → xs ≡ []
      → ok none ≡ ok (value_pointer (find? hit xs))
  unfolding find? value_pointer
  no_value hit xs e = rw e refl

module _ {K V : Type 0} (same : K → K → Bool) where
  pub get_value-find? :
      (m : HashMapArray K V) (v : IsMaps m) (r : ℕ) (key : K)
      → get_value same m r key
        ≡ ok (value_pointer (find? (λ entry. same entry.key key) (v.lists r (bucket m.engine key))))
  unfolding get_value
  get_value-find? m v r key = elim (Bool-cases (ltb r m.matrix.row_size)) [
    | inr past ↦ rw past (
        no_value (λ entry. same entry.key key) _
          (beyond_rows v.lists m.matrix v.table r (ground (arith, past)) (bucket m.engine key)))
    | inl inside ↦
        let (row, there, is) = row_at v.lists m.matrix v.table r (ground (arith, inside)) in
        rw (inside, hash_index-ok m.engine key v.buckets, there)
          (elim (Bool-cases (ltb (bucket m.engine key) row.cell_size)) [
            | inr past ↦ rw past (
                no_value (λ entry. same entry.key key) _
                  (beyond_cells (v.lists r) row is (bucket m.engine key) (ground (arith, past))))
            | inl within ↦
                let (cell, here, holds) =
                  cell_at (v.lists r) row is (bucket m.engine key) (ground (arith, within)) in
                rw (within, here, find_entry-IsCell (λ entry. same entry.key key) _ cell holds)
                  (value_of_first (λ entry. same entry.key key) (v.lists r (bucket m.engine key)) 0)
          ])
  ]
