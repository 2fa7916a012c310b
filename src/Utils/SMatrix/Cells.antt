-- ===== src/Utils/SMatrix/Cells.antt =====
-- What a write to one cell of an `SMatrix` does to every cell.
use premir_cpp.Common.{
  ℕ, zero, suc, ◌*◌, ◌<◌, ◌≡◌, refl, sym, ap, ◌∙◌, Bool, true, ◌&&◌, [], ◌∷◌, Option, none, some,
  arith, ◌==◌, if◌then◌else◌, length, get_elem?, set, replicate, length-append, length-set,
  get_elem?-set, get_elem?-append_last, get_elem?_of_lt, lt_of_get_elem?, lt→ltb, length-replicate,
}
use premir_cpp.Common.Run.{ok, Returns, returns, Returns-weaken, for-Returns}
use premir_cpp.Utils.Memory.{Block, malloc}
use premir_cpp.Utils.SMatrix.{SMatrix, allocate_rows, new, cell, put}

module _ {ℓ} {T : Type ℓ} where
  -- The content of a cell, `none` when it was never written or lies outside.
  unfoldable pub peek : SMatrix T → ℕ → ℕ → Option T
  peek m r c = elim (get_elem? m.matrix r) [
    | none ↦ none
    | some row ↦ elim (get_elem? row c) [ none ↦ none | some content ↦ content ]
  ]

  -- The matrix has `rows` row blocks of `cols` cells.
  pub record HasShape (rows cols : ℕ) (m : SMatrix T) : Type ℓ where
    pub rows_eq : m.row_size ≡ rows
    pub cols_eq : m.col_size ≡ cols
    pub height : length m.matrix ≡ rows
    pub width : (r : ℕ) (row : Block T) → get_elem? m.matrix r ≡ some row → length row ≡ cols

  pub cell-peek : (m : SMatrix T) (r c : ℕ) {v : T} → peek m r c ≡ some v → cell m r c ≡ ok v
  unfolding cell peek
  cell-peek m r c e = ground arith

  -- The cell at `r` and `c` holds `v` in `m'`, and every other cell what it held in `m`.
  pub record Put (m : SMatrix T) (rows cols r c : ℕ) (v : T) (m' : SMatrix T) : Type ℓ where
    pub shape : HasShape rows cols m'
    pub cells :
        (r' c' : ℕ) → peek m' r' c' ≡ (if (r == r') && (c == c') then some v else peek m r' c')

  -- In a matrix of `rows` rows of `cols` cells, and for `r` and `c` in range, `matrix(r, c) = v`
  -- returns: the cell then holds `v`, every other cell what it held, and the shape is the same.
  pub put-Put :
      {rows cols : ℕ} (m : SMatrix T) (r c : ℕ) (v : T)
      → HasShape rows cols m
      → r < rows
      → c < cols
      → Returns (Put m rows cols r c v) (put m r c v)
  unfolding put peek
  put-Put {rows} {cols} m r c v shape hr hc =
      let (row, e) = get_elem?_of_lt m.matrix r (omega (arith, shape.height)) in
      let inside : c < length row = omega (arith, shape.width r row e) in
      let long = lt_of_get_elem? m.matrix r e in
      rw (e, lt→ltb c (length row) inside)
        (returns (record {
          shape = record {
            rows_eq = shape.rows_eq;
            cols_eq = shape.cols_eq;
            height = length-set m.matrix r (set row c (some v)) ∙ shape.height;
            width = λ r' row' e'. ground (
              arith,
              get_elem?-set m.matrix r r' (set row c (some v)),
              length-set row c (some v),
              shape.width r row e,
              shape.width r' row',
            );
          };
          cells = λ r' c'. ground (
            arith,
            get_elem?-set m.matrix r r' (set row c (some v)),
            get_elem?-set row c c' (some v),
          );
        }))

  allocate_rows-HasShape :
      (grants : ℕ → Bool) (granted : (n : ℕ) → grants n ≡ true) (n : ℕ) (m : SMatrix T)
      → length m.matrix ≡ 0
      → m.row_size ≡ n
      → Returns (HasShape n m.col_size) (allocate_rows grants n m)
  unfolding allocate_rows malloc
  allocate_rows-HasShape grants granted n m empty size =
      Returns-weaken
        (for-Returns
          (λ k (t : SMatrix T).
            (t.col_size ≡ m.col_size)
            × (t.row_size ≡ n)
            × (length t.matrix ≡ k)
            × ((r : ℕ) (row : Block T) → get_elem? t.matrix r ≡ some row → length row ≡ m.col_size))
          _ 0 n n 0 m (omega arith) (omega arith)
          (refl, size, empty, λ r row e. absurd (omega (arith, lt_of_get_elem? m.matrix r e)))
          (λ k t lo hi (cols, rows, high, wide). rw (granted (t.type_sizeof * t.col_size)) (
            returns (
              cols,
              rows,
              omega (arith, length-append t.matrix (replicate t.col_size none ∷ []), high),
              λ r row e.
                  get_elem?-append_last t.matrix _ r row e (λ e'. wide r row e')
                    (λ e'. ap length (sym e') ∙ length-replicate t.col_size none ∙ cols),
            ))))
        λ t (cols, rows, high, wide). record {
          rows_eq = rows;
          cols_eq = cols;
          height = high;
          width = wide;
        }

  -- Where the allocator grants every request, the constructor returns, for any two sizes, a matrix of
  -- `rows` rows of `cols` cells each.
  pub new-HasShape :
      (grants : ℕ → Bool) (granted : (n : ℕ) → grants n ≡ true) (t p rows cols : ℕ)
      → Returns (HasShape rows cols) (new grants t p rows cols)
  unfolding new
  new-HasShape grants granted t p zero cols =
      returns (record { rows_eq = refl; cols_eq = refl; height = refl; width = λ r row e. cc })
  new-HasShape grants granted t p (suc n) cols =
      rw (lt→ltb 0 (suc n) (omega arith), granted (p * suc n))
        (allocate_rows-HasShape grants granted (suc n)
          (record {
            matrix = [];
            row_size = suc n;
            col_size = cols;
            type_sizeof = t;
            ptype_sizeof = p;
          })
          refl refl)
