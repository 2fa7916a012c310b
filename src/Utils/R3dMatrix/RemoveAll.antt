-- ===== src/Utils/R3dMatrix/RemoveAll.antt =====
-- `removeAllRowCells` and `removeAll`.
use mathlib.Core.Option.{some-injective}
use premir_cpp.Common.{
  ℕ, suc, ◌<◌, ◌≡◌, ◌≢◌, refl, sym, ap, ◌∙◌, subst, true, false, inl, inr, List, [], ◌∷◌, Option,
  some, arith, ltb, ◌==◌, ==-refl, if◌then◌else◌, length, get_elem?, set, get_elem?_of_lt,
  get_elem?_of_le, lt_of_get_elem?, Bool-cases, get_elem?-set,
}
use premir_cpp.Common.Run.{ok, ◌>>=◌, for-Returns, Returns, returns, Returns-bind, Returns-weaken}
use premir_cpp.Utils.R3dMatrix.{
  Cell, Row, R3dMatrix, get_row, put_row, remove_cells, remove_row_points, remove_all_row_cells,
  remove_all,
}
use premir_cpp.Utils.R3dMatrix.Cells.{IsRow, IsTable}
use premir_cpp.Utils.R3dMatrix.Remove.{
  remove_row_points-Emptied, set_row-IsTable, set-others, IsRow-same,
}

module _ {T : Type 0} where
  row_here : (r : ℕ) (g : ℕ → List T) → (if r == r then (λ c. []) else g) ≡ (λ c. [])
  row_here r g = rw (==-refl r) refl

  below_zero : (f : ℕ → ℕ → List T) (r : ℕ) → f r ≡ (if ltb r 0 then (λ c. []) else f r)
  below_zero f r = let no : ltb r 0 ≡ false = ground arith in rw no refl

  below_suc :
      (f : ℕ → ℕ → List T) (r q : ℕ)
      → (if r == q
          then (λ c. [])
          else if r == q
          then (λ c. [])
          else if ltb q r
          then (λ c. [])
          else f q)
        ≡ (if ltb q (suc r) then (λ c. []) else f q)
  below_suc f r q = elim (Bool-cases (r == q)) [
    | inl here ↦ let below : ltb q (suc r) ≡ true = ground (arith, here) in rw (here, below) refl
    | inr apart ↦
        let same : ltb q (suc r) ≡ ltb q r = ground (arith, apart) in rw (apart, same) refl
  ]

module _ {R C T : Type 0} where
  bare_row :
      (size : ℕ) (content : Option R) (cells : List (Cell R C T))
      → let row = remove_cells (record { cell_size = size; content = content; cells = cells }) in
        size ≡ length cells → IsRow (λ c. []) (some row) × (row.cells ≡ [])
  unfolding remove_cells
  bare_row size content [] e = ((e, λ c. refl), refl)
  bare_row size content (x ∷ cells) e = ((refl, λ c. refl), refl)

  remove_cells-IsRow :
      (row : Row R C T)
      → IsRow (λ c. []) (some row)
      → IsRow (λ c. []) (some (remove_cells row)) × ((remove_cells row).cells ≡ [])
  remove_cells-IsRow row is = bare_row row.cell_size row.content row.cells is.0

  -- The rows below `n` have no cells any more.
  record Removing (f : ℕ → ℕ → List T) (size n : ℕ) (m : R3dMatrix R C T) : Type 0 where
    table : IsTable (λ r. if ltb r n then (λ c. []) else f r) m
    size_eq : m.row_size ≡ size
    bare : (r : ℕ) (row : Row R C T) → r < n → get_elem? m.matrix r ≡ some row → row.cells ≡ []

  IsTable-same :
      (f g : ℕ → ℕ → List T) (m : R3dMatrix R C T)
      → ((r : ℕ) → f r ≡ g r)
      → IsTable f m
      → IsTable g m
  IsTable-same f g m same is = record {
    height = is.height;
    rows = λ r. subst (λ h. IsRow h (get_elem? m.matrix r)) (same r) (is.rows r);
  }

  bare_suc :
      (rows rows' : List (Row R C T)) (r : ℕ) (row : Row R C T)
      → r < length rows'
      → ((q : ℕ) → q ≢ r → get_elem? rows' q ≡ get_elem? rows q)
      → row.cells ≡ []
      → ((q : ℕ) (found : Row R C T) → q < r → get_elem? rows q ≡ some found → found.cells ≡ [])
      → (q : ℕ) (found : Row R C T) → q < suc r
      → get_elem? (set rows' r row) q ≡ some found
      → found.cells ≡ []
  bare_suc rows rows' r row h others none_left before q found below e = elim (Bool-cases (r == q)) [
    | inl here ↦
        let same : row ≡ found =
          some-injective _ _ (sym (get_elem?-set rows' r q row h ∙ rw here refl) ∙ e) in
        ap (λ x. x.cells) (sym same) ∙ none_left
    | inr apart ↦
        let ne : q ≢ r = ground (arith, apart) in
        before q found (ground (arith, apart, below))
          (sym (others q ne) ∙ sym (set-others rows' r row q h ne) ∙ e)
  ]

  remove_cells-Removing :
      (f : ℕ → ℕ → List T) (size r : ℕ) (now : R3dMatrix R C T)
      → r < size
      → Removing f size r now
      → Returns (Removing f size (suc r)) (
          remove_row_points now r >>= λ emptied.
          get_row emptied r >>= λ row. ok (put_row emptied r (remove_cells row)))
  unfolding get_row put_row
  remove_cells-Removing f size r now h e =
      Returns-bind
        (remove_row_points-Emptied (λ q. if ltb q r then (λ c. []) else f q) now r e.table
          (omega (arith, e.size_eq, h)))
        (λ m' done.
          let inside : r < length m'.matrix =
            omega (arith, done.table.height, done.size_eq, e.size_eq, h) in
          let (row, there) = get_elem?_of_lt m'.matrix r inside in
          let holds : IsRow {R = R} {C = C} (λ c. []) (some row) =
            subst (IsRow {R = R} {C = C} (λ c. [])) there
              (subst (λ g. IsRow g (get_elem? m'.matrix r)) (row_here r _) (done.table.rows r)) in
          let (bare, none_left) = remove_cells-IsRow row holds in
          rw there (
            returns (record {
              table =
                  IsTable-same _ (λ q. if ltb q (suc r) then (λ c. []) else f q)
                    (record m' { matrix = set m'.matrix r (remove_cells row) }) (below_suc f r)
                    (set_row-IsTable
                      (λ q. if r == q then (λ c. []) else if ltb q r then (λ c. []) else f q) m' r
                      (λ c. []) (remove_cells row) done.table
                      (omega (arith, done.size_eq, e.size_eq, h)) bare);
              size_eq = done.size_eq ∙ e.size_eq;
              bare =
                  bare_suc now.matrix m'.matrix r (remove_cells row) inside done.others none_left
                    e.bare;
            })))

  -- What `removeAllRowCells` leaves: as many rows, none of which has a cell.
  pub record Bare (size : ℕ) (m : R3dMatrix R C T) : Type 0 where
    pub table : IsTable (λ r c. []) m
    pub size_eq : m.row_size ≡ size
    pub no_cells : (r : ℕ) (row : Row R C T) → get_elem? m.matrix r ≡ some row → row.cells ≡ []

  Removing-Bare :
      (f : ℕ → ℕ → List T) (m : R3dMatrix R C T) (is : IsTable f m) (m' : R3dMatrix R C T)
      → Removing f m.row_size m.row_size m'
      → Bare m.row_size m'
  Removing-Bare f m is m' e = record {
    table = record {
      height = e.table.height;
      rows = λ r.
          IsRow-same (if ltb r m.row_size then (λ c. []) else f r) (λ c. []) (get_elem? m'.matrix r)
            (none_left r) (e.table.rows r);
    };
    size_eq = e.size_eq;
    no_cells = λ r row there.
        e.bare r row (omega (arith, e.size_eq, e.table.height, lt_of_get_elem? m'.matrix r there))
          there;
  }
    where
      none_left : (r c : ℕ) → (if ltb r m.row_size then (λ c. []) else f r) c ≡ []
      none_left r c = elim (Bool-cases (ltb r m.row_size)) [
        | inl inside ↦ rw inside refl
        | inr outside ↦ rw outside (
            subst (IsRow (f r)) (get_elem?_of_le m.matrix r (ground (arith, is.height, outside)))
              (is.rows r) c)
      ]

  -- `removeAllRowCells` ends and leaves a matrix of as many rows, none of which has a cell.
  pub remove_all_row_cells-Bare :
      (f : ℕ → ℕ → List T) (m : R3dMatrix R C T)
      → IsTable f m
      → Returns (Bare m.row_size) (remove_all_row_cells m)
  unfolding remove_all_row_cells
  remove_all_row_cells-Bare f m is =
      Returns-weaken
        (for-Returns (Removing f m.row_size)
          (λ r now. remove_row_points now r >>= λ emptied.
            get_row emptied r >>= λ row. ok (put_row emptied r (remove_cells row)))
          0 m.row_size m.row_size 0 m (omega arith) (omega arith)
          (record {
            table = IsTable-same f (λ r. if ltb r 0 then (λ c. []) else f r) m (below_zero f) is;
            size_eq = refl;
            bare = λ r row no e. absurd (omega (arith, no));
          })
          (λ r now low high e. remove_cells-Removing f m.row_size r now high e))
        (λ m' e. Removing-Bare f m is m' e)

  cleared :
      (f : ℕ → ℕ → List T) (m : R3dMatrix R C T)
      → IsTable f m
      → (rows : List (Row R C T)) → m.matrix ≡ rows
      → Returns
          (λ m'. (m'.matrix ≡ []) × (m'.row_size ≡ 0))
          (elim rows [
            | [] ↦ ok m
            | ◌∷◌ x rows ↦
                (remove_all_row_cells m >>= λ emptied.
                ok (record emptied { matrix = []; row_size = 0 }))
          ])
  cleared f m is [] e = returns (e, is.height ∙ ap length e)
  cleared f m is (x ∷ rows) e =
      Returns-bind (remove_all_row_cells-Bare f m is) (λ m' bare. returns (refl, refl))

  -- `removeAll` ends and leaves a matrix without rows.
  pub remove_all-empty :
      (f : ℕ → ℕ → List T) (m : R3dMatrix R C T)
      → IsTable f m
      → Returns (λ m'. (m'.matrix ≡ []) × (m'.row_size ≡ 0)) (remove_all m)
  unfolding remove_all
  remove_all-empty f m is = cleared f m is m.matrix refl
