-- ===== src/Utils/RdMatrix/Prepare.antt =====
-- An `RDMatrix` as a store of lists, one to a row, and how its writes make room.
use premir_cpp.Common.{
  ℕ, zero, suc, ◌+◌, ◌-◌, ◌*◌, ◌≤◌, ◌<◌, ◌≡◌, ◌≢◌, refl, ◌∙◌, subst, Bool, true, inl, inr, List, [],
  ◌∷◌, ◌++◌, some, arith, ltb, ◌==◌, if◌then◌else◌, length, get_elem?, set, replicate,
  length-append, length-set, length-replicate, get_elem?-set, get_elem?_of_lt, Bool-cases, ==_iff,
}
use premir_cpp.Common.Run.{Returns, returns, Returns-bind, Returns-cond}
use premir_cpp.Utils.RdMatrix.{
  Row, RdMatrix, new, next_capacity, clean_row, initialize_row_memory, prepare_write_row,
}
use premir_cpp.Utils.RdMatrix.Rows.{
  IsRow, clean_row-IsRow, HasRoom, initialize_points_memory-HasRoom, fit_row-HasRoom,
}

module _ {ℓ} {T : Type ℓ} where
  -- The store with another list in row `r`.
  abbrev pub update : (ℕ → List T) → ℕ → List T → ℕ → List T
  update f r xs q = if r == q then xs else f q

  pub update-nil :
      (f : ℕ → List T) (r : ℕ) (xs : List T) (q : ℕ) → r ≢ q → f q ≡ [] → update f r xs q ≡ []
  update-nil f r xs q ne e = elim (Bool-cases (r == q)) [
    | inl hit ↦ absurd (ne ((==_iff r q).0 hit))
    | inr miss ↦ rw miss e
  ]

module _ {ℓ} {R T : Type ℓ} where
  -- Row `r` holds the list `f r`, up to `rowSize` rows; there is room for `rowCapacity` rows.
  pub record IsStore (f : ℕ → List T) (m : RdMatrix R T) : Type ℓ where
    pub height : length m.matrix ≡ m.row_capacity
    pub within : m.row_size ≤ m.row_capacity
    pub rows : (r : ℕ) (row : Row R T) → get_elem? m.matrix r ≡ some row → IsRow (f r) row
    pub beyond : (r : ℕ) → m.row_size ≤ r → f r ≡ []

  pub new-IsStore : (t row : ℕ) → IsStore (λ r. []) (new t row)
  unfolding new
  new-IsStore t row = record {
    height = refl;
    within = omega arith;
    rows = λ r x e. cc;
    beyond = λ r h. refl;
  }

  -- Row `r` has room for `n` values, and begins with `xs`; the other rows are as `f` says.
  pub record Prepared (f : ℕ → List T) (size r n : ℕ) (xs : List T) (m : RdMatrix R T)
      : Type ℓ where
    pub height : length m.matrix ≡ m.row_capacity
    pub inside : r < m.row_capacity
    pub bound : size ≤ m.row_capacity
    pub size_eq : m.row_size ≡ (if ltb r size then size else r + 1)
    pub target : (row : Row R T) → get_elem? m.matrix r ≡ some row → HasRoom n xs row
    pub others : (q : ℕ) (row : Row R T) → get_elem? m.matrix q ≡ some row → r ≢ q → IsRow (f q) row

  get_elem?-clean :
      (rows : List (Row R T)) (k r : ℕ) (row : Row R T)
      → get_elem? (rows ++ replicate k clean_row) r ≡ some row
      → (length rows ≤ r → row ≡ clean_row) × (r < length rows → get_elem? rows r ≡ some row)
  get_elem?-clean [] zero r row e = cc
  get_elem?-clean [] (suc k) zero row e = (λ h. ground arith, λ h. absurd (omega arith))
  get_elem?-clean [] (suc k) (suc r) row e =
      ((λ h. (get_elem?-clean [] k r row e).0 (omega arith)), λ h. absurd (omega arith))
  get_elem?-clean (x ∷ rows) k zero row e = (λ h. absurd (omega arith), λ h. e)
  get_elem?-clean (x ∷ rows) k (suc r) row e =
      let (past, old) = get_elem?-clean rows k r row e in
      (λ h. past (omega arith), λ h. old (omega arith))

  module _ (grants : ℕ → Bool) (granted : (n : ℕ) → grants n ≡ true) where
    initialize_row_memory-IsStore :
        (f : ℕ → List T) (m : RdMatrix R T) (n : ℕ)
        → IsStore f m
        → m.row_capacity < n
        → Returns (λ g. IsStore f g × (g.row_size ≡ n)) (initialize_row_memory grants m n)
    unfolding initialize_row_memory next_capacity
    initialize_row_memory-IsStore f m n s more =
        let capacity = next_capacity m.row_capacity m.row_capacity_increase n in
        let (enough, wider) : (n ≤ capacity) × (m.row_capacity ≤ capacity) = ground arith in
        rw (granted (m.row_type_sizeof * capacity)) (
          returns (
            record {
              height = omega (
                arith,
                length-append m.matrix (replicate (capacity - m.row_capacity) clean_row),
                length-replicate (capacity - m.row_capacity) (clean_row {R = R} {T = T}),
                s.height,
              );
              within = enough;
              rows = λ r row e. elim (Bool-cases (ltb r (length m.matrix))) [
                | inl h ↦ s.rows r row (
                    (get_elem?-clean m.matrix (capacity - m.row_capacity) r row e).1 (ground arith))
                | inr h ↦
                    rw
                      (
                        (get_elem?-clean m.matrix (capacity - m.row_capacity) r row e).0
                            (ground arith),
                        s.beyond r (ground (arith, s.height, s.within)),
                      )
                      clean_row-IsRow
              ];
              beyond = λ r h. s.beyond r (omega (arith, s.within));
            },
            refl,
          ))

    pub put_row-Prepared :
        (f : ℕ → List T) (m : RdMatrix R T) (size r n : ℕ) (row : Row R T)
        → IsStore f m
        → r < m.row_capacity
        → size ≤ m.row_capacity
        → HasRoom n (f r) row
        → Prepared f size r n (f r) (record m {
          matrix = set m.matrix r row;
          row_size = if ltb r size then size else r + 1;
        })
    put_row-Prepared f m size r n row s inside bound room = record {
      bound = bound;
      height = length-set m.matrix r row ∙ s.height;
      inside = inside;
      size_eq = refl;
      target = λ row' e.
          let same : row ≡ row' = ground (arith, get_elem?-set m.matrix r r row, s.height) in
          subst (HasRoom n (f r)) same room;
      others =
          λ q row' e ne. s.rows q row' (ground (arith, get_elem?-set m.matrix r q row, s.height));
    }

    pub prepare_write_row-Prepared :
        (f : ℕ → List T) (m : RdMatrix R T) (r n : ℕ)
        → IsStore f m
        → Returns (Prepared f m.row_size r n (f r)) (prepare_write_row grants m r n)
    unfolding prepare_write_row
    prepare_write_row-Prepared f m r n s =
        Returns-cond (ltb r m.row_capacity)
          (λ there.
            let (row, e) = get_elem?_of_lt m.matrix r (ground (arith, s.height)) in
            rw e (
              Returns-bind (fit_row-HasRoom grants granted m (f r) row n (s.rows r row e))
                λ fitted room.
                  returns
                    (put_row-Prepared f m m.row_size r n fitted s (ground arith) s.within room)))
          (λ past.
            Returns-bind (initialize_row_memory-IsStore f m (r + 1) s (ground arith))
              λ g (grown, size).
                let (row, e) =
                  get_elem?_of_lt g.matrix r (omega (arith, grown.height, grown.within, size)) in
                rw e (
                  Returns-bind
                    (initialize_points_memory-HasRoom grants granted g (f r) row n
                      (grown.rows r row e))
                    λ fitted room.
                      let p =
                        put_row-Prepared f g m.row_size r n fitted grown
                          (omega (arith, grown.within, size))
                          (ground (arith, s.within, grown.within, size)) room in
                      returns (record {
                        height = p.height;
                        inside = p.inside;
                        bound = p.bound;
                        size_eq = ground (arith, s.within);
                        target = p.target;
                        others = p.others;
                      })))
