-- ===== src/Utils/RdMatrix/Store.antt =====
-- What the writes of an `RDMatrix` do to the lists that it stores.
use mathlib.Core.Option.{some-injective}
use premir_cpp.Common.{
  ℕ, ◌+◌, ◌≤◌, ◌<◌, ◌≡◌, refl, sym, ◌∙◌, subst, Bool, true, inl, inr, List, [], ◌++◌, arith, ltb,
  ◌==◌, if◌then◌else◌, length, set, length-append, length-set, get_elem?-set, get_elem?_of_lt,
  Bool-cases,
}
use premir_cpp.Common.Run.{Returns, returns, Returns-bind, Returns-weaken}
use premir_cpp.Utils.RdMatrix.{Row, RdMatrix, copy_points, write_row, push_row, write_to_end_row}
use premir_cpp.Utils.RdMatrix.Rows.{memcpy-Begins, IsRow, HasRoom, increase_row_points-HasRoom}
use premir_cpp.Utils.RdMatrix.Prepare.{
  IsStore, update, update-nil, Prepared, put_row-Prepared, prepare_write_row-Prepared,
}

module _ {ℓ} {R T : Type ℓ} where
  module _ (grants : ℕ → Bool) (granted : (n : ℕ) → grants n ≡ true) where
    copy_points-IsStore :
        (f : ℕ → List T) (size r : ℕ) (xs ys : List T) (m : RdMatrix R T)
        → ((q : ℕ) → size ≤ q → f q ≡ [])
        → Prepared f size r (length xs + length ys) xs m
        → Returns
            (λ m'. IsStore (update f r (xs ++ ys)) m' × (m'.row_size ≡ m.row_size))
            (copy_points grants m r (length xs) ys (length ys))
    unfolding copy_points
    copy_points-IsStore f size r xs ys m past p =
        let (row, e) = get_elem?_of_lt m.matrix r (omega (arith, p.height, p.inside)) in
        let room = p.target row e in
        rw e (
          Returns-bind
            (memcpy-Begins xs ys row.points room.begins (omega (arith, room.room, room.cells)))
            λ points (begins, same).
              let copied : Row R T = record row { points = points } in
              let is : IsRow (xs ++ ys) copied = record {
                count = room.count ∙ sym (length-append xs ys);
                cells = same ∙ room.cells;
                begins = begins;
              } in
              returns (
                record {
                  height = length-set m.matrix r copied ∙ p.height;
                  within = ground (arith, p.size_eq, p.inside, p.bound);
                  rows = λ q row' e'. elim (Bool-cases (r == q)) [
                    | inl hit ↦ rw hit (
                        subst (IsRow (xs ++ ys))
                          (some-injective _ _
                            (ground (arith, get_elem?-set m.matrix r q copied, p.height, p.inside)))
                          is)
                    | inr miss ↦ rw miss (
                        p.others q row'
                          (ground (arith, get_elem?-set m.matrix r q copied, p.height, p.inside))
                          (ground arith))
                  ];
                  beyond = λ q h.
                      update-nil f r (xs ++ ys) q (ground (arith, p.size_eq))
                        (past q (ground (arith, p.size_eq)));
                },
                refl,
              ))

    forget-HasRoom :
        {n : ℕ} {xs : List T} {row : Row R T}
        → HasRoom n xs row
        → HasRoom (length {A = T} [] + n) [] row
    forget-HasRoom {row} h = record {
      count = omega (arith, h.count);
      cells = h.cells;
      room = omega (arith, h.room);
      begins = record { spare = row.points; split = refl };
    }

    -- Where the allocator grants every request, and the matrix stores the lists `f`, `writeRow` of
    -- `ys` to any row `r` returns a matrix that stores `ys` in row `r` and `f` in the others, and
    -- whose `rowSize` is the old one, or `r + 1` if `r` was not below it.
    pub write_row-IsStore :
        (f : ℕ → List T) (m : RdMatrix R T) (r : ℕ) (ys : List T)
        → IsStore f m
        → Returns
            (λ m'.
              IsStore (update f r ys) m'
              × (m'.row_size ≡ (if ltb r m.row_size then m.row_size else r + 1)))
            (write_row grants m r ys (length ys))
    unfolding write_row
    write_row-IsStore f m r ys s =
        Returns-bind (prepare_write_row-Prepared grants granted f m r (length ys) s) λ prepared p.
          Returns-weaken
            (copy_points-IsStore f m.row_size r [] ys prepared s.beyond (record {
              height = p.height;
              inside = p.inside;
              bound = p.bound;
              size_eq = p.size_eq;
              target = λ row e. forget-HasRoom (p.target row e);
              others = p.others;
            }))
            λ m' (store, size). (store, size ∙ p.size_eq)

    -- Where the allocator grants every request, and the matrix stores the lists `f`, `pushRow` of
    -- `ys` returns a matrix of one more row, the last of which stores `ys`, the others `f`.
    pub push_row-IsStore :
        (f : ℕ → List T) (m : RdMatrix R T) (ys : List T)
        → IsStore f m
        → Returns
            (λ m'. IsStore (update f m.row_size ys) m' × (m'.row_size ≡ m.row_size + 1))
            (push_row grants m ys (length ys))
    unfolding push_row
    push_row-IsStore f m ys s =
        Returns-weaken (write_row-IsStore f m m.row_size ys s)
          λ m' (store, size). (store, ground (arith, size))

    -- Where the allocator grants every request, and the matrix stores the lists `f`, `writeToEndRow`
    -- of `ys` to any row `r` returns a matrix that stores `f r ++ ys` in row `r` and `f` in the
    -- others, and whose `rowSize` is the old one, or `r + 1` if `r` was not below it.
    pub write_to_end_row-IsStore :
        (f : ℕ → List T) (m : RdMatrix R T) (r : ℕ) (ys : List T)
        → IsStore f m
        → Returns
            (λ m'.
              IsStore (update f r (f r ++ ys)) m'
              × (m'.row_size ≡ (if ltb r m.row_size then m.row_size else r + 1)))
            (write_to_end_row grants m r ys (length ys))
    unfolding write_to_end_row
    write_to_end_row-IsStore f m r ys s = elim (Bool-cases (ltb r m.row_size)) [
      | inl there ↦
          let inside : r < m.row_capacity = ground (arith, s.within) in
          let (row, e) = get_elem?_of_lt m.matrix r (omega (arith, s.height)) in
          let is = s.rows r row e in
          rw (there, e)
            (Returns-bind (increase_row_points-HasRoom grants granted m (f r) row (length ys) is)
              λ wider room.
                let p =
                  put_row-Prepared grants granted f m m.row_size r _ wider s inside s.within room in
                rw is.count (
                  copy_points-IsStore f m.row_size r (f r) ys
                    (record m { matrix = set m.matrix r wider }) s.beyond
                    (record {
                      height = p.height;
                      inside = p.inside;
                      bound = p.bound;
                      size_eq = rw there;
                      target = p.target;
                      others = p.others;
                    })))
      | inr past ↦
          let empty = s.beyond r (ground arith) in
          rw (past, empty) (rw past at (write_row-IsStore f m r ys s))
    ]
