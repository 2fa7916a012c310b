-- ===== src/Utils/RMatrix/Cells.antt =====
-- What reading and writing one cell of an `RMatrix` does.
use premir_cpp.Common.{
  ℕ, zero, suc, ◌*◌, ◌<◌, ◌≡◌, refl, sym, ap, ◌∙◌, Bool, true, false, ◌&&◌, [], ◌∷◌, Option, none,
  some, arith, ◌==◌, length, get_elem?, set, replicate, length-append, length-set, get_elem?-set,
  get_elem?-append_last, get_elem?_of_lt, lt_of_get_elem?, lt→ltb, Option-cases, inl, inr,
  length-replicate,
}
use premir_cpp.Common.Growth.{get_elem?-replicate}
use premir_cpp.Common.Run.{ok, undefined, Returns, returns, Returns-weaken, for-Returns}
use premir_cpp.Utils.Memory.{malloc}
use premir_cpp.Utils.RMatrix.{Row, RMatrix, allocate_rows, new, cell, put}

module _ {S T : Type 0} where
  -- The matrix has `rows` rows of `cols` cells.
  pub record HasShape (rows cols : ℕ) (m : RMatrix S T) : Type 0 where
    pub height : length m.matrix ≡ rows
    pub width : (r : ℕ) (row : Row S T) → get_elem? m.matrix r ≡ some row → length row.points ≡ cols

  -- The cell at `r` and `c` holds `v` in `m'`, and every other cell what it held in `m`.
  pub record Put (m : RMatrix S T) (rows cols r c : ℕ) (v : T) (m' : RMatrix S T) : Type 0 where
    pub shape : HasShape rows cols m'
    pub here : cell m' r c ≡ ok v
    pub elsewhere : (r' c' : ℕ) → ((r == r') && (c == c')) ≡ false → cell m' r' c' ≡ cell m r' c'

  pub put-Put :
      {rows cols : ℕ} (m : RMatrix S T) (r c : ℕ) (v : T)
      → HasShape rows cols m
      → r < rows
      → c < cols
      → Returns (Put m rows cols r c v) (put m r c v)
  unfolding put cell
  put-Put {rows} {cols} m r c v shape hr hc =
      let (row, e) = get_elem?_of_lt m.matrix r (omega (arith, shape.height)) in
      let inside : c < length row.points = omega (arith, shape.width r row e) in
      let long = lt_of_get_elem? m.matrix r e in
      let row' : Row S T = record row { points = set row.points c (some v) } in
      rw (e, lt→ltb c (length row.points) inside)
        (returns (record {
          shape = record {
            height = length-set m.matrix r row' ∙ shape.height;
            width = λ r' q e'. ground (
              arith,
              get_elem?-set m.matrix r r' row' long,
              length-set row.points c (some v),
              shape.width r row e,
              shape.width r' q,
              e',
            );
          };
          here = ground (
            arith,
            get_elem?-set m.matrix r r row' long,
            get_elem?-set row.points c c (some v) inside,
          );
          elsewhere = λ r' c' apart. ground (
            arith,
            get_elem?-set m.matrix r r' row' long,
            apart,
            e,
            get_elem?-set row.points c c' (some v) inside,
          );
        }))

  -- The matrix has `rows` rows of `cols` cells each, none of which is written.
  pub record Blank (rows cols : ℕ) (m : RMatrix S T) : Type 0 where
    pub shape : HasShape rows cols m
    pub unwritten : (r c : ℕ) → cell m r c ≡ undefined

  pub record Allocated (rows cols : ℕ) (m : RMatrix S T) : Type 0 where
    pub count : length m.matrix ≡ rows
    pub width_eq : m.col_size ≡ cols
    pub fresh :
        (r : ℕ) (row : Row S T) → get_elem? m.matrix r ≡ some row → row.points ≡ replicate cols none

  allocate_rows-Allocated :
      (grants : ℕ → Bool) (granted : (n : ℕ) → grants n ≡ true) (n : ℕ) (m : RMatrix S T)
      → length m.matrix ≡ 0
      → Returns (Allocated n m.col_size) (allocate_rows grants n m)
  unfolding allocate_rows malloc
  allocate_rows-Allocated grants granted n m empty =
      for-Returns (λ k (t : RMatrix S T). Allocated k m.col_size t) _ 0 n n 0 m (omega arith)
        (omega arith)
        (record {
          count = empty;
          width_eq = refl;
          fresh = λ r row e. absurd (omega (arith, lt_of_get_elem? m.matrix r e, empty));
        })
        (λ k t lo hi a. rw (granted (t.t_type_sizeof * t.col_size)) (
          returns (record {
            count = omega (
              arith,
              length-append t.matrix
                  (record { content = none; points = replicate t.col_size none } ∷ []),
              a.count,
            );
            width_eq = a.width_eq;
            fresh = λ r row e.
                get_elem?-append_last t.matrix _ r row e (λ e'. a.fresh r row e')
                  (λ e'. ap (λ q. q.points) (sym e') ∙ ap (λ n. replicate n none) a.width_eq);
          })))

  Allocated-Blank : {rows cols : ℕ} (m : RMatrix S T) → Allocated rows cols m → Blank rows cols m
  unfolding cell
  Allocated-Blank {rows} {cols} m a = record {
    shape = record {
      height = a.count;
      width = λ r row e. ap length (a.fresh r row e) ∙ length-replicate cols none;
    };
    unwritten = λ r c. elim (Option-cases (get_elem? m.matrix r)) [
      | inl out ↦ rw out refl
      | inr (row, e) ↦
          rw (e, a.fresh r row e, get_elem?-replicate {A = Option T} cols none c) (ground arith)
    ];
  }

  -- Where the allocator grants every request, the constructor returns such a matrix for any sizes.
  pub new-Blank :
      (grants : ℕ → Bool) (granted : (n : ℕ) → grants n ≡ true) (t r rows cols : ℕ)
      → Returns (Blank rows cols) (new grants t r rows cols)
  unfolding new
  new-Blank grants granted t r zero cols =
      returns (Allocated-Blank _ (record { count = refl; width_eq = refl; fresh = λ r row e. cc }))
  new-Blank grants granted t r (suc n) cols =
      rw (lt→ltb 0 (suc n) (omega arith), granted (r * suc n))
        (Returns-weaken
          (allocate_rows-Allocated grants granted (suc n)
            (record {
              matrix = [];
              row_size = suc n;
              col_size = cols;
              t_type_sizeof = t;
              r_type_sizeof = r;
            })
            refl)
          (λ m a. Allocated-Blank m a))
