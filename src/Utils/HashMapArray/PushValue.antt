-- ===== src/Utils/HashMapArray/PushValue.antt =====
-- `pushValue`, and what `getValue` returns after it.
use native.Mathlib.Nat.{zero-add}
use premir_cpp.Common.{
  ℕ, ◌<◌, ◌≡◌, refl, sym, ap, ◌∙◌, subst, Bool, true, false, ◌&&◌, not, inl, inr, List, [], ◌∷◌,
  map, Option, some, arith, ltb, ◌==◌, ==-refl, ==_iff, if◌then◌else◌, is_some, Bool-cases,
  get_elem?, set, length-set,
}
use premir_cpp.Common.Run.{
  ok, ◌>>=◌, Returns, returns, Returns-bind, Returns-weaken, Returns-cond, ok-if,
}
use premir_cpp.Utils.HashEngine.{HashEngine, bucket, hash_index-ok}
use premir_cpp.Utils.HashEngine.Equality.{IsEquality}
use premir_cpp.Utils.R3dMatrix.{Cell, Row, R3dMatrix, write_points}
use premir_cpp.Utils.R3dMatrix.Cells.{IsCell, IsRow, IsTable, update, set-IsRow, set-IsTable}
use premir_cpp.Utils.R3dMatrix.WriteCell.{written}
use premir_cpp.Utils.R3dMatrix.WritePoints.{write_points-IsTable}
use premir_cpp.Utils.Bucket.Search.{find?, insert, first_from, Found, find-Found}
use premir_cpp.Utils.Bucket.Search.Found.{missing, hit_at}
use premir_cpp.Utils.HashMap.{MapEntry, value_pointer}
use premir_cpp.Utils.HashMap.Laws.{
  merged, at, renew, fresh, pushed, value_pointer-is_some, lists-pushed,
}
use premir_cpp.Utils.HashMapArray.{HashMapArray, store_found, push_value, get_value}
use premir_cpp.Utils.HashMapArray.GetValue.{
  IsMaps, set-map, find_entry-IsCell, beyond_rows, row_at, beyond_cells, cell_at, get_value-find?,
}

module _ {K V : Type 0} (same : K → K → Bool) (key : K) (value : V)
    (updater : Option (V → V → V)) where
  -- The lists after the insertion.
  abbrev after : List (MapEntry K V) → List (MapEntry K V)
  after xs = insert (at same key) (renew same key value updater) (fresh same key value updater) xs

  -- What `pushValue` makes of the table `f`.
  record Pushed (f : ℕ → ℕ → List (MapEntry K V)) (r c : ℕ) (m : HashMapArray K V)
      (result : HashMapArray K V × Bool) : Type 0 where
    table : IsTable (update f r c (after (f r c))) result.0.matrix
    engine : result.0.engine ≡ m.engine
    added : result.1 ≡ not (is_some (find? (at same key) (f r c)))

  module _ (grants : ℕ → Bool) (granted : (n : ℕ) → grants n ≡ true)
      (f : ℕ → ℕ → List (MapEntry K V)) (m : HashMapArray K V) (is : IsTable f m.matrix)
      (r c : ℕ) where
    -- The row or the cell is not there yet.
    first-Pushed :
        f r c ≡ []
        → Returns (Pushed f r c m) (
            write_points grants m.matrix r c (fresh same key value updater ∷ []) 1 false
            >>= λ longer. ok (record m { matrix = longer }, true))
    unfolding written insert find?
    first-Pushed empty =
        Returns-bind
          (write_points-IsTable grants granted f m.matrix r c (fresh same key value updater ∷ [])
            false is)
          (λ longer table. returns (record {
            table = subst (λ xs. IsTable (update f r c xs) longer) (rw empty refl) table;
            engine = refl;
            added = rw empty refl;
          }))

    store_found-Pushed :
        (row : Row Bool Bool (MapEntry K V)) (cell : Cell Bool Bool (MapEntry K V))
        → get_elem? m.matrix.matrix r ≡ some row
        → IsRow (f r) (some row)
        → r < m.matrix.row_size
        → get_elem? row.cells c ≡ some cell
        → IsCell (f r c) (some cell)
        → c < row.cell_size
        → Found
            (at same key)
            (renew same key value updater)
            (fresh same key value updater)
            0
            (f r c)
        → Returns (Pushed f r c m) (
            store_found same grants m r c
              (fresh same key value updater)
              updater
              (first_from (at same key) 0 (f r c)))
    unfolding store_found written
    store_found-Pushed row cell there is_row inside here holds within
          (missing none_hit none_found alike) =
        rw none_hit (
          Returns-bind
            (write_points-IsTable grants granted f m.matrix r c (fresh same key value updater ∷ [])
              true is)
            (λ longer table. returns (record {
              table = subst (λ xs. IsTable (update f r c xs) longer) (sym alike) table;
              engine = refl;
              added = rw none_found refl;
            })))
    store_found-Pushed row cell there is_row inside here holds within
          (hit_at d x at_d found in_list alike) =
        let y = renew same key value updater x in
        let points : set cell.points d (some y) ≡ map some (set (f r c) d y) =
          ap (λ ps. set ps d (some y)) holds.0 ∙ set-map (f r c) d y in
        let changed : Cell Bool Bool (MapEntry K V) = record cell {
          points = set cell.points d (some y);
        } in
        let longer : R3dMatrix Bool Bool (MapEntry K V) = record m.matrix {
          matrix = set m.matrix.matrix r (record row { cells = set row.cells c changed });
        } in
        let is_changed : IsCell (set (f r c) d y) (some changed) =
          (points, holds.1 ∙ sym (length-set (f r c) d y)) in
        let table : IsTable (update f r c (set (f r c) d y)) longer =
          set-IsTable f m.matrix r c (set (f r c) d y)
            (record row { cells = set row.cells c changed }) is inside
            (set-IsRow (f r) row c (set (f r c) d y) changed is_row within is_changed) in
        rw (at_d, zero-add, there, here)
          (returns (record {
            table = subst (λ xs. IsTable (update f r c xs) longer) (sym alike) table;
            engine = refl;
            added = rw found refl;
          }))

  push_value-Pushed :
      (grants : ℕ → Bool)
      → ((n : ℕ) → grants n ≡ true)
      → (f : ℕ → ℕ → List (MapEntry K V)) (m : HashMapArray K V) → IsTable f m.matrix
      → 0 < m.engine.index_size
      → (r : ℕ)
      → Returns (Pushed f r (bucket m.engine key) m) (push_value same grants m r key value updater)
  unfolding push_value
  push_value-Pushed grants granted f m is buckets r =
      let c : ℕ = bucket m.engine key in
      rw (hash_index-ok m.engine key buckets) (
        Returns-cond (ltb r m.matrix.row_size)
          (λ e.
            let inside : r < m.matrix.row_size = ground (arith, e) in
            let (row, there, is_row) = row_at f m.matrix is r inside in
            rw there (
              Returns-cond (ltb c row.cell_size)
                (λ e'.
                  let within : c < row.cell_size = ground (arith, e') in
                  let (cell, here, holds) = cell_at (f r) row is_row c within in
                  rw (here, find_entry-IsCell (at same key) (f r c) cell holds)
                    (store_found-Pushed grants granted f m is r c row cell there is_row inside here
                      holds within
                      (find-Found (at same key) (renew same key value updater)
                        (fresh same key value updater) 0 (f r c))))
                (λ past.
                  first-Pushed grants granted f m is r c
                    (beyond_cells (f r) row is_row c (ground (arith, past))))))
          (λ past.
            first-Pushed grants granted f m is r c
              (beyond_rows f m.matrix is r (ground (arith, past)) c)))

  -- The lookup after the push, row by row.
  lists-after :
      (engine : HashEngine K) (equality : IsEquality same engine) (f : ℕ → ℕ → List (MapEntry K V))
      (r r' : ℕ) (other : K)
      → value_pointer (
          find? (at same other) (
            update f r
              (bucket engine key)
              (after (f r (bucket engine key)))
              r'
              (bucket engine other)))
        ≡ (if (r == r') && same key other
            then some (
                merged updater value
                  (value_pointer (find? (at same key) (f r (bucket engine key)))))
            else value_pointer (find? (at same other) (f r' (bucket engine other))))
  unfolding pushed
  lists-after engine equality f r r' other = elim (Bool-cases (r == r')) [
    | inr apart ↦ rw apart refl
    | inl alike ↦
        subst
          (λ q.
            value_pointer (
              find? (at same other) (
                update f r (bucket engine key) (after (f r (bucket engine key))) q
                  (bucket engine other)))
            ≡ (if (r == q) && same key other
                then some (
                    merged updater value
                      (value_pointer (find? (at same key) (f r (bucket engine key)))))
                else value_pointer (find? (at same other) (f q (bucket engine other)))))
          ((==_iff r r').0 alike)
          (rw (==-refl r) (lists-pushed same key value updater engine equality (f r) other))
  ]

  -- Let `operator==` of the keys be an equivalence, equal keys have the same hash code, and the
  -- allocator grant what it asks for. Then `pushValue` on row `r` of an array of maps returns an array
  -- of maps. In row `r` every key equal to the one that was pushed has the value that was pushed,
  -- merged with its old one if it had one; every other key of the row, and every key of another row,
  -- has what it had; and the flag says whether the key was new.
  pub array_push_value-get_value :
      (grants : ℕ → Bool)
      → ((n : ℕ) → grants n ≡ true)
      → (m : HashMapArray K V) (r : ℕ) → IsMaps m
      → IsEquality same m.engine
      → Returns
          (λ (m', added).
            IsMaps m'
            × (ok added ≡ (do old ← get_value same m r key; ok (not (is_some old))))
            × ((r' : ℕ) (other : K)
                → get_value same m' r' other ≡ (
                    if (r == r') && same key other
                    then (do old ← get_value same m r key; ok (some (merged updater value old)))
                    else get_value same m r' other)))
          (push_value same grants m r key value updater)
  array_push_value-get_value grants granted m r v equality =
      Returns-weaken (push_value-Pushed grants granted v.lists m v.table v.buckets r) (λ result p.
        let m' : HashMapArray K V = result.0 in
        let v' : IsMaps m' = record {
          lists = _;
          table = p.table;
          buckets = subst (λ e. 0 < e.index_size) (sym p.engine) v.buckets;
        } in
        let found = get_value-find? same m v in
        (
          v',
          rw (found r key) (
              ap ok (
                p.added
                ∙ value_pointer-is_some same
                    (find? (at same key) (v.lists r (bucket m.engine key))))),
          λ r' other.
              get_value-find? same m' v' r' other
              ∙ rw (found r key, found r' other, p.engine)
                  (ap ok (lists-after m.engine equality v.lists r r' other)
                    ∙ ok-if ((r == r') && same key other) _ _),
        ))
